-- ===== src/Sched/Examples.antt =====
-- A core with an idle thread and two others.
use hvos.Common.{
  All, false, ℕ, suc, ◌*◌, ◌≤◌, ◌≡◌, refl, ◌≢◌, ◌⊎◌, inl, false, some, [], ◌∷◌, arith, ◌==◌,
  if◌then◌else◌, sub64,
}
use hvos.Mem.Paging.{zero_entry}
use hvos.Sched.{
  Thread, Cpu, state_ready, state_running, state_waiting, state_sleeping, idle_name, is_idle,
  update, lowest_from, dispatch, schedule, get_lowest_runtime, fall_asleep, kusleep,
  get_total_delta, notify_wait_channel,
}
use hvos.Sched.Dispatch.{IsValid, Scheduled, schedule_lem}
use hvos.Sched.Events.{Steps, Steps-schedule, block_on, start, step, waits}
use hvos.Sched.Notify.{waits_for, IsFirstWaiting, notify_wait_channel_lem}
use hvos.Sched.Sleep.{kusleep_lem, ticks}

abbrev a_thread : ℕ → ℕ → ℕ → Thread
a_thread number state vruntime = record {
  tid = number;
  name = if number == 1 then idle_name else [];
  state = state;
  k_rsp = 0x1000 * number;
  kernel_stack_base = 0x1000 * number;
  vruntime = vruntime;
  sleep_ticks = 0;
  block_channel = 0;
  process = 0;
}

-- Thread 3 runs; thread 1 is the idle one.
abbrev three : Cpu
three = record {
  thread = λ t.
      if t == 1
      then a_thread 1 state_ready 5
      else if t == 2
      then a_thread 2 state_ready 3
      else if t == 3
      then a_thread 3 state_running 7
      else a_thread 0 0 0;
  thread_list = 3 ∷ 2 ∷ 1 ∷ [];
  current_thread = 3;
  sleeping_queue = [];
  rsp0 = 0x3000;
  stack_top = 0x3000;
  cr3_of = λ p. 0x5000;
  cr3 = 0x5000;
  tables = record {
    entry = λ t i. zero_entry;
    pmm = record { bitmap = []; total_pages = 0; used_pages = 0 };
  };
}

three_one_running : (t : ℕ) → (three.thread t).state ≡ state_running → t ≡ 3
three_one_running t r = ground arith

three-IsValid : IsValid three 1
unfolding is_idle
three-IsValid = record {
  no_null = refl;
  current_listed = refl;
  one_running = three_one_running;
  idle_listed = refl;
  idle_named = refl;
  idle_awake = inl refl;
}

picks_second : get_lowest_runtime three ≡ 2
unfolding lowest_from
picks_second = refl

schedule_lem_example :
    (rsp : ℕ) × (c' : Cpu) × (schedule three 0x2F00 0 ≡ some (rsp, c'))
    × IsValid c' 1
    × Scheduled three 0x2F00 rsp c'
schedule_lem_example = schedule_lem three 1 0x2F00 0 three-IsValid (omega arith)

after_sleep : (c' : Cpu) × (kusleep three 10 0x2F00 0 ≡ some (0x2000, c'))
unfolding schedule dispatch update lowest_from is_idle fall_asleep
after_sleep = (_, refl)

kusleep_lem_example :
    let delta = sub64 10 (get_total_delta three) in
    ((n : ℕ) → n ≤ delta → ((ticks n after_sleep.0).thread 3).state ≡ state_sleeping)
    × (((ticks (suc delta) after_sleep.0).thread 3).state ≡ state_ready)
kusleep_lem_example =
    kusleep_lem three after_sleep.0 1 10 0x2F00 0 0x2000 three-IsValid (omega arith) (omega arith)
      after_sleep.1

abbrev channel : ℕ
channel = 0x77

-- Thread 3 has begun to wait.
abbrev waiting : Cpu
waiting = record three {
  thread = λ t.
      if t == 3
      then record (a_thread 3 state_waiting 7) { block_channel = 0x77 }
      else three.thread t;
}

notify_wait_channel_lem_example :
    let c' = notify_wait_channel waiting channel in
    ((c' ≡ waiting)
      × ((channel ≡ 0) ⊎ All (λ t. waits_for waiting.thread channel t ≡ false) waiting.thread_list))
    ⊎ ((p : ℕ) × (channel ≢ 0)
        × IsFirstWaiting waiting.thread waiting.thread_list channel p
        × (c'.thread p ≡ record (waiting.thread p) { state = state_ready; block_channel = 0 })
        × ((t : ℕ) → t ≢ p → c'.thread t ≡ waiting.thread t)
        × (c' ≡ record waiting { thread = c'.thread }))
notify_wait_channel_lem_example = notify_wait_channel_lem waiting channel refl

after_wait : (c' : Cpu) × (schedule (block_on three 0x77) 0x2F00 0 ≡ some (0x2000, c'))
unfolding schedule dispatch update lowest_from is_idle block_on
after_wait = (_, refl)

one_wait : Steps 1 three after_wait.0
one_wait =
    step three three after_wait.0 (start three)
      (waits three after_wait.0 0x77 0x2F00 0 0x2000 (omega arith) (omega arith) after_wait.1)

Steps-schedule_example :
    IsValid after_wait.0 1
    × ((rsp' : ℕ) × (d : Cpu) × (schedule after_wait.0 0x1F00 0 ≡ some (rsp', d))
        × IsValid d 1
        × Scheduled after_wait.0 0x1F00 rsp' d)
Steps-schedule_example =
    Steps-schedule three after_wait.0 0x1F00 0 three-IsValid one_wait (omega arith)
