-- ===== src/Proc/Examples.antt =====
-- A process that waits for its child, which then exits.
use hvos.Common.{
  ℕ, ◌*◌, ◌≡◌, refl, ◌≢◌, inl, true, false, Option, none, some, [], ◌∷◌, arith, ◌==◌, if◌then◌else◌,
  listed,
}
use hvos.Mem.Paging.{zero_entry}
use hvos.Sched.{
  Thread, Cpu, state_ready, state_running, state_waiting, idle_name, is_idle, update, lowest_from,
  dispatch, schedule,
}
use hvos.Sched.Events.{die}
use hvos.Sched.Dispatch.{IsValid}
use hvos.Proc.{
  Process, System, get_current_process, process_by_pid, make_ready, wake_parent, leave, yield_to,
  sys_exit, Wait, blocks, begin_wait, sys_waitpid,
}
use hvos.Proc.Exit.{Exited, sys_exit_lem}
use hvos.Proc.Steps.{WaitsForChild, IsSound, exits, waits}
use hvos.Proc.Steps.Sound.{start, step, Steps-IsSound}

abbrev a_thread : ℕ → ℕ → ℕ → Thread
a_thread number state process = record {
  tid = number;
  name = if number == 1 then idle_name else [];
  state = state;
  k_rsp = 0x1000 * number;
  kernel_stack_base = 0x1000 * number;
  vruntime = if number == 1 then 9 else number;
  sleep_ticks = 0;
  block_channel = 0;
  process = process;
}

-- Thread 3 of process 1000 runs, thread 2 is that of its child 2000, thread 1 is idle.
abbrev core : Cpu
core = record {
  thread = λ t.
      if t == 1
      then a_thread 1 state_ready 1000
      else if t == 2
      then a_thread 2 state_ready 2000
      else if t == 3
      then a_thread 3 state_running 1000
      else a_thread 0 0 0;
  thread_list = 2 ∷ 1 ∷ 3 ∷ [];
  current_thread = 3;
  sleeping_queue = [];
  rsp0 = 0x3000;
  stack_top = 0x3000;
  cr3_of = λ p. 0x5000;
  cr3 = 0x5000;
  tables = record {
    entry = λ t i. zero_entry;
    pmm = record { bitmap = []; total_pages = 0; used_pages = 0 };
  };
}

abbrev a_process : ℕ → ℕ → ℕ → Process
a_process pid parent primary = record {
  pid = pid;
  heap_end = 0;
  parent = parent;
  exit_code = 0;
  is_waiting = false;
  wait_target_pid = 0;
  file_table = [];
  primary = primary;
}

abbrev family : System
family = record {
  cpu = core;
  process = λ p.
      if p == 1000
      then a_process 0 0 3
      else if p == 2000
      then a_process 1 1000 2
      else a_process 0 0 0;
  process_list = 2000 ∷ 1000 ∷ [];
  next_pid = 2;
  next_tid = 4;
  stack = λ a. record { rip = 0; cs = 0; rflags = 0; usermode_rsp = 0; usermode_ss = 0 };
}

family_one_running : (t : ℕ) → (core.thread t).state ≡ state_running → t ≡ 3
family_one_running t r = ground arith

family-core : IsValid core 1
unfolding is_idle
family-core = record {
  no_null = refl;
  current_listed = refl;
  one_running = family_one_running;
  idle_listed = refl;
  idle_named = refl;
  idle_awake = inl refl;
}

family_nobody_waits :
    (p : ℕ)
    → listed family.process_list p ≡ true
    → (family.process p).is_waiting ≡ true
    → WaitsForChild family p
family_nobody_waits p h w = absurd (ground arith)

family-IsSound : IsSound family 1
family-IsSound = record {
  core = family-core;
  no_null = refl;
  threads = λ p h ne. ground arith;
  numbers = λ p h. ground arith;
  parents = λ p h ne. ground arith;
  waits = family_nobody_waits;
}

abbrev state_of : Wait → System
state_of (blocks child (some (rsp, s))) = s
state_of other = family

-- The parent waits for the process with the number 1, and the child runs.
abbrev waiting : System
waiting = state_of (sys_waitpid family 1 0x2F00 0)

parent_waits : sys_waitpid family 1 0x2F00 0 ≡ blocks 2000 (some (0x2000, waiting))
unfolding sys_waitpid process_by_pid begin_wait yield_to schedule dispatch update lowest_from
    is_idle
parent_waits = refl

runs_child : waiting.cpu.current_thread ≡ 2
unfolding sys_waitpid process_by_pid begin_wait yield_to schedule dispatch update lowest_from
    is_idle
runs_child = refl

of_child : listed waiting.process_list (get_current_process waiting) ≡ true
unfolding sys_waitpid process_by_pid begin_wait yield_to schedule dispatch update lowest_from
    is_idle
of_child = refl

child_of_other :
    (waiting.process (get_current_process waiting)).parent ≢ get_current_process waiting
unfolding sys_waitpid process_by_pid begin_wait yield_to schedule dispatch update lowest_from
    is_idle
child_of_other e = omega (arith, e)

abbrev ended : Option (ℕ × System) → System
ended none = family
ended (some (rsp, s)) = s

abbrev left : System
left = ended (sys_exit waiting 42 0x1F00 0)

child_exits : sys_exit waiting 42 0x1F00 0 ≡ some (0x2F00, left)
unfolding sys_exit leave wake_parent make_ready die sys_waitpid process_by_pid begin_wait yield_to
    schedule dispatch update lowest_from is_idle
child_exits = refl

Steps-IsSound_example : IsSound left 1
Steps-IsSound_example = Steps-IsSound family-IsSound (
    step family waiting left
      (step family family waiting (start family) (
        waits family waiting 1 2000 0x2F00 0 0x2000 (λ e. omega (arith, e)) (λ e. omega (arith, e))
          refl parent_waits))
      (exits waiting left 42 0x1F00 0 0x2F00 (λ e. omega (arith, runs_child, e))
        (λ e. omega (arith, e)) of_child child_of_other child_exits))

-- In `told` the parent waits already, and the child runs.
abbrev told : System
told = record family {
  cpu = record core {
    thread = λ t.
        if t == 1
        then a_thread 1 state_ready 1000
        else if t == 2
        then a_thread 2 state_running 2000
        else if t == 3
        then a_thread 3 state_waiting 1000
        else a_thread 0 0 0;
    current_thread = 2;
  };
  process = λ p.
      if p == 1000
      then record (a_process 0 0 3) { is_waiting = true; wait_target_pid = 1 }
      else if p == 2000
      then a_process 1 1000 2
      else a_process 0 0 0;
}

told-core : IsValid told.cpu 1
unfolding is_idle
told-core = record {
  no_null = refl;
  current_listed = refl;
  one_running = λ t r. ground arith;
  idle_listed = refl;
  idle_named = refl;
  idle_awake = inl refl;
}

sys_exit_lem_example :
    (rsp : ℕ) × (t : System) × (sys_exit told 42 0x1F00 0 ≡ some (rsp, t))
    × IsValid t.cpu 1
    × Exited told 42 t
sys_exit_lem_example =
    sys_exit_lem told 42 1 0x1F00 0 told-core (λ e. omega (arith, e)) (λ e. omega (arith, e))
      (λ w e. omega (arith, e))
