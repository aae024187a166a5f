-- ===== src/Sched/Events.antt =====
-- The calls of the scheduler in any order.
use hvos.Common.{
  ℕ, ◌-◌, ◌≡◌, refl, subst, ◌≢◌, ◌⊎◌, inl, inr, some, List, [], ◌∷◌, arith, ◌==◌, if◌then◌else◌,
  Bool-cases,
}
use hvos.Sched.{
  Cpu, DeltaQueueEntry, state_ready, state_running, state_waiting, state_dead, is_idle, update,
  schedule, update_curr_thread, notify_wait_channel, wake_tid, sleep_tick, update_sleeping_queue,
  fall_asleep, kusleep,
}
use hvos.Sched.Dispatch.{IsValid, Scheduled, schedule_lem}

-- `t->block_channel = channel; t->state = STATE_WAITING` for the current thread, as `console_read`
-- does before it yields.
unfoldable pub block_on : Cpu → ℕ → Cpu
block_on c channel =
    update c c.current_thread (λ t. record t { block_channel = channel; state = state_waiting })

-- `current_thread->state = STATE_DEAD`, as `sys_exit` does before it yields.
unfoldable pub die : Cpu → Cpu
die c = update c c.current_thread (λ t. record t { state = state_dead })

-- What the kernel does to the core. The idle thread yields, but never blocks.
pub data Step (idle : ℕ) : Cpu → Cpu → Type 0 where
  ticks : (c : Cpu) → Step idle c (update_sleeping_queue (update_curr_thread c))
  notifies : (c : Cpu) (channel : ℕ) → Step idle c (notify_wait_channel c channel)
  yields :
      (c c' : Cpu) (rsp from rsp' : ℕ)
      → from ≢ 1
      → schedule c rsp from ≡ some (rsp', c')
      → Step idle c c'
  waits :
      (c c' : Cpu) (channel rsp from rsp' : ℕ)
      → c.current_thread ≢ idle
      → from ≢ 1
      → schedule (block_on c channel) rsp from ≡ some (rsp', c')
      → Step idle c c'
  sleeps :
      (c c' : Cpu) (ms rsp from rsp' : ℕ)
      → c.current_thread ≢ idle
      → from ≢ 1
      → kusleep c ms rsp from ≡ some (rsp', c')
      → Step idle c c'
  exits :
      (c c' : Cpu) (rsp from rsp' : ℕ)
      → c.current_thread ≢ idle
      → from ≢ 1
      → schedule (die c) rsp from ≡ some (rsp', c')
      → Step idle c c'

pub data Steps (idle : ℕ) : Cpu → Cpu → Type 0 where
  start : (c : Cpu) → Steps idle c c
  step : (c d e : Cpu) → Steps idle c d → Step idle d e → Steps idle c e

-- What a write may do to the state of a thread: leave it, make it ready, or block the current one.
abbrev pub Allowed : Cpu → ℕ → Cpu → ℕ → Type 0
Allowed c idle c' t =
    ((c'.thread t).name ≡ (c.thread t).name)
    × (((c'.thread t).state ≡ (c.thread t).state)
        ⊎ ((c'.thread t).state ≡ state_ready)
        ⊎ ((t ≢ idle) × ((c'.thread t).state ≢ state_running)))

pub Allowed-IsValid :
    (c c' : Cpu) (idle : ℕ)
    → IsValid c idle
    → c'.thread_list ≡ c.thread_list
    → c'.current_thread ≡ c.current_thread
    → ((t : ℕ) → Allowed c idle c' t)
    → IsValid c' idle
unfolding is_idle
Allowed-IsValid c c' idle v l n a = record {
  no_null = rw l v.no_null;
  current_listed = rw (l, n) v.current_listed;
  one_running = λ t r. ground (arith, a t, v.one_running t, n);
  idle_listed = rw l v.idle_listed;
  idle_named = rw ((a idle).0) v.idle_named;
  idle_awake = ground (arith, a idle, v.idle_awake);
}

module _ (c : Cpu) (idle : ℕ) (v : IsValid c idle) where
  update_curr_thread-IsValid : IsValid (update_curr_thread c) idle
  unfolding update_curr_thread update
  update_curr_thread-IsValid =
      Allowed-IsValid c (update_curr_thread c) idle v (ground arith) (ground arith)
        (λ t. ground arith)

  notify-IsValid : (channel : ℕ) → IsValid (notify_wait_channel c channel) idle
  unfolding notify_wait_channel update
  notify-IsValid channel =
      Allowed-IsValid c (notify_wait_channel c channel) idle v (ground arith) (ground arith)
        (λ t. ground arith)

  block_on-IsValid : (channel : ℕ) → c.current_thread ≢ idle → IsValid (block_on c channel) idle
  unfolding block_on update
  block_on-IsValid channel busy =
      Allowed-IsValid c (block_on c channel) idle v refl refl (λ t. ground arith)

  die-IsValid : c.current_thread ≢ idle → IsValid (die c) idle
  unfolding die update
  die-IsValid busy = Allowed-IsValid c (die c) idle v refl refl (λ t. ground arith)

  pub fall_asleep-IsValid : (ms : ℕ) → c.current_thread ≢ idle → IsValid (fall_asleep c ms) idle
  unfolding fall_asleep update
  fall_asleep-IsValid ms busy =
      Allowed-IsValid c (fall_asleep c ms) idle v refl refl (λ t. ground arith)

  queue-IsValid : (q : List DeltaQueueEntry) → IsValid (record c { sleeping_queue = q }) idle
  queue-IsValid q =
      Allowed-IsValid c (record c { sleeping_queue = q }) idle v refl refl (λ t. ground arith)

wake_tid-IsValid :
    (ts : List ℕ) (c : Cpu) (idle tid : ℕ) → IsValid c idle → IsValid (wake_tid c ts tid) idle
unfolding wake_tid update
wake_tid-IsValid [] c idle tid v = v
wake_tid-IsValid (t ∷ ts) c idle tid v =
    wake_tid-IsValid ts
      (if (c.thread t).tid == tid then update c t (λ t. record t { state = state_ready }) else c)
      idle tid (Allowed-IsValid c _ idle v (ground arith) (ground arith) (λ u. ground arith))

sleep_tick-IsValid :
    (c : Cpu) (idle : ℕ) (q : List DeltaQueueEntry) → IsValid c idle → IsValid (sleep_tick c q) idle
unfolding sleep_tick
sleep_tick-IsValid c idle [] v = v
sleep_tick-IsValid c idle (top ∷ rest) v = elim (Bool-cases (top.delta == 0)) [
  | inl due ↦ rw due (
      queue-IsValid (wake_tid c c.thread_list top.delta_tid) idle
        (wake_tid-IsValid c.thread_list c idle top.delta_tid v) rest)
  | inr later ↦ rw later (queue-IsValid c idle v (record top { delta = top.delta - 1 } ∷ rest))
]

-- A call of `schedule` that returned, on a valid core.
returned :
    (c c' : Cpu) (idle rsp from rsp' : ℕ)
    → IsValid c idle
    → from ≢ 1
    → schedule c rsp from ≡ some (rsp', c')
    → IsValid c' idle
returned c c' idle rsp from rsp' v ne e =
    let (r, d, f, valid, done) = schedule_lem c idle rsp from v ne in
    let same : d ≡ c' = ground arith in subst (λ x. IsValid x idle) same valid

pub Step-IsValid : {idle : ℕ} {c c' : Cpu} → Step idle c c' → IsValid c idle → IsValid c' idle
Step-IsValid {idle} (ticks c) v = sleep_tick-IsValid _ idle _ (update_curr_thread-IsValid c idle v)
Step-IsValid {idle} (notifies c channel) v = notify-IsValid c idle v channel
Step-IsValid {idle} (yields c c' rsp from rsp' ne e) v = returned c c' idle rsp from rsp' v ne e
Step-IsValid {idle} (waits c c' channel rsp from rsp' busy ne e) v =
    returned (block_on c channel) c' idle rsp from rsp' (block_on-IsValid c idle v channel busy) ne
      e
Step-IsValid {idle} (sleeps c c' ms rsp from rsp' busy ne e) v =
    returned (fall_asleep c ms) c' idle rsp from rsp' (fall_asleep-IsValid c idle v ms busy) ne e
Step-IsValid {idle} (exits c c' rsp from rsp' busy ne e) v =
    returned (die c) c' idle rsp from rsp' (die-IsValid c idle v busy) ne e

Steps-IsValid : {idle : ℕ} {c c' : Cpu} → Steps idle c c' → IsValid c idle → IsValid c' idle
Steps-IsValid (start c) v = v
Steps-IsValid (step c d e before last) v = Step-IsValid last (Steps-IsValid before v)

-- From a valid core, after any ticks of the timer, wake-ups, yields, waits, sleeps and exits of
-- threads in any order, of which the idle thread only yields, and where no call of `schedule` finds
-- 1 as its second argument, which `kernel_yield` does not set: the core is valid, so that at most
-- the current thread is running; and the next yield, if it does not find 1 there either, returns and
-- leaves a running thread that has not run more than any that was ready.
pub Steps-schedule :
    {idle : ℕ} (c c' : Cpu) (rsp from : ℕ)
    → IsValid c idle
    → Steps idle c c'
    → from ≢ 1
    → IsValid c' idle
      × ((rsp' : ℕ) × (d : Cpu) × (schedule c' rsp from ≡ some (rsp', d))
          × IsValid d idle
          × Scheduled c' rsp rsp' d)
Steps-schedule {idle} c c' rsp from v s ne =
    let v' = Steps-IsValid s v in (v', schedule_lem c' idle rsp from v' ne)
