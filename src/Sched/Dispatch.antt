-- ===== src/Sched/Dispatch.antt =====
-- `schedule`: who runs afterwards, and what the others keep.
use hvos.Common.{
  ℕ, ◌/◌, ◌≤◌, ◌<◌, ◌≡◌, refl, ◌≢◌, ◌⊎◌, inl, inr, true, false, ◌&&◌, some, arith, ◌==◌,
  if◌then◌else◌, Bool-cases, ==-ne, listed,
}
use hvos.Mem.Paging.Kernel.{copy_kernel_half-entry}
use hvos.Sched.{
  Cpu, state_ready, state_running, is_idle, update, get_lowest_runtime, root_of, dispatch, schedule,
}
use hvos.Sched.Pick.{ready, IsLowest, get_lowest_runtime-IsLowest}

-- The current thread is in the list, no thread but it is running, and the idle thread `idle` is
-- ready or running.
pub record IsValid (c : Cpu) (idle : ℕ) : Type 0 where
  pub no_null : listed c.thread_list 0 ≡ false
  pub current_listed : listed c.thread_list c.current_thread ≡ true
  pub one_running : (t : ℕ) → (c.thread t).state ≡ state_running → t ≡ c.current_thread
  pub idle_listed : listed c.thread_list idle ≡ true
  pub idle_named : is_idle (c.thread idle) ≡ true
  pub idle_awake : ((c.thread idle).state ≡ state_ready) ⊎ ((c.thread idle).state ≡ state_running)

-- What a call of `schedule` has done that returns `rsp`.
pub record Scheduled (c : Cpu) (old_rsp rsp : ℕ) (c' : Cpu) : Type 0 where
  pub saved : (c'.thread c.current_thread).k_rsp ≡ old_rsp
  pub resumed : rsp ≡ (c'.thread c'.current_thread).k_rsp
  pub runs : (c'.thread c'.current_thread).state ≡ state_running
  pub was :
      ((c.thread c'.current_thread).state ≡ state_ready)
      ⊎ ((c'.current_thread ≡ c.current_thread)
          × ((c.thread c.current_thread).state ≡ state_running))
  pub least :
      (t : ℕ)
      → listed c.thread_list t ≡ true
      → (c.thread t).state ≡ state_ready
      → (c.thread c'.current_thread).vruntime ≤ (c.thread t).vruntime
  pub put_back :
      c'.current_thread ≢ c.current_thread
      → (c'.thread c.current_thread).state ≡ (
          if (c.thread c.current_thread).state == state_running
          then state_ready
          else (c.thread c.current_thread).state)
  pub others : (t : ℕ) → t ≢ c.current_thread → t ≢ c'.current_thread → c'.thread t ≡ c.thread t
  pub queue : c'.sleeping_queue ≡ c.sleeping_queue
  pub threads : c'.thread_list ≡ c.thread_list
  pub tids : (t : ℕ) → (c'.thread t).tid ≡ (c.thread t).tid
  pub kernel_half :
      (i : ℕ)
      → 256 ≤ i
      → i < 512
      → c'.tables.entry (root_of c c'.current_thread / 4096) i
        ≡ c.tables.entry (root_of c c.current_thread / 4096) i

-- What `dispatch` leaves, field by field.
module _ (c : Cpu) (next : ℕ) where
  dispatch-current : (dispatch c next).1.current_thread ≡ next
  unfolding dispatch update
  dispatch-current = elim (Bool-cases (c.current_thread == next)) [
    | inl same ↦ rw same (ground arith)
    | inr other ↦ rw other
  ]

  dispatch-list : (dispatch c next).1.thread_list ≡ c.thread_list
  unfolding dispatch update
  dispatch-list = ground arith

  dispatch-queue : (dispatch c next).1.sleeping_queue ≡ c.sleeping_queue
  unfolding dispatch update
  dispatch-queue = ground arith

  dispatch-rsp : (dispatch c next).0 ≡ (c.thread next).k_rsp
  unfolding dispatch update
  dispatch-rsp = ground arith

  dispatch-thread :
      (t : ℕ)
      → (dispatch c next).1.thread t ≡ (
          if t == next
          then record (c.thread t) { state = state_running }
          else if t == c.current_thread && (c.thread t).state == state_running
          then record (c.thread t) { state = state_ready }
          else c.thread t)
  unfolding dispatch update
  dispatch-thread t = ground arith

  dispatch-half :
      (i : ℕ)
      → 256 ≤ i
      → i < 512
      → (dispatch c next).1.tables.entry (root_of c next / 4096) i
        ≡ c.tables.entry (root_of c c.current_thread / 4096) i
  unfolding dispatch update
  dispatch-half i lo hi = ground (
    arith,
    copy_kernel_half-entry c.tables (root_of c next / 4096) (root_of c c.current_thread / 4096)
        (root_of c next / 4096) i,
  )

abbrev with_rsp : Cpu → ℕ → Cpu
with_rsp c rsp = update c c.current_thread (λ t. record t { k_rsp = rsp })

module _ (c : Cpu) (idle old_rsp from : ℕ) (v : IsValid c idle) (yields : from ≢ 1) where
  abbrev before : Cpu
  before = with_rsp c old_rsp

  current_pos : c.current_thread ≢ 0
  current_pos e = ground (arith, v.no_null, v.current_listed)

  IsLowest-before : IsLowest before.thread c.thread_list (get_lowest_runtime before)
  unfolding update
  IsLowest-before = get_lowest_runtime-IsLowest before v.no_null

  module _ (found : get_lowest_runtime before ≢ 0)
      (there : listed c.thread_list (get_lowest_runtime before) ≡ true)
      (fit : ready before.thread (get_lowest_runtime before) ≡ true)
      (low : (t : ℕ)
        → listed c.thread_list t ≡ true
        → ready before.thread t ≡ true
        → (before.thread (get_lowest_runtime before)).vruntime ≤ (before.thread t).vruntime) where
    abbrev next : ℕ
    next = get_lowest_runtime before

    picks : schedule c old_rsp from ≡ some (dispatch before next)
    unfolding schedule
    picks = rw (==-ne from 1 yields, ==-ne c.current_thread 0 current_pos, ==-ne next 0 found)

    picked-IsValid : IsValid (dispatch before next).1 idle
    unfolding update is_idle
    picked-IsValid = record {
      no_null = rw (dispatch-list before next) v.no_null;
      current_listed = rw (dispatch-list before next, dispatch-current before next) there;
      one_running = λ t r.
          ground
            (arith, dispatch-current before next, dispatch-thread before next t, v.one_running t);
      idle_listed = rw (dispatch-list before next) v.idle_listed;
      idle_named = ground (arith, dispatch-thread before next idle, v.idle_named);
      idle_awake = ground (arith, dispatch-thread before next idle, v.idle_awake);
    }

    picked-Scheduled : Scheduled c old_rsp (dispatch before next).0 (dispatch before next).1
    unfolding update
    picked-Scheduled = record {
      saved = ground (arith, dispatch-thread before next c.current_thread);
      resumed = ground (
        arith,
        dispatch-current before next,
        dispatch-rsp before next,
        dispatch-thread before next next,
      );
      runs = ground (arith, dispatch-current before next, dispatch-thread before next next);
      was = inl (ground (arith, dispatch-current before next));
      least = λ t h r. ground (arith, dispatch-current before next, low t h);
      put_back = λ ne.
          ground
            (arith, dispatch-current before next, dispatch-thread before next c.current_thread);
      others = λ t a b. ground (arith, dispatch-current before next, dispatch-thread before next t);
      queue = dispatch-queue before next;
      threads = dispatch-list before next;
      tids = λ t. ground (arith, dispatch-thread before next t);
      kernel_half = λ i lo hi.
          ground (arith, dispatch-current before next, dispatch-half before next i lo hi);
    }

  module _ (null : get_lowest_runtime before ≡ 0)
      (no_ready : (t : ℕ) → listed c.thread_list t ≡ true → ready before.thread t ≡ false) where
    -- Then the idle thread is the one that runs.
    idle_runs : (idle ≡ c.current_thread) × ((c.thread idle).state ≡ state_running)
    unfolding update
    idle_runs = ground (arith, no_ready idle v.idle_listed, v.idle_awake, v.one_running idle)

    stays : schedule c old_rsp from ≡ some (old_rsp, before)
    unfolding schedule update is_idle
    stays = ground (arith, idle_runs, v.idle_named, current_pos)

    stays-IsValid : IsValid before idle
    unfolding update is_idle
    stays-IsValid = record {
      no_null = v.no_null;
      current_listed = v.current_listed;
      one_running = λ t r. ground (arith, v.one_running t);
      idle_listed = v.idle_listed;
      idle_named = ground (arith, v.idle_named);
      idle_awake = ground (arith, v.idle_awake);
    }

    stays-Scheduled : Scheduled c old_rsp old_rsp before
    unfolding update
    stays-Scheduled = record {
      saved = ground arith;
      resumed = ground arith;
      runs = ground (arith, idle_runs);
      was = inr (refl, ground (arith, idle_runs));
      least = λ t h r. ground (arith, no_ready t h);
      put_back = λ ne. absurd (ne refl);
      others = λ t a b. ground arith;
      queue = refl;
      threads = refl;
      tids = λ t. ground arith;
      kernel_half = λ i lo hi. refl;
    }

  -- On a valid core, with a second argument that is not 1 (with 1, which `kernel_yield` may leave
  -- in the register, it returns at once and does none of this), `schedule` never writes through
  -- NULL. Its result is valid again; it has saved the stack pointer of the thread that called, and
  -- returns that of the thread that is now current and running; no thread that was ready has run
  -- less than that one; a caller that was running is ready again if it does not go on, and in any
  -- other state it stays there; no other thread has changed; and the new address space has the
  -- kernel's half of the old one.
  pub schedule_lem :
      (rsp : ℕ) × (c' : Cpu) × (schedule c old_rsp from ≡ some (rsp, c'))
      × IsValid c' idle
      × Scheduled c old_rsp rsp c'
  schedule_lem = elim IsLowest-before [
    | inl (null, no_ready) ↦ (
      old_rsp,
      before,
      stays null no_ready,
      stays-IsValid null no_ready,
      stays-Scheduled null no_ready,
    )
    | inr (found, there, fit, low) ↦ (
      (dispatch before (get_lowest_runtime before)).0,
      (dispatch before (get_lowest_runtime before)).1,
      picks found there fit low,
      picked-IsValid found there fit low,
      picked-Scheduled found there fit low,
    )
  ]
