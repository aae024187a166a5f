-- ===== src/Proc/Exit.antt =====
-- What an exit leaves, and what the parent is told.
use hvos.Common.{
  ℕ, ◌≡◌, refl, ap, ◌∙◌, ◌≢◌, ◌⊎◌, inl, inr, Bool, true, false, not, ◌&&◌, none, some, List, [],
  ◌∷◌, arith, ◌==◌, if◌then◌else◌, Bool-cases, Option-cases, ==→eq, ==-ne,
}
use hvos.Linked.Search.{first_of}
use hvos.Sched.{Thread, Cpu, state_ready, state_running, state_dead, update, schedule}
use hvos.Sched.Events.{die, Allowed-IsValid}
use hvos.Sched.Dispatch.{IsValid, Scheduled, schedule_lem}
use hvos.Proc.{
  System, get_current_process, process_by_pid, waits_for, make_ready, wake_parent, leave, yield_to,
  sys_exit, returns, sys_waitpid,
}

module _ (s : System) (code : ℕ) where
  leave-exit_code : ((leave s code).process (get_current_process s)).exit_code ≡ code
  unfolding leave wake_parent make_ready
  leave-exit_code = ground arith

  pub leave-is_waiting :
      (p : ℕ)
      → ((leave s code).process p).is_waiting ≡ (
          let cur = get_current_process s in
          if p == (s.process cur).parent && waits_for s cur
          then false
          else (s.process p).is_waiting)
  unfolding leave wake_parent make_ready
  leave-is_waiting p = ground arith

  -- What an exit changes of no process.
  pub leave-same :
      (p : ℕ)
      → let q = (leave s code).process p in
        (q.pid ≡ (s.process p).pid)
        × (q.parent ≡ (s.process p).parent)
        × (q.wait_target_pid ≡ (s.process p).wait_target_pid)
        × (q.primary ≡ (s.process p).primary)
        × (p ≢ get_current_process s → q.exit_code ≡ (s.process p).exit_code)
  unfolding leave wake_parent make_ready
  leave-same p = (ground arith, ground arith, ground arith, ground arith, λ ne. ground arith)

  pub leave-list : (leave s code).process_list ≡ s.process_list
  unfolding leave wake_parent make_ready
  leave-list = ground arith

  pub leave-next : (leave s code).next_pid ≡ s.next_pid
  unfolding leave wake_parent make_ready
  leave-next = ground arith

  pub leave-process : (t : ℕ) → ((leave s code).cpu.thread t).process ≡ (s.cpu.thread t).process
  unfolding leave wake_parent make_ready die update
  leave-process t = ground arith

  pub leave-thread :
      (t : ℕ)
      → (leave s code).cpu.thread t ≡ (
          let cur = get_current_process s in
          if waits_for s cur
            && not ((s.process (s.process cur).parent).primary == 0)
            && t == (s.process (s.process cur).parent).primary
          then record (s.cpu.thread t) { state = state_ready }
          else if t == s.cpu.current_thread
          then record (s.cpu.thread t) { state = state_dead }
          else s.cpu.thread t)
  unfolding leave wake_parent make_ready die update
  leave-thread t = ground arith

pub yield_to-some :
    (s : System) (c : Cpu) (rsp from rsp' : ℕ)
    → schedule s.cpu rsp from ≡ some (rsp', c)
    → yield_to s rsp from ≡ some (rsp', record s { cpu = c })
unfolding yield_to
yield_to-some s c rsp from rsp' h = ground (arith, h)

yield_to-none :
    (s : System) (rsp from : ℕ) → schedule s.cpu rsp from ≡ none → yield_to s rsp from ≡ none
unfolding yield_to
yield_to-none s rsp from h = ground (arith, h)

-- What a yield that returned has done.
pub yield_to-cases :
    (s t : System) (rsp from rsp' : ℕ)
    → yield_to s rsp from ≡ some (rsp', t)
    → (c : Cpu) × (schedule s.cpu rsp from ≡ some (rsp', c)) × (record s { cpu = c } ≡ t)
yield_to-cases s t rsp from rsp' h = elim (Option-cases (schedule s.cpu rsp from)) [
  | inl none_ ↦ absurd (ground (arith, yield_to-none s rsp from none_))
  | inr (r, e) ↦
      let runs = yield_to-some s r.1 rsp from r.0 e in
      let same : r.0 ≡ rsp' = ground arith in
      (r.1, e ∙ ap (λ (x : ℕ). some (x, r.1)) same, ground arith)
]

pub first_of-cong :
    (f g : ℕ → Bool) (ds : List ℕ) → ((d : ℕ) → f d ≡ g d) → first_of f ds ≡ first_of g ds
first_of-cong f g [] same = refl
first_of-cong f g (d ∷ ds) same = rw (same d, first_of-cong f g ds same) refl

-- Processes with the same numbers are found alike.
pub process_by_pid-cong :
    (s t : System) (pid : ℕ)
    → t.process_list ≡ s.process_list
    → ((p : ℕ) → (t.process p).pid ≡ (s.process p).pid)
    → process_by_pid t pid ≡ process_by_pid s pid
unfolding process_by_pid
process_by_pid-cong s t pid list same = rw list (
    first_of-cong (λ p. (t.process p).pid == pid) (λ p. (s.process p).pid == pid) s.process_list
      (λ p. rw (same p) refl))

-- What the current process of `s` has left behind in `t`, when it has exited with `code`.
pub record Exited (s : System) (code : ℕ) (t : System) : Type 0 where
  pub stored : (t.process (get_current_process s)).exit_code ≡ code
  pub gone : (t.cpu.thread s.cpu.current_thread).state ≡ state_dead
  pub yielded : t.cpu.current_thread ≢ s.cpu.current_thread
  pub told :
      waits_for s (get_current_process s) ≡ true
      → let parent = (s.process (get_current_process s)).parent in
        ((t.process parent).is_waiting ≡ false)
        × ((s.process parent).primary ≢ 0
            → ((t.cpu.thread (s.process parent).primary).state ≡ state_ready)
              ⊎ ((t.cpu.thread (s.process parent).primary).state ≡ state_running))
  pub untold :
      (p : ℕ)
      → (p ≢ (s.process (get_current_process s)).parent)
        ⊎ (waits_for s (get_current_process s) ≡ false)
      → (t.process p).is_waiting ≡ (s.process p).is_waiting
  pub others :
      (p : ℕ) → p ≢ get_current_process s → (t.process p).exit_code ≡ (s.process p).exit_code
  pub found :
      (pid rsp from : ℕ)
      → process_by_pid s pid ≡ get_current_process s
      → get_current_process s ≢ 0
      → (s.process (get_current_process s)).primary ≡ s.cpu.current_thread
      → sys_waitpid t pid rsp from ≡ returns code

module _ (s : System) (code idle rsp from : ℕ) (v : IsValid s.cpu idle)
    (busy : s.cpu.current_thread ≢ idle) (ne : from ≢ 1)
    (apart : waits_for s (get_current_process s) ≡ true
      → (s.process (s.process (get_current_process s)).parent).primary ≢ s.cpu.current_thread) where
  leave-core : (leave s code).cpu.thread_list ≡ s.cpu.thread_list
  unfolding leave wake_parent make_ready die update
  leave-core = ground arith

  leave-current : (leave s code).cpu.current_thread ≡ s.cpu.current_thread
  unfolding leave wake_parent make_ready die update
  leave-current = ground arith

  leave-dead : ((leave s code).cpu.thread s.cpu.current_thread).state ≡ state_dead
  leave-dead = elim (Bool-cases (waits_for s (get_current_process s))) [
    | inl w ↦ ground (arith, leave-thread s code s.cpu.current_thread, apart w)
    | inr w ↦ ground (arith, leave-thread s code s.cpu.current_thread)
  ]

  leave-IsValid : IsValid (leave s code).cpu idle
  leave-IsValid =
      Allowed-IsValid s.cpu (leave s code).cpu idle v leave-core leave-current
        (λ t. ground (arith, leave-thread s code t))

  module _ (rsp' : ℕ) (c : Cpu) (v' : IsValid c idle)
      (ran : Scheduled (leave s code).cpu rsp rsp' c) where
    abbrev after : System
    after = record (leave s code) { cpu = c }

    switched : c.current_thread ≢ s.cpu.current_thread
    switched e = ground (arith, ran.was, leave-dead, leave-current)

    stays_dead : (c.thread s.cpu.current_thread).state ≡ state_dead
    stays_dead = ground (arith, ran.put_back, leave-dead, leave-current, switched)

    current_alive : s.cpu.current_thread ≢ 0
    current_alive e = ground (arith, v.no_null, v.current_listed)

    woken_thread :
        waits_for s (get_current_process s) ≡ true
        → (s.process (s.process (get_current_process s)).parent).primary ≢ 0
        → let p = (s.process (s.process (get_current_process s)).parent).primary in
          ((c.thread p).state ≡ state_ready) ⊎ ((c.thread p).state ≡ state_running)
    woken_thread w there =
        let p = (s.process (s.process (get_current_process s)).parent).primary in
        elim (Bool-cases (p == c.current_thread)) [
          | inl runs ↦ inr (ap (λ t. (c.thread t).state) (==→eq p c.current_thread runs) ∙ ran.runs)
          | inr rests ↦
              let same : c.thread p ≡ (leave s code).cpu.thread p =
                ran.others p (λ e. apart w (e ∙ leave-current)) (λ e. ground arith) in
              let ready_ : ((leave s code).cpu.thread p).state ≡ state_ready =
                ground (arith, leave-thread s code p, there) in
              inl (ap (λ (t : Thread). t.state) same ∙ ready_)
        ]

    found_dead :
        (pid rsp from : ℕ)
        → process_by_pid s pid ≡ get_current_process s
        → get_current_process s ≢ 0
        → (s.process (get_current_process s)).primary ≡ s.cpu.current_thread
        → sys_waitpid after pid rsp from ≡ returns code
    unfolding sys_waitpid
    found_dead pid rsp from found there own =
        let same : process_by_pid after pid ≡ get_current_process s =
          process_by_pid-cong s after pid (leave-list s code) (λ p. (leave-same s code p).0)
          ∙ found in
        let thread_ : ((leave s code).process (get_current_process s)).primary
            ≡ s.cpu.current_thread =
          (leave-same s code (get_current_process s)).3 ∙ own in
        rw
          (
            same,
            thread_,
            ==-ne (get_current_process s) 0 there,
            ==-ne s.cpu.current_thread 0 current_alive,
            stays_dead,
          )
          (ap returns (leave-exit_code s code))

    exited : Exited s code after
    exited = record {
      stored = leave-exit_code s code;
      gone = stays_dead;
      yielded = switched;
      told = λ w. (
        ground (arith, leave-is_waiting s code (s.process (get_current_process s)).parent),
        λ there. woken_thread w there,
      );
      untold = λ p h. ground (arith, leave-is_waiting s code p);
      others = λ p other. (leave-same s code p).4 other;
      found = found_dead;
    }

  -- On a valid core, let the current process exit by a thread that is neither the idle thread nor
  -- that of a parent that waits for it, and let the second argument of `schedule`, which
  -- `kernel_yield` does not set, not be 1. `sys_exit` returns to another thread on a valid core;
  -- the code is stored and the thread is dead; if the parent waits for the process, it waits no
  -- longer and its thread is ready or runs; no other process is told, and no other exit code
  -- changes; and from now on `sys_waitpid` of the process returns the code at once, if its number
  -- leads to it and the thread was its primary one.
  pub sys_exit_lem :
      (rsp' : ℕ) × (t : System) × (sys_exit s code rsp from ≡ some (rsp', t))
      × IsValid t.cpu idle
      × Exited s code t
  unfolding sys_exit
  sys_exit_lem =
      let (rsp', c, e, v', ran) = schedule_lem (leave s code).cpu idle rsp from leave-IsValid ne in
      (
        rsp',
        record (leave s code) { cpu = c },
        yield_to-some (leave s code) c rsp from rsp' e,
        v',
        exited rsp' c v' ran,
      )
