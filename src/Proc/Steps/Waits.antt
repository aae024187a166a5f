-- ===== src/Proc/Steps/Waits.antt =====
-- A wait, and the steps of the scheduler, keep the system sound.
use hvos.Common.{
  ℕ, ◌≡◌, refl, sym, ap, subst, ◌∙◌, ◌≢◌, inl, inr, true, Option, some, arith, ◌==◌, Bool-cases,
  ==→eq, listed,
}
use hvos.Sched.{Cpu, state_dead, update}
use hvos.Sched.Dispatch.{IsValid, schedule_lem}
use hvos.Sched.Events
use hvos.Sched.Events.{Allowed-IsValid, Step-IsValid}
use hvos.Proc.{
  System, get_current_process, process_by_pid, yield_to, blocks, begin_wait, sys_waitpid,
}
use hvos.Proc.Core.{Kept, NoExit, Step-Kept, schedule-Kept}
use hvos.Proc.Exit.{process_by_pid-cong, yield_to-cases}
use hvos.Proc.Steps.{WaitsForChild, WaitsForChild-same, IsSound, SameFamily, SameFamily-IsSound}

pub run-IsSound :
    {s : System} {idle : ℕ} (c : Cpu) (st : Events.Step idle s.cpu c)
    → NoExit st
    → IsSound s idle
    → IsSound (record s { cpu = c }) idle
run-IsSound {s} {idle} c st ok sound =
    let kept = Step-Kept st ok in
    let same : SameFamily s (record s { cpu = c }) = record {
      list = refl;
      next = refl;
      pids = λ p. refl;
      parents = λ p. refl;
      primaries = λ p. refl;
      processes = λ u. (kept u).0;
    } in
    SameFamily-IsSound sound same (Step-IsValid st sound.core) (λ p h w.
      let before = sound.waits p h w in
      WaitsForChild-same same refl before
        (λ z. before.alive ((kept (s.process before.child).primary).1 z)))

-- When `sys_waitpid` blocks, there is the process, and its thread has not died.
sys_waitpid-blocks :
    (s : System) (pid child rsp from : ℕ) (o : Option (ℕ × System))
    → sys_waitpid s pid rsp from ≡ blocks child o
    → (process_by_pid s pid ≡ child)
      × (child ≢ 0)
      × ((s.process child).primary ≢ 0)
      × ((s.cpu.thread (s.process child).primary).state ≢ state_dead)
      × (yield_to (begin_wait s pid) rsp from ≡ o)
unfolding sys_waitpid
sys_waitpid-blocks s pid child rsp from o h =
    let d = process_by_pid s pid in
    elim (Bool-cases (d == 0)) [
      | inl unknown ↦ absurd (ground arith)
      | inr known ↦ elim (Bool-cases ((s.process d).primary == 0)) [
        | inl no_thread ↦ absurd (ground arith)
        | inr thread_ ↦
            elim (Bool-cases ((s.cpu.thread (s.process d).primary).state == state_dead)) [
              | inl dead ↦ absurd (ground arith)
              | inr lives ↦
                  let bound : blocks d (yield_to (begin_wait s pid) rsp from) ≡ blocks child o =
                    rw (known, thread_, lives) at h in
                  let is : d ≡ child = ground arith in
                  (
                    is,
                    subst (λ q. q ≢ 0) is (λ e. absurd (ground arith)),
                    subst (λ q. (s.process q).primary ≢ 0) is (λ e. absurd (ground arith)),
                    subst (λ q. (s.cpu.thread (s.process q).primary).state ≢ state_dead) is
                        (λ e. absurd (ground arith)),
                    ground arith,
                  )
            ]
      ]
    ]

module _ {s : System} {idle : ℕ} (pid child : ℕ) (sound : IsSound s idle)
    (found : process_by_pid s pid ≡ child) (there : child ≢ 0)
    (own : (s.process child).parent ≡ get_current_process s)
    (thread_there : (s.process child).primary ≢ 0)
    (alive : (s.cpu.thread (s.process child).primary).state ≢ state_dead) where
  begin_wait-IsValid : s.cpu.current_thread ≢ idle → IsValid (begin_wait s pid).cpu idle
  unfolding begin_wait update
  begin_wait-IsValid busy =
      Allowed-IsValid s.cpu (begin_wait s pid).cpu idle sound.core refl refl (λ t. ground arith)

  begin_wait-SameFamily : SameFamily s (begin_wait s pid)
  unfolding begin_wait update
  begin_wait-SameFamily = record {
    list = refl;
    next = refl;
    pids = λ p. ground arith;
    parents = λ p. ground arith;
    primaries = λ p. ground arith;
    processes = λ u. ground arith;
  }

  begin_wait-alive :
      (t : ℕ)
      → ((begin_wait s pid).cpu.thread t).state ≡ state_dead
      → (s.cpu.thread t).state ≡ state_dead
  unfolding begin_wait update
  begin_wait-alive t h = ground arith

  begin_wait-target :
      (p : ℕ)
      → p ≢ get_current_process s
      → (((begin_wait s pid).process p).is_waiting ≡ (s.process p).is_waiting)
        × (((begin_wait s pid).process p).wait_target_pid ≡ (s.process p).wait_target_pid)
  unfolding begin_wait
  begin_wait-target p ne = (ground arith, ground arith)

  begin_wait-pid : ((begin_wait s pid).process (get_current_process s)).wait_target_pid ≡ pid
  unfolding begin_wait
  begin_wait-pid = ground arith

  module _ {t : System} {c : Cpu} (kept : Kept (begin_wait s pid).cpu c)
      (same : record (begin_wait s pid) { cpu = c } ≡ t) where
    abbrev waiting : System
    waiting = record (begin_wait s pid) { cpu = c }

    waiting-SameFamily : SameFamily s waiting
    waiting-SameFamily = record {
      list = begin_wait-SameFamily.list;
      next = begin_wait-SameFamily.next;
      pids = begin_wait-SameFamily.pids;
      parents = begin_wait-SameFamily.parents;
      primaries = begin_wait-SameFamily.primaries;
      processes = λ u. (kept u).0 ∙ begin_wait-SameFamily.processes u;
    }

    wait-waits :
        (p : ℕ)
        → listed s.process_list p ≡ true
        → (waiting.process p).is_waiting ≡ true
        → WaitsForChild waiting p
    wait-waits p h w = elim (Bool-cases (p == get_current_process s)) [
      | inr other ↦
          let (was, target) = begin_wait-target p (λ e. ground arith) in
          let before = sound.waits p h (sym was ∙ w) in
          WaitsForChild-same waiting-SameFamily target before (λ z. before.alive (
            begin_wait-alive (s.process before.child).primary
              ((kept (s.process before.child).primary).1 z)))
      | inl this ↦
          let is_cur = ==→eq p (get_current_process s) this in
          record {
            child = child;
            found =
                ap (λ q. process_by_pid waiting (waiting.process q).wait_target_pid) is_cur
                ∙ ap (process_by_pid waiting) begin_wait-pid
                ∙ process_by_pid-cong s waiting pid waiting-SameFamily.list waiting-SameFamily.pids
                ∙ found;
            there = there;
            own = waiting-SameFamily.parents child ∙ own ∙ sym is_cur;
            thread_there = λ e. thread_there (sym (waiting-SameFamily.primaries child) ∙ e);
            alive = λ z. alive (
                begin_wait-alive (s.process child).primary (
                  (kept (s.process child).primary).1
                    (ap (λ q. (c.thread q).state) (sym (waiting-SameFamily.primaries child)) ∙ z)));
          }
    ]

pub wait-IsSound :
    {s t : System} {idle : ℕ} (pid child rsp from rsp' : ℕ)
    → IsSound s idle
    → s.cpu.current_thread ≢ idle
    → from ≢ 1
    → (s.process child).parent ≡ get_current_process s
    → sys_waitpid s pid rsp from ≡ blocks child (some (rsp', t))
    → IsSound t idle
wait-IsSound {s} {t} {idle} pid child rsp from rsp' sound busy ne own h =
    let (found, there, thread_there, alive, goes) =
      sys_waitpid-blocks s pid child rsp from (some (rsp', t)) h in
    let (c, ran, same) = yield_to-cases (begin_wait s pid) t rsp from rsp' goes in
    let kept = schedule-Kept (begin_wait s pid).cpu c rsp from rsp' ran in
    let (r, d, e, v, done) =
      schedule_lem (begin_wait s pid).cpu idle rsp from
        (begin_wait-IsValid pid child sound found there own thread_there alive busy) ne in
    let core_ : d ≡ c = ground arith in
    subst (λ (u : System). IsSound u idle) same
      (SameFamily-IsSound sound
        (waiting-SameFamily pid child sound found there own thread_there alive kept same)
        (subst (λ (x : Cpu). IsValid x idle) core_ v)
        (wait-waits pid child sound found there own thread_there alive kept same))
