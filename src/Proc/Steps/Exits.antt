-- ===== src/Proc/Steps/Exits.antt =====
-- An exit keeps the system sound.
use hvos.Common.{
  ℕ, ◌≡◌, refl, sym, ap, subst, ◌∙◌, ◌≢◌, ◌⊎◌, inl, inr, true, false, some, arith, ◌==◌, Bool-cases,
  ==→eq, ==-ne, ==_refl, listed,
}
use hvos.Sched.{Cpu, state_dead}
use hvos.Sched.Dispatch.{IsValid}
use hvos.Proc.{System, get_current_process, waits_for, leave, sys_exit}
use hvos.Proc.Core.{Kept, schedule-Kept}
use hvos.Proc.Exit.{
  sys_exit_lem, leave-same, leave-is_waiting, leave-list, leave-thread, leave-next, leave-process,
  yield_to-cases,
}
use hvos.Proc.Steps.{
  WaitsForChild, WaitsForChild-same, IsSound, process_by_pid-cases, SameFamily, SameFamily-IsSound,
}

module _ {s : System} {idle : ℕ} (code : ℕ) (sound : IsSound s idle)
    (listed_ : listed s.process_list (get_current_process s) ≡ true)
    (other : (s.process (get_current_process s)).parent ≢ get_current_process s) where
  abbrev cur : ℕ
  cur = get_current_process s

  current_there : s.cpu.current_thread ≢ 0
  current_there e = ground (arith, sound.core.no_null, sound.core.current_listed)

  -- The thread of a listed process is not the current one, unless the process is.
  owner :
      (p : ℕ)
      → listed s.process_list p ≡ true
      → (s.process p).primary ≡ s.cpu.current_thread
      → p ≡ cur
  owner p h e =
      sym (sound.threads p h (λ z. current_there (sym e ∙ z)))
      ∙ ap (λ t. (s.cpu.thread t).process) e

  parent_apart :
      waits_for s cur ≡ true → (s.process (s.process cur).parent).primary ≢ s.cpu.current_thread
  parent_apart w e =
      other (owner (s.process cur).parent (sound.parents cur listed_ (λ z. ground arith)) e)

  -- Who waits for the current process is told of its exit.
  told :
      {p : ℕ}
      → (s.process cur).parent ≡ p
      → (s.process cur).pid ≡ (s.process p).wait_target_pid
      → (s.process p).is_waiting ≡ true
      → p ≢ 0
      → waits_for s cur ≡ true
  told {p} its number waited ne =
      rw (its, waited, number, ==-ne p 0 ne, ==_refl (s.process p).wait_target_pid) refl

  module _ {t : System} {c : Cpu} (kept : Kept (leave s code).cpu c)
      (same : record (leave s code) { cpu = c } ≡ t) where
    exit-SameFamily : SameFamily s t
    exit-SameFamily = subst (SameFamily s) same (record {
      list = leave-list s code;
      next = leave-next s code;
      pids = λ p. (leave-same s code p).0;
      parents = λ p. (leave-same s code p).1;
      primaries = λ p. (leave-same s code p).3;
      processes = λ u. (kept u).0 ∙ leave-process s code u;
    })

    -- A process that still waits does not wait for the one that exits.
    not_told :
        (p : ℕ)
        → ((leave s code).process p).is_waiting ≡ true
        → ((s.process p).is_waiting ≡ true)
          × ((p ≢ (s.process cur).parent) ⊎ (waits_for s cur ≡ false))
    not_told p h = (
      ground (arith, leave-is_waiting s code p),
      elim (Bool-cases (waits_for s cur)) [
        | inr none_ ↦ inr none_
        | inl w ↦ inl (λ e. ground (arith, leave-is_waiting s code p, w))
      ],
    )

    lives :
        (p : ℕ)
        → listed s.process_list p ≡ true
        → (s.process p).is_waiting ≡ true
        → (p ≢ (s.process cur).parent) ⊎ (waits_for s cur ≡ false)
        → (w : WaitsForChild s p) → (c.thread (s.process w.child).primary).state ≢ state_dead
    lives p h waited untold w z =
        let thread_ = (s.process w.child).primary in
        let found =
          process_by_pid-cases s (s.process p).wait_target_pid (λ e. w.there (sym w.found ∙ e)) in
        let child_listed : listed s.process_list w.child ≡ true =
          subst (λ q. listed s.process_list q ≡ true) w.found found.0 in
        let child_pid : (s.process w.child).pid ≡ (s.process p).wait_target_pid =
          subst (λ q. (s.process q).pid ≡ (s.process p).wait_target_pid) w.found found.1 in
        let dead = (kept thread_).1 z in
        elim (Bool-cases (thread_ == s.cpu.current_thread)) [
          | inr other_ ↦ w.alive (ground (arith, leave-thread s code thread_))
          | inl this ↦
              let is_cur = owner w.child child_listed (==→eq thread_ s.cpu.current_thread this) in
              let its : (s.process cur).parent ≡ p =
                ap (λ q. (s.process q).parent) (sym is_cur) ∙ w.own in
              let number : (s.process cur).pid ≡ (s.process p).wait_target_pid =
                ap (λ q. (s.process q).pid) (sym is_cur) ∙ child_pid in
              elim untold [
                | inl none_ ↦ none_ (sym its)
                | inr none_ ↦
                    absurd
                      (ground (arith, told its number waited (λ e. ground (arith, sound.no_null))))
              ]
        ]

    exit-waits :
        (p : ℕ)
        → listed s.process_list p ≡ true
        → (t.process p).is_waiting ≡ true
        → WaitsForChild t p
    exit-waits p h w =
        let still = subst (λ (u : System). (u.process p).is_waiting ≡ true) (sym same) w in
        let (waited, untold) = not_told p still in
        let before = sound.waits p h waited in
        WaitsForChild-same exit-SameFamily
          (subst (λ (u : System). (u.process p).wait_target_pid ≡ (s.process p).wait_target_pid)
            same ((leave-same s code p).2))
          before
          (subst
            (λ (u : System). (u.cpu.thread (s.process before.child).primary).state ≢ state_dead)
            same (lives p h waited untold before))

  pub exit-IsSound :
      {t : System} (rsp from rsp' : ℕ)
      → s.cpu.current_thread ≢ idle
      → from ≢ 1
      → sys_exit s code rsp from ≡ some (rsp', t)
      → IsSound t idle
  unfolding sys_exit
  exit-IsSound {t} rsp from rsp' busy ne h =
      let (r, u, e, v, done) = sys_exit_lem s code idle rsp from sound.core busy ne parent_apart in
      let same_end : u ≡ t = ground arith in
      let (c, ran, same) = yield_to-cases (leave s code) t rsp from rsp' h in
      let kept = schedule-Kept (leave s code).cpu c rsp from rsp' ran in
      SameFamily-IsSound sound (exit-SameFamily kept same)
        (subst (λ (x : System). IsValid x.cpu idle) same_end v) (exit-waits kept same)
