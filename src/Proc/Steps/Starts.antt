-- ===== src/Proc/Steps/Starts.antt =====
-- A new process keeps the system sound.
use hvos.Common.{
  ℕ, ◌+◌, ◌^◌, ◌<◌, ◌≡◌, refl, sym, ap, subst, ◌∙◌, ◌≢◌, ◌⊎◌, inl, inr, Bool, true, false, Option,
  some, List, [], ◌∷◌, arith, ◌==◌, if◌then◌else◌, Bool-cases, ==→eq, ==-ne, ==_refl, u64, listed,
}
use hvos.Linked.Search.{first_of}
use hvos.Sched.{Thread, state_ready, is_idle, update}
use hvos.Sched.Dispatch.{IsValid}
use hvos.Proc.{
  Process, System, get_current_process, update_process, process_by_pid, new_elf_thread, new_process,
  enlist, new_elf_process, adopt_process, usr_stack_base, usr_heap_base,
}
use hvos.Proc.Steps.{WaitsForChild, IsSound, process_by_pid-cases}

-- The state after a start.
unfoldable pub born : System → ℕ → ℕ → List ℕ → ℕ → ℕ → ℕ → System
born s p th console entry kstack pml4 =
    let s' =
      enlist (new_elf_thread (new_process s p console) th entry usr_stack_base kstack) p th in
    update_process
      (record s' { cpu = record s'.cpu { cr3_of = λ q. if q == p then pml4 else s'.cpu.cr3_of q } })
      p (λ q. record q { heap_end = usr_heap_base; parent = get_current_process s' })

pub adopt_process-some :
    (s t : System) (p th : ℕ) (console : List ℕ) (entry kstack pml4 proc : ℕ)
    → adopt_process s p th console entry kstack pml4 ≡ some (proc, t)
    → (p ≢ 0) × (th ≢ 0) × (proc ≡ p) × (born s p th console entry kstack pml4 ≡ t)
unfolding adopt_process new_elf_process born
adopt_process-some s t p th console entry kstack pml4 proc h = elim (Bool-cases (p == 0)) [
  | inl null ↦ absurd (ground arith)
  | inr there ↦ elim (Bool-cases (th == 0)) [
    | inl null ↦ absurd (ground arith)
    | inr thread_ ↦
        let ne : p ≢ 0 = λ e. absurd (ground arith) in
        let bound : ◌≡◌ {A = Option (ℕ × System)} (some (p, born s p th console entry kstack pml4))
            (some (proc, t)) =
          rw (there, thread_, there) at h in
        (ne, (λ e. absurd (ground arith)), ground arith, ground arith)
  ]
]

module _ (s : System) (p th : ℕ) (console : List ℕ) (entry kstack pml4 : ℕ) where
  abbrev after : System
  after = born s p th console entry kstack pml4

  born-process :
      (q : ℕ)
      → th ≢ s.cpu.current_thread
      → (q ≡ p
          → ((after.process q).pid ≡ s.next_pid)
            × ((after.process q).parent ≡ get_current_process s)
            × ((after.process q).is_waiting ≡ false)
            × ((after.process q).primary ≡ th))
        × (q ≢ p → after.process q ≡ s.process q)
  unfolding born enlist new_elf_thread new_process update
  born-process q ne =
      (λ e. (ground arith, ground arith, ground arith, ground arith), λ e. ground arith)

  born-thread :
      (u : ℕ)
      → (u ≡ th → ((after.cpu.thread u).state ≡ state_ready) × ((after.cpu.thread u).process ≡ p))
        × (u ≢ th → after.cpu.thread u ≡ s.cpu.thread u)
  unfolding born enlist new_elf_thread new_process update
  born-thread u = (λ e. (ground arith, ground arith), λ e. ground arith)

  born-lists :
      (after.process_list ≡ p ∷ s.process_list)
      × (after.cpu.thread_list ≡ th ∷ s.cpu.thread_list)
      × (after.cpu.current_thread ≡ s.cpu.current_thread)
      × (after.next_pid ≡ u64 (s.next_pid + 1))
  unfolding born enlist new_elf_thread new_process update
  born-lists = (refl, refl, refl, refl)

first_of-listed :
    (f g : ℕ → Bool) (ds : List ℕ)
    → ((d : ℕ) → listed ds d ≡ true → f d ≡ g d)
    → first_of f ds ≡ first_of g ds
first_of-listed f g [] same = refl
first_of-listed f g (d ∷ ds) same =
    rw (same d (rw (==_refl d) refl), first_of-listed f g ds (λ e h. same e (ground arith))) refl

module _ {s : System} {idle : ℕ} (p th : ℕ) (console : List ℕ) (entry kstack pml4 : ℕ)
    (sound : IsSound s idle) (p_there : p ≢ 0) (th_there : th ≢ 0)
    (p_new : listed s.process_list p ≡ false) (th_new : listed s.cpu.thread_list th ≡ false)
    (unowned : (q : ℕ) → listed s.process_list q ≡ true → (s.process q).primary ≢ th)
    (cur_listed : listed s.process_list (get_current_process s) ≡ true)
    (few : s.next_pid + 1 < 2 ^ 64) where
  abbrev t : System
  t = born s p th console entry kstack pml4

  list_is : t.process_list ≡ p ∷ s.process_list
  list_is = (born-lists s p th console entry kstack pml4).0

  threads_are : t.cpu.thread_list ≡ th ∷ s.cpu.thread_list
  threads_are = (born-lists s p th console entry kstack pml4).1

  current_is : t.cpu.current_thread ≡ s.cpu.current_thread
  current_is = (born-lists s p th console entry kstack pml4).2

  next_is : t.next_pid ≡ u64 (s.next_pid + 1)
  next_is = (born-lists s p th console entry kstack pml4).3

  new_thread : ((t.cpu.thread th).state ≡ state_ready) × ((t.cpu.thread th).process ≡ p)
  new_thread = (born-thread s p th console entry kstack pml4 th).0 refl

  th_other : th ≢ s.cpu.current_thread
  th_other e = ground (arith, sound.core.current_listed, th_new)

  here :
      ((t.process p).pid ≡ s.next_pid)
      × ((t.process p).parent ≡ get_current_process s)
      × ((t.process p).is_waiting ≡ false)
      × ((t.process p).primary ≡ th)
  here = (born-process s p th console entry kstack pml4 p th_other).0 refl

  old : (q : ℕ) → listed s.process_list q ≡ true → t.process q ≡ s.process q
  old q h =
      (born-process s p th console entry kstack pml4 q th_other).1 (λ e. ground (arith, p_new))

  old_thread : (u : ℕ) → u ≢ th → t.cpu.thread u ≡ s.cpu.thread u
  old_thread u = (born-thread s p th console entry kstack pml4 u).1

  -- A listed process is the new one or was there.
  listed-cases :
      (q : ℕ) → listed t.process_list q ≡ true → (q ≡ p) ⊎ (listed s.process_list q ≡ true)
  listed-cases q h = elim (Bool-cases (p == q)) [
    | inl this ↦ inl (sym (==→eq p q this))
    | inr other ↦ inr (ground (arith, ap (λ (l : List ℕ). listed l q) list_is))
  ]

  still_listed : (q : ℕ) → listed s.process_list q ≡ true → listed t.process_list q ≡ true
  still_listed q h = rw list_is (ground arith)

  idle_same : t.cpu.thread idle ≡ s.cpu.thread idle
  idle_same = old_thread idle (λ e. ground (arith, sound.core.idle_listed, th_new))

  born-IsValid : IsValid t.cpu idle
  born-IsValid = record {
    no_null = rw threads_are (ground (arith, sound.core.no_null));
    current_listed = rw (threads_are, current_is) (ground (arith, sound.core.current_listed));
    one_running = λ u r. elim (Bool-cases (u == th)) [
      | inl this ↦ absurd (
          ground (
            arith,
            ==→eq u th this,
            ap (λ v. (t.cpu.thread v).state) (==→eq u th this),
            new_thread,
          ))
      | inr other ↦
          let same = old_thread u (λ e. ground arith) in
          sound.core.one_running u (sym (ap (λ (v : Thread). v.state) same) ∙ r) ∙ sym current_is
    ];
    idle_listed = rw threads_are (ground (arith, sound.core.idle_listed));
    idle_named = ap is_idle idle_same ∙ sound.core.idle_named;
    idle_awake = rw idle_same sound.core.idle_awake;
  }

  born-found : (pid : ℕ) → process_by_pid s pid ≢ 0 → process_by_pid t pid ≡ process_by_pid s pid
  unfolding process_by_pid
  born-found pid ne =
      let found = process_by_pid-cases s pid ne in
      let number = sound.numbers (process_by_pid s pid) found.0 in
      let other : (t.process p).pid == pid ≡ false =
        ==-ne (t.process p).pid pid (λ e. omega (arith, number, found.1, here.0, e)) in
      rw (list_is, other)
        (first_of-listed (λ q. (t.process q).pid == pid) (λ q. (s.process q).pid == pid)
          s.process_list (λ q h. ap (λ (r : Process). r.pid == pid) (old q h)))

  born-waits :
      (q : ℕ) → listed s.process_list q ≡ true → (t.process q).is_waiting ≡ true → WaitsForChild t q
  born-waits q h w =
      let before = sound.waits q h (sym (ap (λ (r : Process). r.is_waiting) (old q h)) ∙ w) in
      let found =
        process_by_pid-cases s (s.process q).wait_target_pid
          (λ e. before.there (sym before.found ∙ e)) in
      let child_listed : listed s.process_list before.child ≡ true =
        subst (λ r. listed s.process_list r ≡ true) before.found found.0 in
      let same = old before.child child_listed in
      record {
        child = before.child;
        found =
            ap (λ (r : Process). process_by_pid t r.wait_target_pid) (old q h)
            ∙ born-found (s.process q).wait_target_pid (λ e. before.there (sym before.found ∙ e))
            ∙ before.found;
        there = before.there;
        own = ap (λ (r : Process). r.parent) same ∙ before.own;
        thread_there = λ e. before.thread_there (sym (ap (λ (r : Process). r.primary) same) ∙ e);
        alive =
            rw
              (
                ap (λ (r : Process). r.primary) same,
                old_thread (s.process before.child).primary (unowned before.child child_listed),
              )
              before.alive;
      }

  born-IsSound : IsSound t idle
  born-IsSound = record {
    core = born-IsValid;
    no_null = rw list_is (ground (arith, sound.no_null));
    threads = λ q h ne. elim (listed-cases q h) [
      | inl this ↦ rw this (ap (λ u. (t.cpu.thread u).process) here.3 ∙ new_thread.1)
      | inr there ↦
          let e = ap (λ (r : Process). r.primary) (old q there) in
          ap (λ u. (t.cpu.thread u).process) e
          ∙ ap (λ (u : Thread). u.process) (old_thread (s.process q).primary (unowned q there))
          ∙ sound.threads q there (λ z. ne (e ∙ z))
    ];
    numbers = λ q h. elim (listed-cases q h) [
      | inl this ↦ rw this (omega (arith, here.0, next_is, few))
      | inr there ↦
          omega
            (arith, ap (λ (r : Process). r.pid) (old q there), sound.numbers q there, next_is, few)
    ];
    parents = λ q h ne. elim (listed-cases q h) [
      | inl this ↦ rw this (rw (here.1) (still_listed (get_current_process s) cur_listed))
      | inr there ↦
          let e = ap (λ (r : Process). r.parent) (old q there) in
          rw e (still_listed (s.process q).parent (sound.parents q there (λ z. ne (e ∙ z))))
    ];
    waits = λ q h w. elim (listed-cases q h) [
      | inl this ↦
          absurd (ground (arith, here.2, subst (λ r. (t.process r).is_waiting ≡ true) this w))
      | inr there ↦ born-waits q there w
    ];
  }

pub start-IsSound :
    {s t : System} {idle : ℕ} (p th : ℕ) (console : List ℕ) (entry kstack pml4 proc : ℕ)
    → IsSound s idle
    → listed s.process_list p ≡ false
    → listed s.cpu.thread_list th ≡ false
    → ((q : ℕ) → listed s.process_list q ≡ true → (s.process q).primary ≢ th)
    → listed s.process_list (get_current_process s) ≡ true
    → s.next_pid + 1 < 2 ^ 64
    → adopt_process s p th console entry kstack pml4 ≡ some (proc, t)
    → IsSound t idle
start-IsSound {s} {t} {idle} p th console entry kstack pml4 proc sound p_new th_new unowned cur few
      h =
    let (p_there, th_there, _, same) =
      adopt_process-some s t p th console entry kstack pml4 proc h in
    subst (λ (u : System). IsSound u idle) same
      (born-IsSound p th console entry kstack pml4 sound p_there th_there p_new th_new unowned cur
        few)
