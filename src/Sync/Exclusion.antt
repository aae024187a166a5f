-- ===== src/Sync/Exclusion.antt =====
-- Mutual exclusion, the interrupt flag, and that no core waits for ever for want of a release.
use hvos.Common.{
  refl, ◌⊎◌, ℕ, ◌≡◌, refl, ◌≢◌, ◌↔◌, inl, inr, true, false, arith, ◌==◌, Bool-cases, ==→eq, assign,
}
use hvos.Sync.{
  Pc, Core, System, spin_lock, safe_lock, lock_round, unlock, restore, Step, Steps, IsInitial,
  spins, saves, tries, unlocks, restores, flags, here, then_,
}

-- What holds of the lock between any two steps.
pub record IsValid (s : System) : Type 0 where
  pub clear : s.locked ≡ 0 → (i : ℕ) → (s.core i).pc ≢ Pc.inside
  pub held : s.locked ≢ 0 → (i : ℕ) × ((s.core i).pc ≡ Pc.inside)
  pub alone : (i j : ℕ) → (s.core i).pc ≡ Pc.inside → (s.core j).pc ≡ Pc.inside → i ≡ j
  pub quiet :
      (i : ℕ) → (s.core i).safe ≡ true → (s.core i).pc ≢ Pc.outside → (s.core i).interrupts ≡ false

-- A step of one core that does not touch the word, and neither enters nor leaves the section.
aside :
    (s : System) (i : ℕ) (c : Core)
    → IsValid s
    → ((s.core i).pc ≡ Pc.inside → c.pc ≡ Pc.inside)
    → (c.pc ≡ Pc.inside → (s.core i).pc ≡ Pc.inside)
    → (c.safe ≡ true → c.pc ≢ Pc.outside → c.interrupts ≡ false)
    → IsValid (record s { core = assign s.core i c })
aside s i c v into from still = record {
  clear = λ e j. ground (arith, v.clear e i, v.clear e j);
  held = λ n. let (h, there) = v.held n in (h, ground (arith, into));
  alone = λ j k p q. ground (arith, v.alone i j, v.alone i k, v.alone j i, v.alone j k);
  quiet = λ j. ground (arith, v.quiet j);
}

tries-IsValid :
    (s : System) (i : ℕ)
    → IsValid s
    → (s.core i).pc ≡ Pc.spinning
    → IsValid (record {
      locked = (lock_round s.locked (s.core i)).0;
      core = assign s.core i (lock_round s.locked (s.core i)).1;
    })
unfolding lock_round
tries-IsValid s i v at = elim (Bool-cases (s.locked == 0)) [
  | inl free ↦ rw free (record {
    clear = λ e. absurd (omega arith);
    held = λ n. (i, ground arith);
    alone = λ j k p q. ground (arith, v.clear (==→eq _ _ free) j, v.clear (==→eq _ _ free) k);
    quiet = λ j. ground (arith, v.quiet i, v.quiet j);
  })
  | inr taken ↦ rw taken (
      let (h, there) = v.held (ground arith) in
      record {
        clear = λ e. absurd (omega arith);
        held = λ n. (h, ground arith);
        alone = λ j k p q. ground (arith, v.alone j k);
        quiet = λ j. ground (arith, v.quiet j);
      })
]

unlocks-IsValid :
    (s : System) (i : ℕ)
    → IsValid s
    → (s.core i).pc ≡ Pc.inside
    → IsValid
        (record { locked = (unlock (s.core i)).0; core = assign s.core i (unlock (s.core i)).1 })
unfolding unlock
unlocks-IsValid s i v at = record {
  clear = λ e j. ground (arith, v.alone i j at);
  held = λ n. absurd (n refl);
  alone = λ j k p q. ground (arith, v.alone i j at, v.alone i k at);
  quiet = λ j. ground (arith, v.quiet i, v.quiet j);
}

Step-IsValid : {s t : System} → Step s t → IsValid s → IsValid t
unfolding spin_lock safe_lock restore
Step-IsValid {s} (spins i at) v = aside s i (spin_lock (s.core i)) v (λ p. cc) (λ p. cc) (λ p. cc)
Step-IsValid {s} (saves i at) v =
    aside s i (safe_lock (s.core i)) v (λ p. cc) (λ p. cc) (λ p q. refl)
Step-IsValid {s} (tries i at) v = tries-IsValid s i v at
Step-IsValid {s} (unlocks i at) v = unlocks-IsValid s i v at
Step-IsValid {s} (restores i at) v =
    aside s i (restore (s.core i)) v (λ p. cc) (λ p. cc) (λ p q. absurd (q refl))
Step-IsValid {s} (flags i b may) v =
    aside s i (record (s.core i) { interrupts = b }) v (λ p. p) (λ p. p) (λ p q. ground arith)

IsInitial-IsValid : {s : System} → IsInitial s → IsValid s
IsInitial-IsValid {s} o = record {
  clear = λ e i. ground (arith, o.all_outside i);
  held = λ n. absurd (n o.free);
  alone = λ i j p q. ground (arith, o.all_outside i);
  quiet = λ i p q. absurd (q (o.all_outside i));
}

Steps-IsValid : {s t : System} → Steps s t → IsValid s → IsValid t
Steps-IsValid here v = v
Steps-IsValid (then_ t u before last) v = Step-IsValid last (Steps-IsValid before v)

-- Whatever steps the cores have taken in whatever order since no core was at the lock: no two cores
-- are in the section at once; the word is clear exactly if none is in it; and a core that took
-- the lock by `safe_lock` has its interrupts off until `safe_unlock` has restored them.
pub locks_exclude :
    (s t : System)
    → IsInitial s
    → Steps s t
    → ((i j : ℕ) → (t.core i).pc ≡ Pc.inside → (t.core j).pc ≡ Pc.inside → i ≡ j)
      × (t.locked ≡ 0 ↔ ((i : ℕ) → (t.core i).pc ≢ Pc.inside))
      × ((i : ℕ)
          → (t.core i).safe ≡ true
          → (t.core i).pc ≢ Pc.outside
          → (t.core i).interrupts ≡ false)
locks_exclude s t o steps =
    let v = Steps-IsValid steps (IsInitial-IsValid o) in
    (
      v.alone,
      (
        v.clear,
        λ none_in. elim (Bool-cases (t.locked == 0)) [
          | inl clear ↦ ==→eq _ _ clear
          | inr taken ↦ let (h, there) = v.held (ground arith) in absurd (none_in h there)
        ],
      ),
      v.quiet,
    )

-- A round of a core that spins while the word is clear.
abbrev pub GetsIn : System → ℕ → System → Type 0
GetsIn s i u = (s.locked ≡ 0) × Step s u × ((u.core i).pc ≡ Pc.inside)

-- The core `h` is inside, and its release clears the word and moves no other core.
abbrev pub Releases : System → ℕ → System → Type 0
Releases t h u =
    ((t.core h).pc ≡ Pc.inside)
    × Step t u
    × (u.locked ≡ 0)
    × ((j : ℕ) → j ≢ h → u.core j ≡ t.core j)

-- A core that spins can always get in. From any state that the cores can reach, if the word is
-- clear, there is one step after which it is inside; otherwise some core is inside, and there are
-- two steps, of which the first releases that core's lock and moves no other core, and after the
-- second it is inside.
pub spinning-GetsIn :
    (s t : System) (i : ℕ)
    → IsInitial s
    → Steps s t
    → (t.core i).pc ≡ Pc.spinning
    → ((u : System) × GetsIn t i u)
      ⊎ ((h : ℕ) × (w : System) × Releases t h w × (u : System) × GetsIn w i u)
unfolding lock_round unlock
spinning-GetsIn s t i o steps at =
    let v = Steps-IsValid steps (IsInitial-IsValid o) in
    elim (Bool-cases (t.locked == 0)) [
      | inl free ↦ inl (_, (==→eq _ _ free, tries i at, ground arith))
      | inr taken ↦
          let (h, there) = v.held (ground arith) in
          inr (
            h,
            _,
            (there, unlocks h there, refl, (λ j ne. ground arith)),
            _,
            (refl, tries i (ground arith), ground arith),
          )
    ]
