-- ===== src/Sync/Examples.antt =====
-- Two cores take the lock one after the other.
use hvos.Common.{◌⊎◌, ℕ, ◌≡◌, refl, ◌≢◌, ◌↔◌, true, false, assign}
use hvos.Sync.{
  Pc, Core, System, atomic_exchange, spin_lock, safe_lock, lock_round, Steps, IsInitial, spins,
  saves, tries, here, then_,
}
use hvos.Sync.Exclusion.{GetsIn, Releases, locks_exclude, spinning-GetsIn}

abbrev idle_core : Core
idle_core = record { pc = Pc.outside; safe = false; rflags = false; interrupts = true }

abbrev at_rest : System
at_rest = record { locked = 0; core = λ _. idle_core }

at_rest-IsInitial : IsInitial at_rest
at_rest-IsInitial = record { free = refl; all_outside = λ i. refl }

-- Core 0 is inside, and core 1 spins.
abbrev contended : System
contended = record {
  locked = 1;
  core =
      assign
        (assign (assign (λ _. idle_core) 0 (spin_lock idle_core)) 0
          (lock_round 0 (spin_lock idle_core)).1)
        1 (safe_lock idle_core);
}

contended-Steps : Steps at_rest contended
unfolding lock_round atomic_exchange spin_lock safe_lock
contended-Steps =
    then_ _ _ (then_ _ _ (then_ _ _ here (spins 0 refl)) (tries 0 refl)) (saves 1 refl)

locks_exclude_example :
    ((i j : ℕ) → (contended.core i).pc ≡ Pc.inside → (contended.core j).pc ≡ Pc.inside → i ≡ j)
    × (contended.locked ≡ 0 ↔ ((i : ℕ) → (contended.core i).pc ≢ Pc.inside))
    × ((i : ℕ)
        → (contended.core i).safe ≡ true
        → (contended.core i).pc ≢ Pc.outside
        → (contended.core i).interrupts ≡ false)
locks_exclude_example = locks_exclude at_rest contended at_rest-IsInitial contended-Steps

spinning-GetsIn_example :
    ((u : System) × GetsIn contended 1 u)
    ⊎ ((h : ℕ) × (w : System) × Releases contended h w × (u : System) × GetsIn w 1 u)
unfolding safe_lock
spinning-GetsIn_example = spinning-GetsIn at_rest contended 1 at_rest-IsInitial contended-Steps refl
