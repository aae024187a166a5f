-- ===== src/Sched/Pick.antt =====
-- The choice of the next thread: the ready thread that has run least.
use hvos.Common.{
  ℕ, ◌≤◌, ◌≡◌, refl, ◌≢◌, ◌⊎◌, inl, inr, Bool, true, false, List, [], ◌∷◌, arith, ltb, ◌==◌,
  if◌then◌else◌, Bool-cases, listed,
}
use hvos.Sched.{Thread, Cpu, state_ready, lowest_from, get_lowest_runtime}

abbrev pub ready : (ℕ → Thread) → ℕ → Bool
ready thread t = (thread t).state == state_ready

-- What `p` is to the list: 0 if no thread is ready, or else a ready one with the least `vruntime`.
abbrev pub IsLowest : (ℕ → Thread) → List ℕ → ℕ → Type 0
IsLowest thread ts p =
    ((p ≡ 0) × ((t : ℕ) → listed ts t ≡ true → ready thread t ≡ false))
    ⊎ ((p ≢ 0)
        × (listed ts p ≡ true)
        × (ready thread p ≡ true)
        × ((t : ℕ)
            → listed ts t ≡ true
            → ready thread t ≡ true
            → (thread p).vruntime ≤ (thread t).vruntime))

module _ (thread : ℕ → Thread) where
  abbrev chosen : ℕ → ℕ → ℕ
  chosen u next =
      if (thread u).state == state_ready
      then (if next == 0
          then u
          else if ltb (thread u).vruntime (thread next).vruntime
          then u
          else next)
      else next

  -- A thread that is chosen stays until a ready one that has run less.
  lowest_from-le :
      (ts : List ℕ) (next : ℕ)
      → next ≢ 0
      → listed ts 0 ≡ false
      → (thread (lowest_from thread ts next)).vruntime ≤ (thread next).vruntime
  unfolding lowest_from
  lowest_from-le [] next ne nz = omega arith
  lowest_from-le (u ∷ us) next ne nz =
      ground (arith, lowest_from-le us (chosen u next) (ground arith) (ground arith))

  lowest_from-least :
      (ts : List ℕ) (next t : ℕ)
      → listed ts 0 ≡ false
      → listed ts t ≡ true
      → ready thread t ≡ true
      → (thread (lowest_from thread ts next)).vruntime ≤ (thread t).vruntime
  unfolding lowest_from
  lowest_from-least [] next t nz h r = cc
  lowest_from-least (u ∷ us) next t nz h r = elim (Bool-cases (u == t)) [
    | inl here ↦ ground (arith, lowest_from-le us (chosen u next) (ground arith) (ground arith))
    | inr later ↦ lowest_from-least us (chosen u next) t (ground arith) (ground arith) r
  ]

  lowest_from-in :
      (ts : List ℕ) (next : ℕ)
      → listed ts 0 ≡ false
      → (lowest_from thread ts next ≡ next)
        ⊎ ((listed ts (lowest_from thread ts next) ≡ true)
            × (ready thread (lowest_from thread ts next) ≡ true))
  unfolding lowest_from
  lowest_from-in [] next nz = inl refl
  lowest_from-in (u ∷ us) next nz = ground (arith, lowest_from-in us (chosen u next) (ground arith))

  lowest_from-pos :
      (ts : List ℕ) (next : ℕ) → next ≢ 0 → listed ts 0 ≡ false → lowest_from thread ts next ≢ 0
  unfolding lowest_from
  lowest_from-pos [] next ne nz = ne
  lowest_from-pos (u ∷ us) next ne nz =
      lowest_from-pos us (chosen u next) (ground arith) (ground arith)

  lowest_from-none :
      (ts : List ℕ) (next t : ℕ)
      → listed ts 0 ≡ false
      → lowest_from thread ts next ≡ 0
      → listed ts t ≡ true
      → ready thread t ≡ false
  unfolding lowest_from
  lowest_from-none [] next t nz z h = cc
  lowest_from-none (u ∷ us) next t nz z h = elim (Bool-cases (u == t)) [
    | inl here ↦ elim (Bool-cases (ready thread t)) [
      | inl r ↦ absurd (lowest_from-pos us (chosen u next) (ground arith) (ground arith) z)
      | inr w ↦ w
    ]
    | inr later ↦ lowest_from-none us (chosen u next) t (ground arith) z (ground arith)
  ]

-- With no NULL in the list of threads, `get_lowest_runtime` returns NULL exactly if no listed
-- thread is ready; otherwise it returns a listed thread that is ready and whose `vruntime` is the
-- least of those of the listed threads that are ready.
pub get_lowest_runtime-IsLowest :
    (c : Cpu)
    → listed c.thread_list 0 ≡ false
    → IsLowest c.thread c.thread_list (get_lowest_runtime c)
get_lowest_runtime-IsLowest c nz = elim (Bool-cases (get_lowest_runtime c == 0)) [
  | inl null ↦
      let e : get_lowest_runtime c ≡ 0 = ground arith in
      inl (e, λ t h. lowest_from-none c.thread c.thread_list 0 t nz e h)
  | inr some_thread ↦
      let pos : get_lowest_runtime c ≢ 0 = ground arith in
      elim (lowest_from-in c.thread c.thread_list 0 nz) [
        | inl e ↦ absurd (pos e)
        | inr (a, b) ↦ inr (pos, a, b, λ t h r. lowest_from-least c.thread c.thread_list 0 t nz h r)
      ]
]
