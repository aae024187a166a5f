-- ===== src/Mem/Pmm/Examples.antt =====
-- The allocator at a bitmap of 16 pages.
use hvos.Common.{
  ◌+◌, ℕ, ◌≤◌, ◌<◌, ◌≡◌, refl, ◌⊎◌, true, false, some, List, [], ◌∷◌, arith, if◌then◌else◌, ◌==◌,
  every, every-lem, replicate,
}
use hvos.Mem.Bitmap.{bitmap_test}
use hvos.Mem.Pmm.{Pmm, pmm_alloc, pmm_free, done, pmm_alloc_n}
use hvos.Mem.Pmm.Alloc.{IsValid, used, Takes, AllUsed, pmm_alloc_lem, pmm_free_lem}
use hvos.Mem.Pmm.AllocN.{pmm_alloc_n_unchecked}
use hvos.Mem.Pmm.Init.{MemmapEntry}

-- Pages 0 to 2 and 4 in use.
abbrev some_used : Pmm
some_used = record { bitmap = 0b10111 ∷ 0 ∷ []; total_pages = 16; used_pages = 4 }

some_used-IsValid : IsValid some_used
some_used-IsValid = omega arith

pmm_alloc_lem_example :
    ((p : ℕ) × Takes some_used p (pmm_alloc some_used))
    ⊎ (AllUsed some_used × (pmm_alloc some_used ≡ (0, some_used)))
pmm_alloc_lem_example = pmm_alloc_lem some_used some_used-IsValid

pmm_free_lem_example :
    (t : Pmm) × (pmm_free some_used 0x2000 ≡ some t)
    × ((q : ℕ) → q < 16 → used t q ≡ (if 2 == q then false else used some_used q))
    × (t.used_pages ≡ 3)
unfolding bitmap_test
pmm_free_lem_example = pmm_free_lem some_used some_used-IsValid 0x2000 (omega arith)

-- Pages 0 to 4 and 6 in use: the run that begins at page 5 has page 6 in it.
abbrev broken_run : Pmm
broken_run = record { bitmap = 0b1011111 ∷ 0 ∷ []; total_pages = 16; used_pages = 6 }

before_run : (q : ℕ) → 1 ≤ q → q < 5 → used broken_run q ≡ true
unfolding bitmap_test every
before_run q lo hi = every-lem 5 (used broken_run) q refl hi

broken_run-IsValid : IsValid broken_run
broken_run-IsValid = omega arith

pmm_alloc_n_unchecked_example :
    (t : Pmm) × (pmm_alloc_n 5 (λ p. false) broken_run 2 ≡ done 0x5000 t)
    × ((k : ℕ) → k < 2 → used t (5 + k) ≡ true)
    × ((q : ℕ) → q < 16 → (q < 5) ⊎ (7 ≤ q) → used t q ≡ used broken_run q)
    × (t.used_pages ≡ 8)
    × (t.total_pages ≡ 16)
unfolding bitmap_test
pmm_alloc_n_unchecked_example =
    pmm_alloc_n_unchecked 5 (λ p. false) broken_run 2 5 broken_run-IsValid (omega arith)
      (omega arith) (omega arith) (omega arith) refl before_run

-- A reserved entry at 0, and 14 usable pages from page 2 on; one page holds the bitmap.
abbrev two_entries : List MemmapEntry
two_entries =
    record { base = 0; size = 0x2000; kind = 1 }
    ∷ record { base = 0x2000; size = 0xE000; kind = 0 }
    ∷ []

abbrev at_boot : Pmm
at_boot = record { bitmap = 0b111 ∷ 0 ∷ replicate 4094 0xff; total_pages = 16; used_pages = 0 }
