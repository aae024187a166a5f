-- ===== src/Mem/Pmm/AllocN.antt =====
-- `pmm_alloc_n` does not look at the pages behind the first of its run.
use hvos.Common.{
  ℕ, zero, suc, ◌+◌, ◌-◌, ◌*◌, ◌≤◌, ◌<◌, ◌≡◌, refl, ◌∙◌, ◌⊎◌, inl, inr, Bool, true, false, ◌||◌,
  arith, u64, length,
}
use hvos.Mem.Pmm.{Pmm, page_size, done, found, check_run, set_run, resume, find_run, pmm_alloc_n}
use hvos.Mem.Pmm.Alloc.{IsValid, used}
use hvos.Mem.Pmm.Init.{Marks, in_run, set_pages, set_pages-Marks}

module _ (fuel : ℕ) (past : ℕ → Bool) (s : Pmm) (n i : ℕ) (v : IsValid s) (two : 2 ≤ n)
    (late : n ≤ i) (enough : i ≤ fuel) (room : i + n ≤ s.total_pages) (free : used s i ≡ false)
    (before : (q : ℕ) → 1 ≤ q → q < i → used s q ≡ true) where
  abbrev ran : Pmm
  ran = record s { bitmap = set_run s.bitmap i n; used_pages = u64 (s.used_pages + n) }

  found_at : (rounds : ℕ) → check_run (suc rounds) s.bitmap past n i 1 ≡ found
  unfolding check_run
  found_at rounds = ground arith

  find_run-first :
      (rounds gap k : ℕ)
      → k + gap ≡ i
      → 1 ≤ k
      → gap < rounds
      → find_run rounds past s n k ≡ done (i * page_size) ran
  unfolding find_run resume
  find_run-first zero gap k e lo h = absurd (omega arith)
  find_run-first (suc rounds) zero k e lo h =
      let e' : k ≡ i = omega arith in rw e' (ground (arith, v.covers, v.fits, found_at rounds))
  find_run-first (suc rounds) (suc gap) k e lo h =
      ground (arith, before k, v.covers, v.fits, find_run-first rounds gap (k + 1))

  run-Marks :
      (q : ℕ)
      → q < 8 * length s.bitmap
      → Marks (set_run s.bitmap i n) q (length s.bitmap) (in_run i n q || used s q)
  unfolding set_run
  run-Marks q h =
      unfold set_pages in
      set_pages-Marks q (length s.bitmap) (omega arith) i n s.bitmap (used s q)
        (record { bytes = v.bytes; sized = refl; tests = refl })

  -- In a valid state, asked for two pages or more, when the lowest free page is `n` or later and
  -- the run fits: whatever the memory behind the bitmap holds, and with as many rounds as that
  -- page's number or more, `pmm_alloc_n` returns the run of `n` pages from that page on, whichever
  -- of the others are in use. They are then all in use, every other page is as it was, and `n` is
  -- added to the count.
  pub pmm_alloc_n_unchecked :
      (t : Pmm) × (pmm_alloc_n fuel past s n ≡ done (i * page_size) t)
      × ((k : ℕ) → k < n → used t (i + k) ≡ true)
      × ((q : ℕ) → q < 8 * length s.bitmap → (q < i) ⊎ (i + n ≤ q) → used t q ≡ used s q)
      × (t.used_pages ≡ u64 (s.used_pages + n))
      × (t.total_pages ≡ s.total_pages)
  unfolding pmm_alloc_n
  pmm_alloc_n_unchecked = (
    ran,
    ground (arith, find_run-first fuel (i - 1) 1),
    λ k h. (run-Marks (i + k) (omega (arith, v.covers))).tests ∙ ground arith,
    λ q h out. (run-Marks q h).tests ∙ elim out [ inl l ↦ ground arith | inr r ↦ ground arith ],
    refl,
    refl,
  )
