-- ===== src/Mem/Pmm/Alloc.antt =====
-- `pmm_alloc` and `pmm_free` against the set of pages that test as used.
use hvos.Common.{
  ℕ, zero, suc, ◌+◌, ◌-◌, ◌*◌, ◌/◌, ◌^◌, ◌≤◌, ◌<◌, ◌≡◌, refl, ap, subst, ◌≢◌, ◌⊎◌, inl, inr, Bool,
  true, false, Option, none, some, List, arith, ◌==◌, if◌then◌else◌, Bool-cases, Option-cases, u64,
  sub64, length,
}
use hvos.Mem.Bitmap.{bitmap_clear, bitmap_set, bitmap_test}
use hvos.Mem.Bitmap.Laws.{
  IsBytes, bitmap_test-set, bitmap_test-clear, bitmap_set-IsBytes, bitmap_clear-IsBytes,
  length-bitmap_set, length-bitmap_clear,
}
use hvos.Mem.Pmm.{Pmm, page_size, first_clear, inside, pmm_alloc, pmm_free}

-- The bitmap has a bit for every page, and page numbers times 4096 fit 64 bits.
pub record IsValid (s : Pmm) : Type 0 where
  pub bytes : IsBytes s.bitmap
  pub covers : s.total_pages ≤ 8 * length s.bitmap
  pub fits : s.total_pages ≤ 2 ^ 52

abbrev pub used : Pmm → ℕ → Bool
used s p = bitmap_test s.bitmap p

-- `r` is the first clear page of `i .. i + left`, or there is none.
abbrev pub IsFirst : List ℕ → ℕ → ℕ → Option ℕ → Type 0
IsFirst bm i left none = (q : ℕ) → i ≤ q → q < i + left → bitmap_test bm q ≡ true
IsFirst bm i left (some p) =
    (i ≤ p)
    × (p < i + left)
    × (bitmap_test bm p ≡ false)
    × ((q : ℕ) → i ≤ q → q < p → bitmap_test bm q ≡ true)

IsFirst-cons :
    (bm : List ℕ) (i left : ℕ) (r : Option ℕ)
    → bitmap_test bm i ≡ true
    → IsFirst bm (i + 1) left r
    → IsFirst bm i (suc left) r
IsFirst-cons bm i left none t h = λ q lo hi. elim (Bool-cases (i == q)) [
  | inl e ↦ ground arith
  | inr e ↦ h q (ground arith) (omega arith)
]
IsFirst-cons bm i left (some p) t h = (
  omega arith,
  omega arith,
  h.2,
  λ q lo hi. elim (Bool-cases (i == q)) [ inl e ↦ ground arith | inr e ↦ h.3 q (ground arith) hi ],
)

pub first_clear-IsFirst :
    (left : ℕ) (bm : List ℕ) (i : ℕ) → IsFirst bm i left (first_clear left bm i)
unfolding first_clear
first_clear-IsFirst zero bm i = λ q lo hi. absurd (omega arith)
first_clear-IsFirst (suc left) bm i = elim (Bool-cases (bitmap_test bm i)) [
  | inl t ↦
      rw t (
        IsFirst-cons bm i left (first_clear left bm (i + 1)) t
          (first_clear-IsFirst left bm (i + 1)))
  | inr f ↦ rw f (omega arith, omega arith, f, λ q lo hi. absurd (omega arith))
]

-- What a call that takes page `p` has done.
pub record Takes (s : Pmm) (p : ℕ) (out : ℕ × Pmm) : Type 0 where
  pub address : out.0 ≡ p * page_size
  pub in_range : (1 ≤ p) × (p < s.total_pages)
  pub was_free : used s p ≡ false
  pub lowest : (q : ℕ) → 1 ≤ q → q < p → used s q ≡ true
  pub marks : (q : ℕ) → q < 8 * length s.bitmap → used out.1 q ≡ (if p == q then true else used s q)
  pub counts : out.1.used_pages ≡ u64 (s.used_pages + 1)
  pub same_total : out.1.total_pages ≡ s.total_pages
  pub same_size : length out.1.bitmap ≡ length s.bitmap

abbrev pub AllUsed : Pmm → Type 0
AllUsed s = (q : ℕ) → 1 ≤ q → q < s.total_pages → used s q ≡ true

module _ (s : Pmm) (v : IsValid s) where
  alloc_none : IsFirst s.bitmap 1 (s.total_pages - 1) none → AllUsed s
  alloc_none h q lo hi = h q lo (omega arith)

  alloc_some :
      (p : ℕ)
      → IsFirst s.bitmap 1 (s.total_pages - 1) (some p)
      → Takes s p (
        u64 (p * page_size),
        record s { bitmap = bitmap_set s.bitmap p; used_pages = u64 (s.used_pages + 1) },
      )
  alloc_some p (lo, hi, free, before) = record {
    address = omega (arith, v.fits);
    in_range = (lo, omega arith);
    was_free = free;
    lowest = before;
    marks = λ q h. bitmap_test-set s.bitmap p q (omega arith) v.bytes;
    counts = refl;
    same_total = refl;
    same_size = length-bitmap_set s.bitmap p;
  }

  -- With a valid state, `pmm_alloc` takes the lowest free page from 1 on: it returns that page's
  -- address, marks that page and no other, and counts it; if it returns NULL instead, all pages
  -- from 1 on are in use and the state is as before.
  pub pmm_alloc_lem : ((p : ℕ) × Takes s p (pmm_alloc s)) ⊎ (AllUsed s × (pmm_alloc s ≡ (0, s)))
  unfolding pmm_alloc
  pmm_alloc_lem = elim (Option-cases (first_clear (s.total_pages - 1) s.bitmap 1)) [
    | inl e ↦
        let f = rw e at (first_clear-IsFirst (s.total_pages - 1) s.bitmap 1) in
        inr (alloc_none f, rw (e, pmm_alloc))
    | inr (p, e) ↦
        let f = rw e at (first_clear-IsFirst (s.total_pages - 1) s.bitmap 1) in
        inl (p, rw (e, pmm_alloc) (alloc_some p f))
  ]

  -- `pmm_alloc` keeps the state valid.
  pub pmm_alloc-IsValid : IsValid (pmm_alloc s).1
  unfolding pmm_alloc
  pmm_alloc-IsValid = elim (Option-cases (first_clear (s.total_pages - 1) s.bitmap 1)) [
    | inl e ↦ rw (e, pmm_alloc) v
    | inr (p, e) ↦
        rw (e, pmm_alloc)
          (record {
            bytes = bitmap_set-IsBytes s.bitmap p v.bytes;
            covers = rw length-bitmap_set v.covers;
            fits = v.fits;
          })
  ]

  -- `pmm_free` keeps the state valid.
  pub pmm_free-IsValid : (addr : ℕ) (t : Pmm) → pmm_free s addr ≡ some t → IsValid t
  unfolding pmm_free
  pmm_free-IsValid addr t h = elim (Bool-cases (inside s.bitmap (addr / page_size))) [
    | inr out ↦ absurd (ground arith)
    | inl inn ↦ elim (Bool-cases (bitmap_test s.bitmap (addr / page_size))) [
      | inl e ↦
          let cleared : Pmm = record s {
            bitmap = bitmap_clear s.bitmap (addr / page_size);
            used_pages = sub64 s.used_pages 1;
          } in
          let same : cleared ≡ t = ground arith in
          subst IsValid same (record {
            bytes = bitmap_clear-IsBytes s.bitmap (addr / page_size) v.bytes;
            covers = rw length-bitmap_clear v.covers;
            fits = v.fits;
          })
      | inr e ↦ let same : s ≡ t = ground arith in subst IsValid same v
    ]
  ]

  -- For an address of which the bitmap has the page, in a valid state, `pmm_free` makes that page free,
  -- leaves every other page as it was, and takes one off the count exactly if the page was in use.
  pub pmm_free_lem :
      (addr : ℕ)
      → addr / page_size < 8 * length s.bitmap
      → (t : Pmm) × (pmm_free s addr ≡ some t)
        × ((q : ℕ)
            → q < 8 * length s.bitmap
            → used t q ≡ (if addr / page_size == q then false else used s q))
        × (t.used_pages
            ≡ (if used s (addr / page_size) then sub64 s.used_pages 1 else s.used_pages))
  unfolding pmm_free
  pmm_free_lem addr room =
      let page = addr / page_size in
      let inn : inside s.bitmap page ≡ true = ground arith in
      let clears = λ (q : ℕ) (h : q < 8 * length s.bitmap).
        bitmap_test-clear s.bitmap page q (omega arith) v.bytes in
      elim (Bool-cases (bitmap_test s.bitmap page)) [
        | inl e ↦ rw (inn, e) (_, refl, clears, refl)
        | inr e ↦ rw (inn, e) (_, refl, (λ q h. ground arith), refl)
      ]

-- Allocating and freeing again: every page is as it was, and so is the count.
pub pmm_free-pmm_alloc :
    (s : Pmm) (v : IsValid s)
    → (pmm_alloc s).0 ≢ 0
    → s.used_pages < 2 ^ 64
    → (back : Pmm) × (pmm_free (pmm_alloc s).1 (pmm_alloc s).0 ≡ some back)
      × ((q : ℕ) → q < 8 * length s.bitmap → used back q ≡ used s q)
      × (back.used_pages ≡ s.used_pages)
pmm_free-pmm_alloc s v got small = elim (pmm_alloc_lem s v) [
  | inr (full, e) ↦ absurd (got (ap (λ (t : ℕ × Pmm). t.0) e))
  | inl (p, t) ↦
      let page : (pmm_alloc s).0 / page_size ≡ p = omega (arith, t.address) in
      let held = t.marks p (omega (arith, v.covers, t.in_range)) in
      let (back, e, bits, count) =
        pmm_free_lem (pmm_alloc s).1 (pmm_alloc-IsValid s v) (pmm_alloc s).0
          (omega (arith, t.address, t.same_size, v.covers, t.in_range)) in
      (
        back,
        e,
        λ q h. ground (arith, page, bits q (rw t.same_size h), t.marks q h, t.was_free),
        ground (arith, page, count, held, t.counts),
      )
]
