-- ===== src/Mem/Pmm.antt =====
-- src/kernel/mem/pmm.c: the page frame allocator over the bitmap. The locks are left out: each
-- function runs under `pmm_lock`, so it is one step here.
pub mod Alloc
pub mod AllocN
pub mod Init
mod Examples
use hvos.Common.{
  ℕ, zero, suc, ◌+◌, ◌-◌, ◌*◌, ◌/◌, ◌%◌, ◌^◌, Bool, ◌&&◌, ◌||◌, Option, none, some, List, [], ◌∷◌,
  ltb, leb, ◌==◌, if◌then◌else◌, u64, sub64, length, replicate,
}
use hvos.Common.Loops.{each_from}
use hvos.Mem.Bitmap.{bitmap_set, bitmap_clear, bitmap_test}

abbrev pub page_size : ℕ
page_size = 4096

-- `bitmap`, `total_pages` and `used_pages`.
pub record Pmm : Type 0 where
  pub bitmap : List ℕ
  pub total_pages : ℕ
  pub used_pages : ℕ

-- The loop of `pmm_alloc` from page `i`, with `left` rounds to go.
unfoldable pub first_clear : ℕ → List ℕ → ℕ → Option ℕ
first_clear zero bitmap i = none
first_clear (suc left) bitmap i =
    let rest = first_clear left bitmap (i + 1) in if bitmap_test bitmap i then rest else some i

-- The address is 0 for NULL.
unfoldable pub pmm_alloc : Pmm → ℕ × Pmm
pmm_alloc s = elim (first_clear (s.total_pages - 1) s.bitmap 1) [
  | none ↦ (0, s)
  | some i ↦ (
    u64 (i * page_size),
    record s { bitmap = bitmap_set s.bitmap i; used_pages = u64 (s.used_pages + 1) },
  )
]

-- Whether the byte of a page is one of the bitmap.
abbrev pub inside : List ℕ → ℕ → Bool
inside bitmap page_index = ltb (page_index / 8) (length bitmap)

-- `none` for an address past the bitmap, which the source does not test for: it then reads, and may
-- change, a byte of what lies behind.
unfoldable pub pmm_free : Pmm → ℕ → Option Pmm
pmm_free s addr =
    let page_index = addr / page_size in
    if inside s.bitmap page_index
    then some (
        if bitmap_test s.bitmap page_index
        then record s {
          bitmap = bitmap_clear s.bitmap page_index;
          used_pages = sub64 s.used_pages 1;
        }
        else s)
    else none

-- `fault` is a run that is set past the end of the bitmap.
pub data Outcome : Type 0 where
  done : ℕ → Pmm → Outcome
  fault : Outcome
  out_of_fuel : Outcome

pub data Run : Type 0 where
  found : Run
  taken : ℕ → Run
  out_of_fuel : Run

-- The bit of a page, wherever it is read: `past` is what the memory behind the bitmap holds.
abbrev pub bit_at : List ℕ → (ℕ → Bool) → ℕ → Bool
bit_at bitmap past page_index =
    if inside bitmap page_index then bitmap_test bitmap page_index else past page_index

-- The loop `for (j = 1; i < n; j++)` of `pmm_alloc_n`; its test does not name `j`. Nothing bounds
-- its rounds.
unfoldable pub check_run : ℕ → List ℕ → (ℕ → Bool) → ℕ → ℕ → ℕ → Run
check_run zero bitmap past n i j = Run.out_of_fuel
check_run (suc fuel) bitmap past n i j =
    let rest = check_run fuel bitmap past n i (j + 1) in
    if ltb i n then (if bit_at bitmap past (i + j) then taken j else rest) else found

unfoldable pub set_run : List ℕ → ℕ → ℕ → List ℕ
set_run bitmap i n = each_from n 0 (λ k bm. bitmap_set bm (i + k)) bitmap

take_run : Pmm → ℕ → ℕ → Outcome
take_run s n i =
    if inside s.bitmap (i + (n - 1))
    then done (u64 (i * page_size))
        (record s { bitmap = set_run s.bitmap i n; used_pages = u64 (s.used_pages + n) })
    else Outcome.fault

-- What follows the inner loop: `again j` goes on behind a page that is taken.
unfoldable pub resume : Pmm → ℕ → ℕ → (ℕ → Outcome) → Run → Outcome
unfolding take_run
resume s n i again found = take_run s n i
resume s n i again (taken j) = again j
resume s n i again Run.out_of_fuel = Outcome.out_of_fuel

-- The outer loop: after a page that is taken in the run it goes on from `i + j + 1`.
unfoldable pub find_run : ℕ → (ℕ → Bool) → Pmm → ℕ → ℕ → Outcome
find_run zero past s n i = Outcome.out_of_fuel
find_run (suc fuel) past s n i =
    let next = find_run fuel past s n (i + 1) in
    let again = λ (j : ℕ). find_run fuel past s n (i + j + 1) in
    let checked = check_run (suc fuel) s.bitmap past n i 1 in
    if leb i (sub64 s.total_pages n)
    then (if bit_at s.bitmap past i then next else resume s n i again checked)
    else done 0 s

-- With at most `fuel` rounds for each loop.
unfoldable pub pmm_alloc_n : ℕ → (ℕ → Bool) → Pmm → ℕ → Outcome
pmm_alloc_n fuel past s n =
    if n == 0
    then done 0 s
    else if n == 1
    then (let (addr, s') = pmm_alloc s in done addr s')
    else find_run fuel past s n 1
