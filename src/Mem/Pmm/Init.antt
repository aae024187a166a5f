-- ===== src/Mem/Pmm/Init.antt =====
-- `pmm_init`: the bitmap that the boot loader's memory map gives.
use hvos.Common.{
  ℕ, ◌+◌, ◌*◌, ◌/◌, ◌^◌, ◌≤◌, ◌<◌, ◌≡◌, refl, ◌≢◌, ◌⊎◌, ◌++◌, subst, ◌∙◌, inl, inr, Bool, true,
  false, not, ◌&&◌, ◌||◌, Option, none, some, List, [], ◌∷◌, arith, ltb, leb, ◌==◌, if◌then◌else◌,
  Bool-cases, u64, length, replicate, All, length-replicate, All-replicate,
}
use hvos.Common.Loops.{each_from, each_from-keeps}
use hvos.Mem.Bitmap.{bitmap_set, bitmap_clear, bitmap_test}
use hvos.Mem.Bitmap.Laws.{
  IsBytes, bitmap_test-set, bitmap_test-clear, bitmap_set-IsBytes, bitmap_clear-IsBytes,
  length-bitmap_set, length-bitmap_clear, bitmap_test-ones,
}
use hvos.Mem.Pmm.{Pmm, page_size}

-- `struct limine_memmap_entry`; the kinds are those of limine.h.
pub record MemmapEntry : Type 0 where
  pub base : ℕ
  pub size : ℕ
  pub kind : ℕ

abbrev pub is_usable : MemmapEntry → Bool
is_usable e = e.kind == 0

-- Usable, framebuffer, reclaimable by the boot loader, kernel and modules.
abbrev counts : MemmapEntry → Bool
counts e = e.kind == 0 || e.kind == 7 || e.kind == 5 || e.kind == 6

unfoldable pub max_address : List MemmapEntry → ℕ → ℕ
max_address [] top = top
max_address (e ∷ es) top =
    max_address es
      (if counts e && ltb top (u64 (e.base + e.size)) then u64 (e.base + e.size) else top)

-- The first usable entry with room for the bitmap.
unfoldable pub bitmap_place : List MemmapEntry → ℕ → Option ℕ
bitmap_place [] bytes = none
bitmap_place (e ∷ es) bytes =
    if is_usable e && leb bytes e.size then some e.base else bitmap_place es bytes

-- One usable entry: the pages at `base`, `base + 4096`, … below `base + size`.
unfoldable pub clear_entry : MemmapEntry → List ℕ → List ℕ
clear_entry e bitmap =
    each_from ((e.size + 4095) / page_size) 0
      (λ k bm. bitmap_clear bm (u64 (e.base + k * page_size) / page_size)) bitmap

unfoldable pub clear_usable : List MemmapEntry → List ℕ → List ℕ
clear_usable [] bitmap = bitmap
clear_usable (e ∷ es) bitmap =
    clear_usable es (if is_usable e then clear_entry e bitmap else bitmap)

unfoldable pub set_pages : ℕ → ℕ → List ℕ → List ℕ
set_pages first n bitmap = each_from n 0 (λ k bm. bitmap_set bm (first + k)) bitmap

abbrev pub total_of : List MemmapEntry → ℕ
total_of es = max_address es 0 / page_size

-- `(raw_bitmap_size + PAGE_SIZE - 1) & ~(PAGE_SIZE - 1)`
abbrev pub bitmap_size_of : ℕ → ℕ
bitmap_size_of pages = ((pages + 7) / 8 + 4095) / page_size * page_size

unfoldable pub fill : List MemmapEntry → ℕ → ℕ → List ℕ
fill es place bytes =
    set_pages (place / page_size) (bytes / page_size) (clear_usable es (replicate bytes 0xff))

-- `used_pages` is left as it is. `none` is the halt for want of a place, which the source also
-- takes for a place at address 0.
unfoldable pub pmm_init : List MemmapEntry → ℕ → Option Pmm
unfolding fill
pmm_init es used_pages =
    let bytes = bitmap_size_of (total_of es) in
    elim (bitmap_place es bytes) [
      | none ↦ none
      | some place ↦
          if place == 0
          then none
          else some (record {
            bitmap = fill es place bytes;
            total_pages = total_of es;
            used_pages = used_pages;
          })
    ]

-- The page `p` holds memory of the region.
abbrev pub in_region : MemmapEntry → ℕ → Bool
in_region e p =
    leb (e.base / page_size) p && ltb p (e.base / page_size + (e.size + 4095) / page_size)

abbrev pub is_usable_page : List MemmapEntry → ℕ → Bool
is_usable_page [] p = false
is_usable_page (e ∷ es) p = (is_usable e && in_region e p) || is_usable_page es p

abbrev pub in_run : ℕ → ℕ → ℕ → Bool
in_run first n p = leb first p && ltb p (first + n)

-- What a pass over the bitmap keeps and what it tells of the page `p`.
pub record Marks (bm : List ℕ) (p : ℕ) (size : ℕ) (b : Bool) : Type 0 where
  pub bytes : IsBytes bm
  pub sized : length bm ≡ size
  pub tests : bitmap_test bm p ≡ b

module _ (p size : ℕ) (inside : p / 8 < size) where
  Marks-set :
      (bm : List ℕ) (b : Bool) (q : ℕ)
      → Marks bm p size b
      → Marks (bitmap_set bm q) p size (if q == p then true else b)
  Marks-set bm b q m = record {
    bytes = bitmap_set-IsBytes bm q m.bytes;
    sized = length-bitmap_set bm q ∙ m.sized;
    tests = rw (bitmap_test-set bm q p (rw m.sized inside) m.bytes, m.tests);
  }

  Marks-clear :
      (bm : List ℕ) (b : Bool) (q : ℕ)
      → Marks bm p size b
      → Marks (bitmap_clear bm q) p size (if q == p then false else b)
  Marks-clear bm b q m = record {
    bytes = bitmap_clear-IsBytes bm q m.bytes;
    sized = length-bitmap_clear bm q ∙ m.sized;
    tests = rw (bitmap_test-clear bm q p (rw m.sized inside) m.bytes, m.tests);
  }

  pub set_pages-Marks :
      (first n : ℕ) (bm : List ℕ) (b : Bool)
      → Marks bm p size b
      → Marks (set_pages first n bm) p size (in_run first n p || b)
  unfolding set_pages
  set_pages-Marks first n bm b m =
      each_from-keeps (λ k t. Marks t p size (in_run first k p || b))
        (λ k t. bitmap_set t (first + k)) n 0 n bm (omega arith)
        (λ k t lo hi h.
          subst (Marks (bitmap_set t (first + k)) p size) (ground arith)
            (Marks-set t (in_run first k p || b) (first + k) h))
        (subst (Marks bm p size) (ground arith) m)

  clear_entry-Marks :
      (e : MemmapEntry) (bm : List ℕ) (b : Bool)
      → e.base + e.size + 4096 < 2 ^ 64
      → Marks bm p size b
      → Marks (clear_entry e bm) p size (not (in_region e p) && b)
  unfolding clear_entry
  clear_entry-Marks e bm b fits m =
      each_from-keeps (λ k t. Marks t p size (not (in_run (e.base / page_size) k p) && b))
        (λ k t. bitmap_clear t (u64 (e.base + k * page_size) / page_size))
        ((e.size + 4095) / page_size) 0 ((e.size + 4095) / page_size) bm (omega arith)
        (λ k t lo hi h.
          subst (Marks (bitmap_clear t (u64 (e.base + k * page_size) / page_size)) p size)
            (ground arith)
            (Marks-clear t (not (in_run (e.base / page_size) k p) && b)
              (u64 (e.base + k * page_size) / page_size) h))
        (subst (Marks bm p size) (ground arith) m)

  pub clear_usable-Marks :
      (es : List MemmapEntry) (bm : List ℕ) (b : Bool)
      → All (λ e. e.base + e.size + 4096 < 2 ^ 64) es
      → Marks bm p size b
      → Marks (clear_usable es bm) p size (not (is_usable_page es p) && b)
  unfolding clear_usable
  clear_usable-Marks [] bm b fits m = m
  clear_usable-Marks (e ∷ es) bm b fits m = elim (Bool-cases (is_usable e)) [
    | inl u ↦ rw u (
        subst (Marks (clear_usable es (clear_entry e bm)) p size) (ground arith) (
          clear_usable-Marks es (clear_entry e bm) (not (in_region e p) && b) fits.1
            (clear_entry-Marks e bm b fits.0 m)))
    | inr w ↦ rw w (clear_usable-Marks es bm b fits.1 m)
  ]

pub Marks-ones : (p size : ℕ) → p / 8 < size → Marks (replicate size 0xff) p size true
Marks-ones p size h = record {
  bytes = All-replicate (λ b. b < 256) size 0xff (omega arith);
  sized = length-replicate size 0xff;
  tests = bitmap_test-ones size p h;
}

length-clear_entry : (e : MemmapEntry) (bm : List ℕ) → length (clear_entry e bm) ≡ length bm
unfolding clear_entry
length-clear_entry e bm =
    each_from-keeps (λ k t. length t ≡ length bm)
      (λ k t. bitmap_clear t (u64 (e.base + k * page_size) / page_size))
      ((e.size + 4095) / page_size) 0 ((e.size + 4095) / page_size) bm (omega arith)
      (λ k t lo hi h. length-bitmap_clear t _ ∙ h) refl

pub length-clear_usable :
    (es : List MemmapEntry) (bm : List ℕ) → length (clear_usable es bm) ≡ length bm
unfolding clear_usable
length-clear_usable [] bm = refl
length-clear_usable (e ∷ es) bm = elim (Bool-cases (is_usable e)) [
  | inl u ↦ rw u (length-clear_usable es (clear_entry e bm) ∙ length-clear_entry e bm)
  | inr w ↦ rw w (length-clear_usable es bm)
]

-- Where the memory map has a usable entry with room for a bitmap, with none in front of it.
pub record IsPlace (es : List MemmapEntry) (bytes place : ℕ) : Type 0 where
  pub before : List MemmapEntry
  pub entry : MemmapEntry
  pub after : List MemmapEntry
  pub divided : es ≡ before ++ entry ∷ after
  pub usable : entry.kind ≡ 0
  pub roomy : bytes ≤ entry.size
  pub at_base : place ≡ entry.base
  pub first : All (λ e. (e.kind ≢ 0) ⊎ (e.size < bytes)) before
