-- ===== src/Mem/Boot.antt =====
-- `init_bitmap` of src/kernel/mem/mem.c, which sets the page frame bitmap up at boot.
use hvos.Common.{
  ℕ, ◌+◌, ◌-◌, ◌*◌, ◌/◌, ◌%◌, ◌^◌, ◌≤◌, ◌<◌, ◌≡◌, ◌∙◌, ◌≢◌, inl, inr, true, false, ◌&&◌, Option,
  none, some, List, [], ◌∷◌, arith, ltb, leb, ◌==◌, if◌then◌else◌, Bool-cases, u64, replicate, All,
}
use hvos.Mem.Pmm.{Pmm, page_size}
use hvos.Mem.Pmm.Alloc.{used}
use hvos.Mem.Pmm.Init.{
  MemmapEntry, is_usable, clear_usable, in_region, is_usable_page, Marks-ones, clear_usable-Marks,
}

pub get_highest_phys_addr : List MemmapEntry → ℕ → ℕ
get_highest_phys_addr [] top = top
get_highest_phys_addr (e ∷ es) top = get_highest_phys_addr es (
    if e.kind == 1
    then top
    else if ltb top (u64 (e.base + e.size))
    then u64 (e.base + e.size)
    else top)

-- The first usable entry with room for the bitmap, which is cut off its start.
unfoldable pub carve : List MemmapEntry → ℕ → Option (ℕ × List MemmapEntry)
carve [] bytes = none
carve (e ∷ es) bytes =
    let rest = carve es bytes in
    if is_usable e && leb bytes e.size
    then some (e.base, record e { base = u64 (e.base + bytes); size = e.size - bytes } ∷ es)
    else elim rest [ none ↦ none | some (place, es') ↦ some (place, e ∷ es') ]

-- The pages of the usable entries, which become `total_pages`.
pub count_pages : List MemmapEntry → ℕ
count_pages [] = 0
count_pages (e ∷ es) = (if is_usable e then (e.size + 4095) / page_size else 0) + count_pages es

abbrev pub bitmap_bytes : List MemmapEntry → ℕ
bitmap_bytes es = get_highest_phys_addr es 0 / page_size / 8

-- `none` is the halt for want of a place.
pub init_bitmap : List MemmapEntry → Option Pmm
init_bitmap es = elim (carve es (bitmap_bytes es)) [
  | none ↦ none
  | some (place, es') ↦ some (record {
    bitmap = clear_usable es' (replicate (bitmap_bytes es) 0xff);
    total_pages = u64 (count_pages es');
    used_pages = 0;
  })
]

abbrev Fits : MemmapEntry → Type 0
Fits e = e.base + e.size + 4096 < 2 ^ 64

-- The entry that gives the bitmap its place.
abbrev pub room_entry : List MemmapEntry → ℕ → Option MemmapEntry
room_entry [] bytes = none
room_entry (e ∷ es) bytes =
    let rest = room_entry es bytes in if is_usable e && leb bytes e.size then some e else rest

abbrev behind : MemmapEntry → ℕ → MemmapEntry
behind e bytes = record e { base = u64 (e.base + bytes); size = e.size - bytes }

-- The cut leaves a usable entry that begins where the bitmap ends.
carve-room :
    (es : List MemmapEntry) (bytes : ℕ) (e : MemmapEntry)
    → All Fits es
    → room_entry es bytes ≡ some e
    → (es' : List MemmapEntry) × (carve es bytes ≡ some (e.base, es'))
      × All Fits es'
      × Fits e
      × (bytes ≤ e.size)
      × ((p : ℕ) → in_region (behind e bytes) p ≡ true → is_usable_page es' p ≡ true)
unfolding carve
carve-room [] bytes e fits h = cc
carve-room (d ∷ es) bytes e fits h = elim (Bool-cases (is_usable d && leb bytes d.size)) [
  | inl here ↦
      let same : d ≡ e = ground arith in
      (
        behind d bytes ∷ es,
        rw (here, same),
        (ground arith, fits.1),
        rw (← same) fits.0,
        rw (← same) (ground arith),
        λ p r. ground arith,
      )
  | inr later ↦
      let (es', eq, fits', fit, room, r) = carve-room es bytes e fits.1 (ground arith) in
      (d ∷ es', rw (later, eq), (fits.0, fits'), fit, room, λ p i. ground (arith, r p i))
]

-- With a memory map of which no entry comes within a page of 2 ^ 64, `init_bitmap` puts the bitmap
-- at the start of a usable entry with room for it. If the bitmap does not fill its last page and
-- the entry goes on behind it, that last page, on which bytes of the bitmap stand, tests as free:
-- the allocator may hand it out.
pub init_bitmap_frees_own_page :
    (es : List MemmapEntry) (e : MemmapEntry)
    → All Fits es
    → room_entry es (bitmap_bytes es) ≡ some e
    → bitmap_bytes es < e.size
    → (e.base + bitmap_bytes es) % page_size ≢ 0
    → (e.base + bitmap_bytes es) / page_size / 8 < bitmap_bytes es
    → (s : Pmm) × (init_bitmap es ≡ some s)
      × (used s ((e.base + bitmap_bytes es) / page_size) ≡ false)
      × ((e.base + bitmap_bytes es) / page_size * page_size < e.base + bitmap_bytes es)
unfolding init_bitmap
init_bitmap_frees_own_page es e fits room more ragged inside =
    let bytes = bitmap_bytes es in
    let (es', eq, fits', fit, r₁, r) = carve-room es bytes e fits room in
    let page = (e.base + bytes) / page_size in
    let m =
      clear_usable-Marks page bytes inside es' (replicate bytes 0xff) true fits'
        (Marks-ones page bytes inside) in
    let free : is_usable_page es' page ≡ true = r page (ground arith) in
    (
      record {
        bitmap = clear_usable es' (replicate bytes 0xff);
        total_pages = u64 (count_pages es');
        used_pages = 0;
      },
      rw (eq, init_bitmap),
      m.tests ∙ rw free,
      omega arith,
    )
