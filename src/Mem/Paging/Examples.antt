-- ===== src/Mem/Paging/Examples.antt =====
-- One page mapped below an empty top table.
use hvos.Common.{
  ℕ, zero, suc, ◌<◌, ◌≡◌, refl, ◌≢◌, true, Option, none, some, List, [], ◌∷◌, arith, ◌==◌,
  if◌then◌else◌,
}
use hvos.Mem.Bitmap.{bitmap_set, bitmap_test}
use hvos.Mem.Pmm.{pmm_alloc, first_clear}
use hvos.Mem.Pmm.Alloc.{used}
use hvos.Mem.Paging.{
  Tables, zero_entry, indices, map_page, next_table, alloc_page_table, zero_table, set_entry,
  set_leaf,
}
use hvos.Mem.Paging.Walk.{translate, IsTree}
use hvos.Mem.Paging.Map.{IsMapped, map_page_lem}

-- Frame 1 is the top table, and the only one in use.
abbrev bare : Tables
bare = record {
  entry = λ t i. zero_entry;
  pmm = record { bitmap = 0b11 ∷ 0 ∷ []; total_pages = 16; used_pages = 2 };
}

abbrev bare_place : ℕ → Option (List ℕ)
bare_place t = if t == 1 then some [] else none

bare_held :
    (t : ℕ) (p : List ℕ)
    → bare_place t ≡ some p
    → (t < bare.pmm.total_pages) × (used bare.pmm t ≡ true)
unfolding bitmap_test
bare_held zero p h = absurd (ground arith)
bare_held (suc zero) p h = (omega arith, refl)
bare_held (suc (suc t)) p h = absurd (ground arith)

bare-IsTree : IsTree bare 1 bare_place
bare-IsTree = record {
  top = refl;
  valid = omega arith;
  small = omega arith;
  held = bare_held;
  child = λ t i p h short pr. absurd (ground arith);
}

abbrev some_or {ℓ} : {A : Type ℓ} → Option A → A → A
some_or none d = d
some_or (some a) d = a

abbrev mapped : Tables
mapped = some_or (map_page bare 1 0x400000 0x9000 6) bare

maps : map_page bare 1 0x400000 0x9000 6 ≡ some mapped
unfolding map_page next_table alloc_page_table set_leaf set_entry zero_table pmm_alloc first_clear
    bitmap_set bitmap_test
maps = refl

map_page_lem_example :
    (place' : ℕ → Option (List ℕ)) × IsTree mapped 1 place'
    × IsMapped 0x9000 6 (translate mapped 1 0x400000)
    × ((w : ℕ) → indices w ≢ indices 0x400000 → translate mapped 1 w ≡ translate bare 1 w)
map_page_lem_example = map_page_lem 1 0x400000 0x9000 6 bare-IsTree maps
