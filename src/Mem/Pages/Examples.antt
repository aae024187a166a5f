-- ===== src/Mem/Pages/Examples.antt =====
-- Two pages for a process that has none.
use hvos.Common.{
  ℕ, zero, suc, ◌+◌, ◌*◌, ◌<◌, ◌≡◌, refl, true, Option, none, some, List, [], ◌∷◌, arith, ◌==◌,
  if◌then◌else◌,
}
use hvos.Mem.Bitmap.{bitmap_set, bitmap_test}
use hvos.Mem.Pmm.{pmm_alloc, first_clear}
use hvos.Mem.Pmm.Alloc.{used}
use hvos.Mem.Paging.{
  Tables, zero_entry, map_page, next_table, alloc_page_table, zero_table, set_entry, set_leaf,
}
use hvos.Mem.Paging.Walk.{IsTree}
use hvos.Mem.Pages.{page_size, map_frame, map_fresh, map_pages, sys_alloc_pages}
use hvos.Mem.Pages.Granted.{IsOpen, Granted}
use hvos.Mem.Pages.Grant.{stretch, sys_alloc_pages_lem}

abbrev heap_base : ℕ
heap_base = 0x10000000

abbrev new_end : ℕ
new_end = 0x10002000

-- Frame 1 is the top table.
abbrev empty : Tables
empty = record {
  entry = λ t i. zero_entry;
  pmm = record { bitmap = 3 ∷ 0 ∷ []; total_pages = 16; used_pages = 2 };
}

abbrev only_top : ℕ → Option (List ℕ)
only_top t = if t == 1 then some [] else none

top_held :
    (t : ℕ) (p : List ℕ)
    → only_top t ≡ some p
    → (t < empty.pmm.total_pages) × (used empty.pmm t ≡ true)
unfolding bitmap_test
top_held zero p h = absurd (ground arith)
top_held (suc zero) p h = (omega arith, refl)
top_held (suc (suc t)) p h = absurd (ground arith)

empty-IsTree : IsTree empty 1 only_top
empty-IsTree = record {
  top = refl;
  valid = omega arith;
  small = omega arith;
  held = top_held;
  child = λ t i p h short pr. absurd (ground arith);
}

abbrev tables_of : Option (ℕ × ℕ × Tables) → Tables
tables_of none = empty
tables_of (some r) = r.2

abbrev granted : Tables
granted = tables_of (sys_alloc_pages empty 1 0x10000000 2)

grants : sys_alloc_pages empty 1 0x10000000 2 ≡ some (0x10000000, 0x10002000, granted)
unfolding sys_alloc_pages map_pages map_fresh map_frame map_page next_table alloc_page_table
    set_leaf set_entry zero_table pmm_alloc first_clear bitmap_set bitmap_test
grants = refl

opens : IsOpen empty 1 (stretch heap_base) 2
opens k lt = refl

sys_alloc_pages_lem_example :
    (heap_base ≡ heap_base)
    × (new_end ≡ heap_base + 2 * page_size)
    × Granted empty granted 1 (stretch heap_base) 2
sys_alloc_pages_lem_example =
    sys_alloc_pages_lem heap_base 2 heap_base new_end empty-IsTree (omega arith) (omega arith) opens
      grants (λ z. omega (arith, z))
