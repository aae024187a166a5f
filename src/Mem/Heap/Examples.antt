-- ===== src/Mem/Heap/Examples.antt =====
-- The heap right after `heap_init`, smaller.
use hvos.Common.{
  ℕ, ◌+◌, ◌<◌, ◌≡◌, refl, ◌⊎◌, true, false, ◌||◌, none, some, List, [], ◌∷◌, arith, ◌==◌, listed,
}
use hvos.Mem.Paging.{zero_entry}
use hvos.Mem.Heap.{Heap, header_size, round_up, kmalloc, kfree, first_fit, split, mark}
use hvos.Mem.Heap.Cut.{IsValid}
use hvos.Mem.Heap.Alloc.{Allocated, kmalloc_lem, kfree_lem}

-- One free block of a page.
abbrev one_block : Heap
one_block = record {
  size = λ a. 4072;
  is_free = λ a. true;
  free_list = 0xffffa00000000000 ∷ [];
  start = 0xffffa00000000000;
  limit = 0xffffa00000001000;
  tables = record {
    entry = λ t i. zero_entry;
    pmm = record { bitmap = []; total_pages = 0; used_pages = 0 };
  };
  root = 1;
}

abbrev one : List ℕ
one = 0xffffa00000000000 ∷ []

one_block-IsValid : IsValid one_block one
one_block-IsValid = record {
  tiles = (refl, refl);
  positive = omega arith;
  fits = omega arith;
  once = (refl, tt);
  free_listed = λ b l. (l, refl);
  listed_free = λ b l f. l;
}

kmalloc_lem_example :
    ((kmalloc one_block 100 ≡ none)
      × ((b : ℕ) → listed one_block.free_list b ≡ true → one_block.size b < round_up 100))
    ⊎ ((p : ℕ) × (h' : Heap) × (bs' : List ℕ) × (kmalloc one_block 100 ≡ some (p, h'))
        × Allocated one_block one 100 p h' bs')
kmalloc_lem_example = kmalloc_lem one_block one one_block-IsValid 100 (omega arith) (omega arith)

-- The first allocation is right behind the first header.
kmalloc_first : (h : Heap) × (kmalloc one_block 100 ≡ some (0xffffa00000000018, h))
unfolding kmalloc first_fit split mark
kmalloc_first = (_, refl)

-- The same block in use.
abbrev used_block : Heap
used_block = record one_block { is_free = λ a. false; free_list = [] }

used_block-IsValid : IsValid used_block one
used_block-IsValid = record {
  tiles = (refl, refl);
  positive = omega arith;
  fits = omega arith;
  once = tt;
  free_listed = λ b l. absurd (ground arith);
  listed_free = λ b l f. absurd (ground arith);
}

kfree_lem_example :
    let h' = kfree used_block (0xffffa00000000000 + header_size) in
    IsValid h' one
    × (kfree used_block 0 ≡ used_block)
    × (used_block.is_free 0xffffa00000000000 ≡ true → h' ≡ used_block)
    × (h'.size ≡ used_block.size)
    × ((a : ℕ) → h'.is_free a ≡ (a == 0xffffa00000000000 || used_block.is_free a))
kfree_lem_example = kfree_lem used_block one used_block-IsValid 0xffffa00000000000 refl
