-- ===== src/Mem/Heap.antt =====
-- src/kernel/mem/kmalloc.c and heap.c: the kernel's heap. A block is named by the address of its
-- header, and `size` and `is_free` are the fields of the headers; the free list is the list of
-- its blocks, the head first. Each function runs under `kmalloc_lock`, so it is one step.
pub mod Chain
pub mod Cut
pub mod Alloc
mod Examples
use hvos.Common.{
  ℕ, zero, suc, ◌+◌, ◌-◌, ◌*◌, ◌/◌, ◌%◌, ◌^◌, ◌≤◌, ◌<◌, bit_and, bit_or, ◌≡◌, refl, sym, ap, subst,
  ◌∙◌, ◌≢◌, ◌↔◌, ◌⊎◌, inl, inr, Bool, true, false, not, ◌&&◌, ◌||◌, Option, none, some, List, [],
  ◌∷◌, ◌++◌, map, arith, ltb, leb, ◌==◌, if◌then◌else◌, Bool-cases, Option-cases, every, every-lem,
  ltb→lt, lt→ltb, le→ltb, ==→eq, ==-ne, ==_refl, u8, u16, u32, u64, sub64, ◌<<<◌, ◌>>>◌, length,
  replicate, take, drop, listed, get_elem?, get_or, set, All, length-set, get_or-set_self,
  get_or-set_ne, length-append, length-replicate, All-replicate, get_or-replicate, All-set,
  All-get_or,
}
use hvos.Common.Loops.{each_from, each_from-keeps}
use hvos.Mem.Pmm.{pmm_alloc}
use hvos.Mem.Paging.{Tables, map_page, ◌>>=◌}

abbrev pub header_size : ℕ
header_size = 24

-- `root` is the frame of the kernel's top table.
pub record Heap : Type 0 where
  pub size : ℕ → ℕ
  pub is_free : ℕ → Bool
  pub free_list : List ℕ
  pub start : ℕ
  pub limit : ℕ
  pub tables : Tables
  pub root : ℕ

-- The loop of `heap_expand`: `none` is its result -1, or the halt of `map_page`.
unfoldable pub expand_pages : ℕ → Tables → ℕ → ℕ → Option (Tables × ℕ)
expand_pages zero s root limit = some (s, limit)
expand_pages (suc n) s root limit =
    let (phys, pmm) = pmm_alloc s.pmm in
    if phys == 0
    then none
    else (map_page (record s { pmm = pmm }) root limit phys 3
        >>= (λ s'. expand_pages n s' root (u64 (limit + 4096))))

abbrev pub heap_expand : Heap → ℕ → Option (Tables × ℕ)
heap_expand h size_needed =
    expand_pages (u64 (size_needed + header_size + 4095) / 4096) h.tables h.root h.limit

-- The first block of the free list with room, and the list without it.
unfoldable pub first_fit : (ℕ → ℕ) → List ℕ → ℕ → Option (ℕ × List ℕ)
first_fit size [] n = none
first_fit size (b ∷ bs) n =
    let rest = first_fit size bs n in
    if leb n (size b)
    then some (b, bs)
    else elim rest [ none ↦ none | some (c, cs) ↦ some (c, b ∷ cs) ]

-- What is left of a block behind its first `n` bytes becomes a free block if it has room for one.
unfoldable pub split : Heap → ℕ → ℕ → Heap
split h b n =
    let next_block = u64 (b + header_size + n) in
    if leb (u64 (n + header_size + 16)) (h.size b)
    then record h {
      size = λ a.
          if a == b then n else if a == next_block then h.size b - n - header_size else h.size a;
      is_free = λ a. if a == next_block then true else h.is_free a;
      free_list = next_block ∷ h.free_list;
    }
    else h

unfoldable pub mark : Heap → ℕ → Bool → Heap
mark h b free = record h { is_free = λ a. if a == b then free else h.is_free a }

-- The header of the block that the expansion has made room for.
unfoldable pub new_block : Heap → Tables → ℕ → Heap
new_block h tables limit =
    mark
      (record h {
        size = λ a. if a == h.limit then limit - h.limit - header_size else h.size a;
        limit = limit;
        tables = tables;
      })
      h.limit false

-- `(size + 15) & ~15`
abbrev pub round_up : ℕ → ℕ
round_up size = u64 (size + 15) / 16 * 16

-- The address is 0 for NULL; `none` is the panic for want of memory.
unfoldable pub kmalloc : Heap → ℕ → Option (ℕ × Heap)
kmalloc h size =
    let n = round_up size in
    if size == 0 then some (0, h) else elim (first_fit h.size h.free_list n) [
      | some (b, bs) ↦
          some (u64 (b + header_size), mark (split (record h { free_list = bs }) b n) b false)
      | none ↦ elim (heap_expand h (u64 (n + header_size))) [
        | none ↦ none
        | some (tables, limit) ↦
            some (u64 (h.limit + header_size), split (new_block h tables limit) h.limit n)
      ]
    ]

unfoldable pub kfree : Heap → ℕ → Heap
kfree h ptr =
    let b = sub64 ptr header_size in
    if ptr == 0 || h.is_free b then h else record (mark h b true) { free_list = b ∷ h.free_list }
