-- ===== src/Mem/Pages.antt =====
-- `sys_alloc_pages` of src/kernel/syscall.c: pages for the heap of a process, each a new frame that is
-- mapped for user code. `root` is the frame of the process's top table, its `cr3`.
pub mod Frames
pub mod Granted
pub mod Grant
mod Examples
use hvos.Common.{
  ℕ, zero, suc, ◌+◌, ◌-◌, ◌*◌, ◌/◌, ◌%◌, ◌^◌, ◌≤◌, ◌<◌, bit_and, bit_or, ◌≡◌, refl, sym, ap, subst,
  ◌∙◌, ◌≢◌, ◌↔◌, ◌⊎◌, inl, inr, Bool, true, false, not, ◌&&◌, ◌||◌, Option, none, some, List, [],
  ◌∷◌, ◌++◌, map, append_assoc, append-nil, arith, ltb, leb, ◌==◌, if◌then◌else◌, Bool-cases,
  Option-cases, every, every-lem, ltb→lt, lt→ltb, le→ltb, ==→eq, ==-ne, ==_refl, u8, u16, u32, u64,
  sub64, ◌<<<◌, ◌>>>◌, length, assign, replicate, take, drop, listed, get_elem?, get_or, set, All,
  length-set, get_or-set_self, get_or-set_ne, length-append, length-replicate, All-replicate,
  get_or-replicate, All-set, All-get_or,
}
use hvos.Common.Loops.{each_from, each_from-keeps}
use hvos.Mem.Pmm.{pmm_alloc}
use hvos.Mem.Paging.{Tables, map_page, ◌>>=◌}

abbrev pub page_size : ℕ
page_size = 4096

-- `PTE_PRESENT | PTE_WRITABLE | PTE_USER`
abbrev pub user_flags : ℕ
user_flags = 7

-- `map_page` of the frame that `pmm_alloc` has given, if it has given one; `false` for NULL.
unfoldable pub map_frame : ℕ → ℕ → ℕ × Tables → Option (Bool × Tables)
map_frame root va (phys_page, s) =
    if phys_page == 0
    then some (false, s)
    else (map_page s root va phys_page user_flags >>= λ t. some (true, t))

-- A round of the loop; `none` is the halt in `map_page`.
unfoldable pub map_fresh : Tables → ℕ → ℕ → Option (Bool × Tables)
map_fresh s root va =
    let (phys_page, pmm) = pmm_alloc s.pmm in map_frame root va (phys_page, record s { pmm = pmm })

-- The loop, for the pages from `va` on; it ends early when no page is left.
unfoldable pub map_pages : ℕ → ℕ → ℕ → Tables → Option (Bool × Tables)
map_pages zero root va s = some (true, s)
map_pages (suc n) root va s = map_fresh s root va >>= λ (r : Bool × Tables). elim r.0 [
  | true ↦ map_pages n root (va + page_size) r.1
  | false ↦ some (false, r.1)
]

-- The result, the process's `heap_end` and the tables. The product is one of 32 bits.
unfoldable pub sys_alloc_pages : Tables → ℕ → ℕ → ℕ → Option (ℕ × ℕ × Tables)
sys_alloc_pages s root heap_end pages =
    if pages == 0
    then some (0, heap_end, s)
    else (map_pages pages root heap_end s >>= λ (r : Bool × Tables).
        if r.0
        then some (heap_end, heap_end + u32 (pages * page_size), r.1)
        else some (0, heap_end, r.1))
