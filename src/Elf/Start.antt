-- ===== src/Elf/Start.antt =====
-- `create_elf_process` of src/kernel/elf.c: the stacks of a program that is loaded, and its process.
pub mod Stack
pub mod Process
mod Examples
use hvos.Common.{
  ℕ, zero, suc, ◌+◌, ◌-◌, ◌*◌, ◌/◌, ◌%◌, ◌^◌, ◌≤◌, ◌<◌, bit_and, bit_or, ◌≡◌, refl, sym, ap, subst,
  ◌∙◌, ◌≢◌, ◌↔◌, ◌⊎◌, inl, inr, Bool, true, false, not, ◌&&◌, ◌||◌, Option, none, some, List, [],
  ◌∷◌, ◌++◌, map, append_assoc, append-nil, arith, ltb, leb, ◌==◌, if◌then◌else◌, Bool-cases,
  Option-cases, every, every-lem, ltb→lt, lt→ltb, le→ltb, ==→eq, ==-ne, ==_refl, u8, u16, u32, u64,
  sub64, ◌<<<◌, ◌>>>◌, length, assign, replicate, take, drop, listed, get_elem?, get_or, set, All,
  length-set, get_or-set_self, get_or-set_ne, length-append, length-replicate, All-replicate,
  get_or-replicate, All-set, All-get_or,
}
use hvos.Common.Loops.{each_from, each_from-keeps}
use hvos.Mem.Pmm.{Pmm, pmm_alloc}
use hvos.Mem.Paging.{Tables, ◌>>=◌}
use hvos.Mem.Pages.{page_size, map_fresh}
use hvos.Proc.{System, adopt_process, usr_stack_base}
use hvos.Elf.{Machine, Loading, bad_magic, loaded, load_elf_binary}

abbrev pub num_stack_pages : ℕ
num_stack_pages = 6

abbrev pub nb_stack_page : ℕ
nb_stack_page = 4

-- The loop over the pages of the user's stack, from round `i` on.
unfoldable pub user_stack : ℕ → ℕ → ℕ → Tables → Option (Bool × Tables)
user_stack zero root i s = some (true, s)
user_stack (suc n) root i s =
    map_fresh s root (usr_stack_base - i * page_size) >>= λ (r : Bool × Tables). elim r.0 [
      | true ↦ user_stack n root (suc i) r.1
      | false ↦ some (false, r.1)
    ]

-- The loop over the pages of the kernel's stack: whether it got them all, the top, and the allocator.
-- `hhdm` is what PHYS_TO_VIRT adds.
unfoldable pub kernel_stack : ℕ → ℕ → ℕ → ℕ → Pmm → Bool × ℕ × Pmm
kernel_stack zero hhdm i top s = (true, top, s)
kernel_stack (suc n) hhdm i top s =
    let (k_page, s') = pmm_alloc s in
    let top' = if i == nb_stack_page - 1 then u64 (hhdm + k_page + page_size) else top in
    let rest = kernel_stack n hhdm (suc i) top' s' in if k_page == 0 then (false, top, s') else rest

-- NULL with what has been taken until then, the halt in `map_page`, the write through NULL, and the
-- process.
pub data Creation : Type 0 where
  fails : System → (ℕ → ℕ) → Creation
  halts : Creation
  null_write : Creation
  created : ℕ → System → (ℕ → ℕ) → Creation

-- What `new_elf_process` is given: the two allocations, and the files of the console.
pub record Given : Type 0 where
  pub process : ℕ
  pub thread : ℕ
  pub console : List ℕ

abbrev with_tables : System → Tables → System
with_tables s t = record s { cpu = record s.cpu { tables = t } }

unfoldable pub adopted : (ℕ → ℕ) → Option (ℕ × System) → Creation
adopted bytes none = null_write
adopted bytes (some (p, s)) = created p s bytes

unfoldable pub with_stacks :
    System → Given → ℕ → ℕ → ℕ → (ℕ → ℕ) → Option (Bool × Tables) → Creation
with_stacks s given hhdm entry root bytes none = halts
with_stacks s given hhdm entry root bytes (some (false, t)) = fails (with_tables s t) bytes
with_stacks s given hhdm entry root bytes (some (true, t)) =
    let (all, top, pmm) = kernel_stack num_stack_pages hhdm 0 0 t.pmm in
    let s' = with_tables s (record t { pmm = pmm }) in
    if all
    then adopted bytes
        (adopt_process s' given.process given.thread given.console entry top (root * page_size))
    else fails s' bytes

-- The part behind `load_elf_binary`, with the bytes of the memory before it.
unfoldable pub with_program : System → Given → ℕ → (ℕ → ℕ) → Loading → Creation
with_program s given hhdm bytes bad_magic = fails s bytes
with_program s given hhdm bytes Loading.halted = halts
with_program s given hhdm bytes (Loading.out_of_memory m) = fails (with_tables s m.tables) m.bytes
with_program s given hhdm bytes (loaded entry root m) =
    if entry == 0
    then fails (with_tables s m.tables) m.bytes
    else with_stacks s given hhdm entry root m.bytes (user_stack num_stack_pages root 0 m.tables)

unfoldable pub create_elf_process : System → Given → ℕ → ℕ → (ℕ → ℕ) → (ℕ → ℕ) → Creation
create_elf_process s given hhdm kernel_pml4 elf bytes =
    with_program s given hhdm bytes
      (load_elf_binary elf kernel_pml4 (record { tables = s.cpu.tables; bytes = bytes }))
