-- ===== src/Elf.antt =====
-- src/kernel/elf.c with src/include/kernel/elf.h: a program's segments are loaded into a new
-- address space.
pub mod Page
pub mod Segment
pub mod Image
pub mod Space
pub mod Load
pub mod Start
mod Examples
use hvos.Common.{
  ℕ, zero, suc, ◌+◌, ◌-◌, ◌*◌, ◌/◌, ◌%◌, ◌^◌, ◌≤◌, ◌<◌, bit_and, bit_or, ◌≡◌, refl, sym, ap, subst,
  ◌∙◌, ◌≢◌, ◌↔◌, ◌⊎◌, inl, inr, Bool, true, false, not, ◌&&◌, ◌||◌, Option, none, some, List, [],
  ◌∷◌, ◌++◌, map, append_assoc, append-nil, arith, ltb, leb, ◌==◌, if◌then◌else◌, Bool-cases,
  Option-cases, every, every-lem, ltb→lt, lt→ltb, le→ltb, ==→eq, ==-ne, ==_refl, u8, u16, u32, u64,
  sub64, ◌<<<◌, ◌>>>◌, length, assign, replicate, take, drop, listed, get_elem?, get_or, set, All,
  length-set, get_or-set_self, get_or-set_ne, length-append, length-replicate, All-replicate,
  get_or-replicate, All-set, All-get_or,
}
use hvos.Common.Loops.{each_from, each_from-keeps}
use hvos.Mem.Pmm.{pmm_alloc}
use hvos.Mem.Paging.{Tables, map_page, zero_table, copy_kernel_half}

abbrev pub page_size : ℕ
page_size = 4096

-- `PTE_PRESENT | PTE_WRITABLE | PTE_USER`
abbrev pub user_flags : ℕ
user_flags = 7

abbrev pub elf_magic : ℕ
elf_magic = 0x464C457F

abbrev pub pt_load : ℕ
pt_load = 1

-- The page tables with the allocator, and the bytes of the physical memory that the direct map
-- reaches, by address. A frame that holds a table is read by its entries only.
pub record Machine : Type 0 where
  pub tables : Tables
  pub bytes : ℕ → ℕ

-- The fields of `elf64_pheader_t` that the loader reads.
pub record Pheader : Type 0 where
  pub p_type : ℕ
  pub p_offset : ℕ
  pub p_vaddr : ℕ
  pub p_filesz : ℕ
  pub p_memsz : ℕ

-- A little-endian number of `n` bytes. The buffer is a function, as nothing tests that a read is
-- inside of the file: past it lies what the heap has there.
unfoldable pub read_le : ℕ → (ℕ → ℕ) → ℕ → ℕ
read_le zero elf at = 0
read_le (suc n) elf at = elf at + 256 * read_le n elf (at + 1)

abbrev pub e_entry : (ℕ → ℕ) → ℕ
e_entry elf = read_le 8 elf 24

abbrev pub e_phoff : (ℕ → ℕ) → ℕ
e_phoff elf = read_le 8 elf 32

abbrev pub e_phnum : (ℕ → ℕ) → ℕ
e_phnum elf = read_le 2 elf 56

-- `pheaders[i]`, of 56 bytes.
unfoldable pub pheader_at : (ℕ → ℕ) → ℕ → Pheader
pheader_at elf i =
    let at = e_phoff elf + 56 * i in
    record {
      p_type = read_le 4 elf at;
      p_offset = read_le 8 elf (at + 8);
      p_vaddr = read_le 8 elf (at + 16);
      p_filesz = read_le 8 elf (at + 32);
      p_memsz = read_le 8 elf (at + 40);
    }

abbrev pub page_offset : Pheader → ℕ
page_offset ph = ph.p_vaddr % page_size

abbrev pub vaddr_page : Pheader → ℕ
vaddr_page ph = ph.p_vaddr - page_offset ph

unfoldable pub total_size : Pheader → ℕ
total_size ph =
    let total = u64 (ph.p_memsz + page_offset ph) in
    if total % page_size == 0 then total else u64 ((total / page_size + 1) * page_size)

abbrev memcpy : (ℕ → ℕ) → ℕ → (ℕ → ℕ) → ℕ → ℕ → ℕ
memcpy bytes dest src n a = if leb dest a && ltb a (dest + n) then src (a - dest) else bytes a

abbrev memset : (ℕ → ℕ) → ℕ → ℕ → ℕ → ℕ → ℕ
memset bytes dest value n a = if leb dest a && ltb a (dest + n) then value else bytes a

-- The range of bytes that the page at `off` covers: where it starts in the page and in the segment.
abbrev pub dest_page_offset : Pheader → ℕ → ℕ
dest_page_offset ph off = if off == 0 then page_offset ph else 0

abbrev pub file_read_offset : Pheader → ℕ → ℕ
file_read_offset ph off = if off == 0 then 0 else off - page_offset ph

abbrev pub byte_to_copy : Pheader → ℕ → ℕ
byte_to_copy ph off =
    let left = ph.p_filesz - file_read_offset ph off in
    let room = page_size - dest_page_offset ph off in if ltb room left then room else left

-- The part of the page that the file has, copied to `phys_frame`, and zeros behind it.
unfoldable pub fill_page : (ℕ → ℕ) → Pheader → ℕ → ℕ → (ℕ → ℕ) → ℕ → ℕ
fill_page elf ph off phys_frame bytes a =
    let from = dest_page_offset ph off in
    let at = file_read_offset ph off in
    let n = byte_to_copy ph off in
    let in_file = ltb at ph.p_filesz in
    let copied = λ (b : ℕ).
      if in_file
      then memcpy bytes (phys_frame + from) (λ k. elf (ph.p_offset + at + k)) n b
      else bytes b in
    let bytes_copied = if in_file then n + from else from in
    if ltb bytes_copied page_size
    then memset copied (phys_frame + bytes_copied) 0 (page_size - bytes_copied) a
    else copied a

-- What a loop comes to: `halted` in `map_page` for want of memory for a table, or a return for
-- want of a frame.
pub data Progress : Type 0 where
  halted : Progress
  out_of_memory : Machine → Progress
  going : Machine → Progress

infixl 5 ◌>>=◌
abbrev pub ◌>>=◌ : Progress → (Machine → Progress) → Progress
halted >>= f = halted
out_of_memory m >>= f = out_of_memory m
going m >>= f = f m

-- `map_page` of the frame that `pmm_alloc` has given, and its bytes.
unfoldable pub place_page : (ℕ → ℕ) → Pheader → ℕ → ℕ → (ℕ → ℕ) → ℕ × Tables → Progress
place_page elf ph root off bytes (phys_frame, s) =
    if phys_frame == 0
    then out_of_memory (record { tables = s; bytes = bytes })
    else elim (map_page s root (u64 (vaddr_page ph + off)) phys_frame user_flags) [
      | none ↦ halted
      | some t ↦ going (record { tables = t; bytes = fill_page elf ph off phys_frame bytes })
    ]

unfoldable pub load_page : (ℕ → ℕ) → Pheader → ℕ → ℕ → Machine → Progress
load_page elf ph root off m =
    let (phys_frame, pmm) = pmm_alloc m.tables.pmm in
    place_page elf ph root off m.bytes (phys_frame, record m.tables { pmm = pmm })

-- The pages of a segment from `off` on. Their number is `total_size` by pages, since `off` goes up
-- by a page to `total_size`, which is a multiple.
unfoldable pub load_pages : (ℕ → ℕ) → Pheader → ℕ → ℕ → ℕ → Machine → Progress
load_pages elf ph root zero off m = going m
load_pages elf ph root (suc n) off m =
    load_page elf ph root off m >>= load_pages elf ph root n (off + page_size)

unfoldable pub load_segment : (ℕ → ℕ) → ℕ → Pheader → Machine → Progress
load_segment elf root ph m =
    if ph.p_type == pt_load then load_pages elf ph root (total_size ph / page_size) 0 m else going m

-- The program headers from `i` on, `n` of them.
unfoldable pub load_segments : (ℕ → ℕ) → ℕ → ℕ → ℕ → Machine → Progress
load_segments elf root zero i m = going m
load_segments elf root (suc n) i m =
    load_segment elf root (pheader_at elf i) m >>= load_segments elf root n (suc i)

-- The new top table with the kernel's half: its frame, and the tables. The address that `pmm_alloc`
-- returns is not tested, so without a free page this is frame 0.
unfoldable pub new_space : Tables → ℕ → ℕ × Tables
new_space s kernel_pml4 =
    let (pml4_phys, pmm) = pmm_alloc s.pmm in
    let root = pml4_phys / page_size in
    (root, copy_kernel_half (zero_table (record s { pmm = pmm }) root) root kernel_pml4)

-- `load_elf_binary` returns 0 in the first three cases; only `bad_magic` frees the buffer. In the
-- last one it returns the entry point, and `*out_pml4_phys` is the root's address.
pub data Loading : Type 0 where
  bad_magic : Loading
  halted : Loading
  out_of_memory : Machine → Loading
  loaded : ℕ → ℕ → Machine → Loading

unfoldable pub load_into : (ℕ → ℕ) → ℕ → Machine → Loading
load_into elf root m = elim (load_segments elf root (e_phnum elf) 0 m) [
  | halted ↦ Loading.halted
  | out_of_memory m' ↦ Loading.out_of_memory m'
  | going m' ↦ loaded (e_entry elf) root m'
]

unfoldable pub load_elf_binary : (ℕ → ℕ) → ℕ → Machine → Loading
load_elf_binary elf kernel_pml4 m =
    let space = new_space m.tables kernel_pml4 in
    if read_le 4 elf 0 == elf_magic
    then load_into elf space.0 (record m { tables = space.1 })
    else bad_magic
