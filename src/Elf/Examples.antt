-- ===== src/Elf/Examples.antt =====
-- A program of two segments, the second with bytes that the file does not have.
use hvos.Common.{
  ℕ, zero, suc, ◌+◌, ◌^◌, ◌≤◌, ◌<◌, ◌≡◌, refl, inl, true, Option, none, some, List, [], ◌∷◌, ◌++◌,
  arith, ◌==◌, if◌then◌else◌, get_or,
}
use hvos.Common.Loops.{each_from}
use hvos.Mem.Bitmap.{bitmap_set, bitmap_test}
use hvos.Mem.Pmm.{pmm_alloc, first_clear}
use hvos.Mem.Pmm.Alloc.{AllUsed, used}
use hvos.Mem.Paging.{
  zero_entry, map_page, next_table, alloc_page_table, zero_table, set_entry, set_leaf,
  copy_kernel_half,
}
use hvos.Mem.Paging.Walk.{IsTree}
use hvos.Elf.{
  elf_magic, Machine, pheader_at, e_phnum, e_entry, read_le, total_size, Loading, loaded, new_space,
  load_page, place_page, fill_page, load_pages, load_segment, load_segments, load_into,
  load_elf_binary,
}
use hvos.Elf.Image.{IsLoad, IsLaidOut}
use hvos.Elf.Load.{IsProgram, load_elf_binary_lem}

-- The header: magic number, entry point 0x400010, two program headers at 64.
abbrev header : List ℕ
header =
    127 ∷ 69 ∷ 76 ∷ 70 ∷ 0 ∷ 0 ∷ 0 ∷ 0 ∷ 0 ∷ 0 ∷ 0 ∷ 0 ∷ 0 ∷ 0 ∷ 0 ∷ 0 ∷ 0 ∷ 0 ∷ 0 ∷ 0 ∷ 0 ∷ 0 ∷ 0
    ∷ 0 ∷ 16 ∷ 0 ∷ 64 ∷ 0 ∷ 0 ∷ 0 ∷ 0 ∷ 0 ∷ 64 ∷ 0 ∷ 0 ∷ 0 ∷ 0 ∷ 0 ∷ 0 ∷ 0 ∷ 0 ∷ 0 ∷ 0 ∷ 0 ∷ 0 ∷ 0
    ∷ 0 ∷ 0 ∷ 0 ∷ 0 ∷ 0 ∷ 0 ∷ 0 ∷ 0 ∷ 0 ∷ 0 ∷ 2 ∷ 0 ∷ 0 ∷ 0 ∷ 0 ∷ 0 ∷ 0 ∷ 0 ∷ []

-- 4 bytes at 0x400010.
abbrev text : List ℕ
text =
    1 ∷ 0 ∷ 0 ∷ 0 ∷ 5 ∷ 0 ∷ 0 ∷ 0 ∷ 176 ∷ 0 ∷ 0 ∷ 0 ∷ 0 ∷ 0 ∷ 0 ∷ 0 ∷ 16 ∷ 0 ∷ 64 ∷ 0 ∷ 0 ∷ 0 ∷ 0
    ∷ 0 ∷ 0 ∷ 0 ∷ 0 ∷ 0 ∷ 0 ∷ 0 ∷ 0 ∷ 0 ∷ 4 ∷ 0 ∷ 0 ∷ 0 ∷ 0 ∷ 0 ∷ 0 ∷ 0 ∷ 4 ∷ 0 ∷ 0 ∷ 0 ∷ 0 ∷ 0 ∷ 0
    ∷ 0 ∷ 0 ∷ 0 ∷ 0 ∷ 0 ∷ 0 ∷ 0 ∷ 0 ∷ 0 ∷ []

-- 6 bytes at 0x402000, of which the file has 2.
abbrev bss : List ℕ
bss =
    1 ∷ 0 ∷ 0 ∷ 0 ∷ 5 ∷ 0 ∷ 0 ∷ 0 ∷ 180 ∷ 0 ∷ 0 ∷ 0 ∷ 0 ∷ 0 ∷ 0 ∷ 0 ∷ 0 ∷ 32 ∷ 64 ∷ 0 ∷ 0 ∷ 0 ∷ 0
    ∷ 0 ∷ 0 ∷ 0 ∷ 0 ∷ 0 ∷ 0 ∷ 0 ∷ 0 ∷ 0 ∷ 2 ∷ 0 ∷ 0 ∷ 0 ∷ 0 ∷ 0 ∷ 0 ∷ 0 ∷ 6 ∷ 0 ∷ 0 ∷ 0 ∷ 0 ∷ 0 ∷ 0
    ∷ 0 ∷ 0 ∷ 0 ∷ 0 ∷ 0 ∷ 0 ∷ 0 ∷ 0 ∷ 0 ∷ []

abbrev content : List ℕ
content = 144 ∷ 144 ∷ 235 ∷ 254 ∷ 7 ∷ 9 ∷ []

abbrev pub program : ℕ → ℕ
program k = get_or (header ++ (text ++ (bss ++ content))) k 0

-- Frame 1 is the kernel's table. The memory holds 0xAA.
abbrev pub machine : Machine
machine = record {
  tables = record {
    entry = λ t i. zero_entry;
    pmm = record { bitmap = 0b11 ∷ 0 ∷ 0 ∷ 0 ∷ []; total_pages = 32; used_pages = 2 };
  };
  bytes = λ a. 0xAA;
}

abbrev pub kernel_place : ℕ → Option (List ℕ)
kernel_place t = if t == 1 then some [] else none

kernel_held :
    (t : ℕ) (p : List ℕ)
    → kernel_place t ≡ some p
    → (t < machine.tables.pmm.total_pages) × (used machine.tables.pmm t ≡ true)
unfolding bitmap_test
kernel_held zero p h = absurd (ground arith)
kernel_held (suc zero) p h = (omega arith, refl)
kernel_held (suc (suc t)) p h = absurd (ground arith)

pub kernel-IsTree : IsTree machine.tables 1 kernel_place
kernel-IsTree = record {
  top = refl;
  valid = omega arith;
  small = omega arith;
  held = kernel_held;
  child = λ t i p h short pr. absurd (ground arith);
}

pub some_free : ¬ AllUsed machine.tables.pmm
unfolding bitmap_test
some_free all = absurd (ground (arith, all 2 (omega arith) (omega arith)))

pub program_fits :
    (i : ℕ)
    → i < e_phnum program
    → IsLoad (pheader_at program i)
    → (pheader_at program i).p_vaddr + (pheader_at program i).p_memsz ≤ 2 ^ 47
unfolding pheader_at read_le
program_fits zero lt load = omega arith
program_fits (suc zero) lt load = omega arith
program_fits (suc (suc i)) lt load = absurd (omega arith)

pub program-IsLaidOut : IsLaidOut program
unfolding pheader_at read_le total_size
program-IsLaidOut = record {
  fits = program_fits;
  apart = λ i j lt inside li lj.
      let e : i ≡ 0 = omega arith in let e' : j ≡ 1 = omega arith in rw (e, e') (inl (omega arith));
}

abbrev machine_of : Loading → Machine
machine_of (loaded entry root t) = t
machine_of other = machine

abbrev after : Machine
after = machine_of (load_elf_binary program 1 machine)

loads : load_elf_binary program 1 machine ≡ loaded 0x400010 2 after
unfolding load_elf_binary load_into load_segments load_segment load_pages load_page place_page
    fill_page total_size pheader_at read_le new_space copy_kernel_half map_page next_table
    alloc_page_table set_leaf set_entry zero_table pmm_alloc first_clear bitmap_set bitmap_test
    each_from
loads = refl

load_elf_binary_lem_example :
    (read_le 4 program 0 ≡ elf_magic)
    × (0x400010 ≡ e_entry program)
    × IsProgram program machine after 1 2
load_elf_binary_lem_example =
    load_elf_binary_lem machine after 1 0x400010 2 kernel-IsTree some_free program-IsLaidOut loads

-- Frame 7 is that of the second segment: tables take 3 to 5.
bss_bytes : (after.bytes 0x7001 ≡ 9) × (after.bytes 0x7002 ≡ 0)
unfolding load_elf_binary load_into load_segments load_segment load_pages load_page place_page
    fill_page total_size pheader_at read_le new_space copy_kernel_half map_page next_table
    alloc_page_table set_leaf set_entry zero_table pmm_alloc first_clear bitmap_set bitmap_test
    each_from
bss_bytes = (refl, refl)
