-- ===== src/Elf/Load.antt =====
-- What `load_elf_binary` returns.
use hvos.Common.{
  ℕ, ◌+◌, ◌<◌, ◌≡◌, sym, subst, ◌∙◌, inl, inr, false, Option, List, arith, ◌==◌, Bool-cases, ==→eq,
}
use hvos.Mem.Pmm.Alloc.{used, AllUsed, pmm_alloc_lem}
use hvos.Mem.Paging.{Tables}
use hvos.Mem.Paging.Walk.{translate, IsTree}
use hvos.Elf.{
  elf_magic, Machine, pheader_at, e_phnum, e_entry, read_le, going, loaded, new_space,
  load_segments, load_into, load_elf_binary,
}
use hvos.Elf.Page.{IsOpenHalf, IsKernel, Shows}
use hvos.Elf.Segment.{image_byte}
use hvos.Elf.Image.{IsLoad, IsLaidOut, load_segments-Image}
use hvos.Elf.Space.{space, space-IsTree, space-IsOpenHalf, space-kernel_half, new_space-space}

load_into-loaded :
    (elf : ℕ → ℕ) (root entry pml4 : ℕ) (m t : Machine)
    → load_into elf root m ≡ loaded entry pml4 t
    → (load_segments elf root (e_phnum elf) 0 m ≡ going t) × (entry ≡ e_entry elf) × (pml4 ≡ root)
unfolding load_into
load_into-loaded elf root entry pml4 m t h = ground arith

load_elf_binary-loaded :
    (elf : ℕ → ℕ) (kernel p entry root : ℕ) (m t : Machine) (tables : Tables)
    → new_space m.tables kernel ≡ (p, tables)
    → load_elf_binary elf kernel m ≡ loaded entry root t
    → (read_le 4 elf 0 ≡ elf_magic)
      × (load_into elf p (record m { tables = tables }) ≡ loaded entry root t)
unfolding load_elf_binary
load_elf_binary-loaded elf kernel p entry root m t tables e h =
    elim (Bool-cases (read_le 4 elf 0 == elf_magic)) [
      | inr bad ↦ absurd (ground arith)
      | inl magic ↦ (==→eq (read_le 4 elf 0) elf_magic magic, (rw (magic, e) at h))
    ]

-- The address space at `root` is the program's: its tables form a tree, user code finds every byte of
-- every segment at its address, the file's bytes first and zeros behind them, and the kernel's half
-- translates as the kernel's own tables do. The root was a free frame.
pub record IsProgram (elf : ℕ → ℕ) (m t : Machine) (kernel root : ℕ) : Type 0 where
  pub was_free : used m.tables.pmm root ≡ false
  pub place' : ℕ → Option (List ℕ)
  pub tree : IsTree t.tables root place'
  pub opens : IsOpenHalf t.tables root
  pub shows :
      (i k : ℕ)
      → i < e_phnum elf
      → IsLoad (pheader_at elf i)
      → k < (pheader_at elf i).p_memsz
      → Shows t root ((pheader_at elf i).p_vaddr + k) (image_byte elf (pheader_at elf i) k)
  pub kernel_half : (w : ℕ) → IsKernel w → translate t.tables root w ≡ translate m.tables kernel w

-- Let the kernel's tables form a tree, a frame be free, and the program's segments to load lie in
-- the lower half with no page in common. If `load_elf_binary` does not fail, the file has the magic
-- number, and the results are the entry point of its header and a new address space, whose tables
-- form a tree: user code finds every byte of every segment at its address there, the file's bytes
-- first and zeros behind them; and the kernel's half translates as the kernel's own tables do.
pub load_elf_binary_lem :
    {elf : ℕ → ℕ} (m t : Machine) {place : ℕ → Option (List ℕ)} (kernel entry root : ℕ)
    → IsTree m.tables kernel place
    → ¬ AllUsed m.tables.pmm
    → IsLaidOut elf
    → load_elf_binary elf kernel m ≡ loaded entry root t
    → (read_le 4 elf 0 ≡ elf_magic) × (entry ≡ e_entry elf) × IsProgram elf m t kernel root
load_elf_binary_lem {elf} m t kernel entry root tree free laid h =
    elim (pmm_alloc_lem m.tables.pmm tree.valid) [
      | inr (full, e) ↦ absurd (free full)
      | inl (p, takes) ↦
          let (magic, into) =
            load_elf_binary-loaded elf kernel p entry root m t (space tree takes)
              (new_space-space tree takes) h in
          let (segments, is_entry, is_root) =
            load_into-loaded elf p entry root (record m { tables = space tree takes }) t into in
          let image =
            load_segments-Image laid (e_phnum elf) 0 (omega arith) (space-IsTree tree takes)
              (space-IsOpenHalf tree takes) segments in
          (
            magic,
            is_entry,
            subst (IsProgram elf m t kernel) (sym is_root) (record {
              was_free = takes.was_free;
              place' = image.place';
              tree = image.tree;
              opens = image.opens;
              shows = λ i k lt load small. image.shows i k (omega arith) lt load small;
              kernel_half = λ w is. image.kernel_half w is ∙ space-kernel_half tree takes w is;
            }),
          )
    ]
