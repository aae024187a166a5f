-- ===== src/Fs/Descriptors.antt =====
-- `sys_open` of src/kernel/syscall.c, on the table of open files of the process that calls. `kmalloc`
-- halts the kernel rather than return NULL, so the result -ENOMEM does not arise.
pub mod Opening
pub mod Io
mod Examples
use hvos.Common.{
  ℕ, zero, suc, ◌+◌, ◌-◌, ◌*◌, ◌/◌, ◌%◌, ◌^◌, ◌≤◌, ◌<◌, bit_and, bit_or, ◌≡◌, refl, sym, ap, subst,
  ◌∙◌, ◌≢◌, ◌↔◌, ◌⊎◌, inl, inr, Bool, true, false, not, ◌&&◌, ◌||◌, Option, none, some, List, [],
  ◌∷◌, ◌++◌, map, append_assoc, append-nil, arith, ltb, leb, ◌==◌, if◌then◌else◌, Bool-cases,
  Option-cases, every, every-lem, ltb→lt, lt→ltb, le→ltb, ==→eq, ==-ne, ==_refl, u8, u16, u32, u64,
  sub64, ◌<<<◌, ◌>>>◌, length, assign, replicate, take, drop, listed, get_elem?, get_or, set, All,
  length-set, get_or-set_self, get_or-set_ne, length-append, length-replicate, All-replicate,
  get_or-replicate, All-set, All-get_or,
}
use hvos.Common.Loops.{each_from, each_from-keeps}
use hvos.Fs.Path.{slash}
use hvos.Fs.Vfs.{Vfs, Dentry, File, vfs_lookup}

-- `struct file` with its flags.
pub record OpenFile : Type 0 where
  pub file : File
  pub f_flags : ℕ

-- What the call returns: a descriptor, -1, -EMFILE or -ENOENT.
pub data OpenResult : Type 0 where
  descriptor : ℕ → OpenResult
  no_root : OpenResult
  emfile : OpenResult
  enoent : OpenResult

-- The loop over `file_table`, from index `i` on.
unfoldable pub first_null : ℕ → List (Option OpenFile) → Option ℕ
first_null i [] = none
first_null i (none ∷ files) = some i
first_null i (some f ∷ files) = first_null (i + 1) files

-- `if (path[0] == '/') path++;`
unfoldable pub skip_first : List ℕ → List ℕ
skip_first [] = []
skip_first (c ∷ cs) = if c == slash then cs else c ∷ cs

-- The part behind the search for a descriptor.
unfoldable pub open_at :
    Vfs → List (Option OpenFile) → List ℕ → ℕ → ℕ → OpenResult × List (Option OpenFile) × Vfs
open_at v table path flags fd =
    let (d, v') = vfs_lookup v path in
    if d == 0 || (v'.dentry d).d_inode == 0 then (OpenResult.enoent, table, v') else (
      OpenResult.descriptor fd,
      set table fd (some (record { file = record { f_dentry = d; f_pos = 0 }; f_flags = flags })),
      v',
    )

-- The result, the table of the process, and the file system; `path` is not NULL.
unfoldable pub sys_open :
    Vfs → List (Option OpenFile) → List ℕ → ℕ → OpenResult × List (Option OpenFile) × Vfs
sys_open v table path flags =
    if v.root_dentry == 0 then (OpenResult.no_root, table, v) else (elim (first_null 0 table) [
      | none ↦ (OpenResult.emfile, table, v)
      | some fd ↦ open_at v table (skip_first path) flags fd
    ])
