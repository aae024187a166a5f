-- ===== src/Fs/Descriptors/Io.antt =====
-- `sys_read` and `sys_write` of src/kernel/syscall.c and `vfs_read` of src/kernel/fs/vfs.c, on the
-- files of the tree and on the console. The buffers are not NULL, and the lock of the file is free.
pub mod Files
mod Examples
use hvos.Common.{
  ℕ, zero, suc, ◌+◌, ◌-◌, ◌*◌, ◌/◌, ◌%◌, ◌^◌, ◌≤◌, ◌<◌, bit_and, bit_or, ◌≡◌, refl, sym, ap, subst,
  ◌∙◌, ◌≢◌, ◌↔◌, ◌⊎◌, inl, inr, Bool, true, false, not, ◌&&◌, ◌||◌, Option, none, some, List, [],
  ◌∷◌, ◌++◌, map, append_assoc, append-nil, arith, ltb, leb, ◌==◌, if◌then◌else◌, Bool-cases,
  Option-cases, every, every-lem, ltb→lt, lt→ltb, le→ltb, ==→eq, ==-ne, ==_refl, u8, u16, u32, u64,
  sub64, ◌<<<◌, ◌>>>◌, length, assign, replicate, take, drop, listed, get_elem?, get_or, set, All,
  length-set, get_or-set_self, get_or-set_ne, length-append, length-replicate, All-replicate,
  get_or-replicate, All-set, All-get_or,
}
use hvos.Common.Loops.{each_from, each_from-keeps}
use hvos.Fs.Ramfs.{ramfs_write, ramfs_read}
use hvos.Fs.Vfs.{Vfs, Dentry, File, Inode, has_bit, s_ifdir}
use hvos.Fs.Descriptors.{OpenFile}
use hvos.Drivers.Video.{Screen}
use hvos.Drivers.Console.{Console, Reading, gets, sleeps, console_read, console_write}

-- What the calls of one process work on. The entry of a console's file is NULL; the operations of
-- any other file are those of its inode, which ramfs sets.
pub record IoState : Type 0 where
  pub files : Vfs
  pub table : List (Option OpenFile)
  pub screen : Screen
  pub console : Console

-- -EBADF, -1, a count with the bytes read, a reader that yields, and what reads through NULL or takes a
-- directory's data for a file's.
pub data IoResult : Type 0 where
  ebadf : IoResult
  failed : IoResult
  count : ℕ → List ℕ → IoResult
  waits : IoResult
  faults : IoResult

-- `O_RDONLY` and `O_WRONLY` of the C library's fcntl.h.
pub record Modes : Type 0 where
  pub o_rdonly : ℕ
  pub o_wronly : ℕ

abbrev pub max_files_per_process : ℕ
max_files_per_process = 32

abbrev pub max_fd : ℕ
max_fd = 16

abbrev pub inode_of : IoState → OpenFile → ℕ
inode_of m f = (m.files.dentry f.file.f_dentry).d_inode

abbrev pub is_directory : IoState → OpenFile → Bool
is_directory m f = has_bit (m.files.inode (inode_of m f)).i_mode s_ifdir

-- `*offset = pos`, for the file of the descriptor.
abbrev pub move_to : IoState → ℕ → OpenFile → ℕ → IoState
move_to m fd f pos = record m {
  table = set m.table fd (some (record f { file = record f.file { f_pos = pos } }));
}

-- `file->f_ops->write(file, buffer, size, &file->f_pos)`
unfoldable pub f_ops_write :
    (ℕ → List ℕ) → (ℕ → List ℕ) → IoState → ℕ → OpenFile → List ℕ → IoResult × IoState
f_ops_write font fresh m fd f bytes =
    if f.file.f_dentry == 0
    then (let (n, s) = console_write font m.screen bytes in (count n [], record m { screen = s }))
    else if is_directory m f
    then (faults, m)
    else (let (n, contents, pos) =
          ramfs_write fresh (m.files.inode (inode_of m f)).file bytes f.file.f_pos in
        (
          count n [],
          record (move_to m fd f pos) {
            files = record m.files {
              inode =
                  assign m.files.inode (inode_of m f)
                    (record (m.files.inode (inode_of m f)) { file = contents });
            };
          },
        ))

unfoldable pub sys_write :
    Modes → (ℕ → List ℕ) → (ℕ → List ℕ) → IoState → ℕ → List ℕ → IoResult × IoState
sys_write modes font fresh m fd bytes =
    if leb max_files_per_process fd then (ebadf, m) else (elim (get_or m.table fd none) [
      | none ↦ (ebadf, m)
      | some f ↦
          if f.f_flags % 4 == modes.o_rdonly
          then (ebadf, m)
          else f_ops_write font fresh m fd f bytes
    ])

from_console : IoState → Reading → IoResult × IoState
from_console m (gets c s) = (count 1 (c ∷ []), record m { console = s })
from_console m (sleeps s) = (waits, record m { console = s })

unfoldable pub vfs_read : IoState → ℕ → ℕ → OpenFile → ℕ → IoResult × IoState
unfolding from_console
vfs_read m channel fd f size =
    if f.file.f_dentry == 0
    then from_console m (console_read m.console channel)
    else if is_directory m f
    then (faults, m)
    else (let (n, bytes, pos) = ramfs_read (m.files.inode (inode_of m f)).file size f.file.f_pos in
        (count n bytes, move_to m fd f pos))

-- The flags of the file are read before the tests on the descriptor.
unfoldable pub sys_read : Modes → IoState → ℕ → ℕ → ℕ → IoResult × IoState
sys_read modes m channel fd size =
    if size == 0 then (failed, m) else (elim (get_or m.table fd none) [
      | none ↦ (faults, m)
      | some f ↦
          if f.f_flags % 4 == modes.o_wronly
          then (ebadf, m)
          else if leb max_fd fd
          then (failed, m)
          else vfs_read m channel fd f size
    ])
