-- ===== src/Fs/Descriptors/Io/Files.antt =====
-- Reads and writes of files of the tree.
use hvos.Common.{
  ℕ, zero, suc, ◌+◌, ◌%◌, ◌≤◌, ◌<◌, ◌≡◌, refl, sym, ap, ◌∙◌, ◌≢◌, false, Option, none, some, List,
  [], ◌∷◌, ◌++◌, arith, leb, ◌==◌, ==-ne, ==_refl, length, assign, get_or, set, get_or-set_self,
  get_or-set_ne, length-append,
}
use hvos.Fs.Ramfs.{FileData, ramfs_write, ramfs_read}
use hvos.Fs.Ramfs.Content.{IsValid, ramfs_write_lem}
use hvos.Fs.Ramfs.Sequence.{SameFile, write-write, read_start}
use hvos.Fs.Descriptors.{OpenFile}
use hvos.Fs.Descriptors.Io.{
  IoState, IoResult, Modes, max_files_per_process, max_fd, inode_of, is_directory, move_to,
  f_ops_write, sys_write, vfs_read, sys_read,
}

abbrev pub data_of : IoState → OpenFile → FileData
data_of m f = (m.files.inode (inode_of m f)).file

-- The descriptor is open, for a file of the tree.
pub record IsFile (m : IoState) (fd : ℕ) (f : OpenFile) : Type 0 where
  pub in_table : get_or m.table fd none ≡ some f
  pub on_tree : (f.file.f_dentry == 0) ≡ false
  pub regular : is_directory m f ≡ false
  pub valid : IsValid (data_of m f)

abbrev moved : OpenFile → ℕ → OpenFile
moved f pos = record f { file = record f.file { f_pos = pos } }

abbrev store : IoState → OpenFile → FileData → IoState
store m f contents = record m {
  files = record m.files {
    inode =
        assign m.files.inode (inode_of m f)
          (record (m.files.inode (inode_of m f)) { file = contents });
  };
}

in_range {ℓ} :
    {A : Type ℓ} (xs : List (Option A)) (i : ℕ) {a : A} → get_or xs i none ≡ some a → i < length xs
in_range [] i e = ground arith
in_range (x ∷ xs) zero e = omega arith
in_range (x ∷ xs) (suc i) e = omega (arith, in_range xs i e)

module _ (modes : Modes) (font fresh : ℕ → List ℕ) (given : (n : ℕ) → length (fresh n) ≡ n) where
  sys_write-file :
      (m : IoState) (fd : ℕ) (f : OpenFile) (bytes : List ℕ)
      → IsFile m fd f
      → fd < max_files_per_process
      → (f.f_flags % 4 == modes.o_rdonly) ≡ false
      → sys_write modes font fresh m fd bytes ≡ (
        IoResult.count (length bytes) [],
        move_to
            (store m f (ramfs_write fresh (data_of m f) bytes f.file.f_pos).1)
            fd
            f
            (f.file.f_pos + length bytes),
      )
  unfolding sys_write f_ops_write ramfs_write
  sys_write-file m fd f bytes o few writes =
      let low : leb max_files_per_process fd ≡ false = ground arith in
      rw (low, o.in_table, writes, o.on_tree, o.regular) refl

sys_read-file :
    (modes : Modes) (m : IoState) (fd : ℕ) (f : OpenFile) (size channel : ℕ)
    → IsFile m fd f
    → fd < max_fd
    → (f.f_flags % 4 == modes.o_wronly) ≡ false
    → 0 < size
    → let read = ramfs_read (data_of m f) size f.file.f_pos in
      sys_read modes m channel fd size ≡ (IoResult.count read.0 read.1, move_to m fd f read.2)
unfolding sys_read vfs_read
sys_read-file modes m fd f size channel o few reads asks =
    let low : leb max_fd fd ≡ false = ground arith in
    let some_ : (size == 0) ≡ false = ground arith in
    rw (some_, o.in_table, reads, low, o.on_tree, o.regular) refl

set_twice {ℓ} : {A : Type ℓ} (xs : List A) (i : ℕ) (a b : A) → set (set xs i a) i b ≡ set xs i b
set_twice [] i a b = refl
set_twice (x ∷ xs) zero a b = refl
set_twice (x ∷ xs) (suc i) a b = ap (λ r. x ∷ r) (set_twice xs i a b)

abbrev after : (ℕ → List ℕ) → IoState → ℕ → OpenFile → List ℕ → IoState
after fresh m fd f bytes =
    move_to (store m f (ramfs_write fresh (data_of m f) bytes f.file.f_pos).1) fd f
      (f.file.f_pos + length bytes)

module _ (fresh : ℕ → List ℕ) (given : (n : ℕ) → length (fresh n) ≡ n) (m : IoState) (fd : ℕ)
    (f : OpenFile) (bytes : List ℕ) (o : IsFile m fd f) where
  written-IsValid : IsValid (ramfs_write fresh (data_of m f) bytes f.file.f_pos).1
  written-IsValid = (ramfs_write_lem fresh (data_of m f) bytes f.file.f_pos given o.valid).1

  after-IsFile : IsFile (after fresh m fd f bytes) fd (moved f (f.file.f_pos + length bytes))
  after-IsFile = record {
    in_table = get_or-set_self m.table fd _ none (in_range m.table fd o.in_table);
    on_tree = o.on_tree;
    regular = rw (==_refl (inode_of m f)) o.regular;
    valid = rw (data_of, ==_refl (inode_of m f)) written-IsValid;
  }

  -- Another descriptor of the same file.
  after-shared :
      (other : ℕ) (g : OpenFile)
      → other ≢ fd
      → IsFile m other g
      → inode_of m g ≡ inode_of m f
      → IsFile (after fresh m fd f bytes) other g
  after-shared other g differ og same = record {
    in_table = get_or-set_ne m.table fd other _ none (λ e. differ (sym e)) ∙ og.in_table;
    on_tree = og.on_tree;
    regular = rw (same, ==_refl (inode_of m f)) o.regular;
    valid = rw (data_of, same, ==_refl (inode_of m f)) written-IsValid;
  }

module _ (modes : Modes) (font fresh : ℕ → List ℕ) (given : (n : ℕ) → length (fresh n) ≡ n)
    (m : IoState) (fd : ℕ) (f : OpenFile) (o : IsFile m fd f) (few : fd < max_files_per_process)
    (writes : (f.f_flags % 4 == modes.o_rdonly) ≡ false) where
  -- For a valid file of the tree, open for writing at a descriptor below 32, at a position within
  -- the file or at its end: two writes one after the other return the counts of their bytes, and
  -- leave the table of the process and the file, its size and every byte of it, as one write of
  -- both texts does; no other file changes.
  pub sys_write-sys_write :
      (a b : List ℕ)
      → f.file.f_pos ≤ (data_of m f).i_size
      → let one = sys_write modes font fresh m fd a in
        let two = sys_write modes font fresh one.1 fd b in
        let once = sys_write modes font fresh m fd (a ++ b) in
        (one.0 ≡ IoResult.count (length a) [])
        × (two.0 ≡ IoResult.count (length b) [])
        × (once.0 ≡ IoResult.count (length a + length b) [])
        × (two.1.table ≡ once.1.table)
        × SameFile (data_of two.1 f) (data_of once.1 f)
        × ((j : ℕ) → j ≢ inode_of m f → two.1.files.inode j ≡ m.files.inode j)
  sys_write-sys_write a b within =
      let g = moved f (f.file.f_pos + length a) in
      let here = ==_refl (inode_of m f) in
      let total = length-append a b in
      let first = sys_write-file modes font fresh given m fd f a o few writes in
      let second =
        sys_write-file modes font fresh given (after fresh m fd f a) fd g b
          (after-IsFile fresh given m fd f a o) few writes in
      let once = sys_write-file modes font fresh given m fd f (a ++ b) o few writes in
      rw (first, second, once)
        (
          refl,
          refl,
          ap (λ n. IoResult.count n []) total,
          set_twice m.table fd _ _
              ∙ ap (λ p. set m.table fd (some (moved f p))) (omega (arith, total)),
          rw (data_of, here)
              (write-write fresh given (data_of m f) a b f.file.f_pos o.valid within),
          λ j other. rw (==-ne (inode_of m f) j (λ e. other (sym e))) refl,
        )

  -- For a valid file of the tree that is open for writing at a descriptor below 32 and for reading
  -- at another one below 16, both at the start of the file: a read through the second, of as many
  -- bytes as were written through the first, at least one, returns just those bytes.
  pub sys_read-sys_write :
      (bytes : List ℕ) (other : ℕ) (g : OpenFile) (channel : ℕ)
      → other ≢ fd
      → IsFile m other g
      → inode_of m g ≡ inode_of m f
      → f.file.f_pos ≡ 0
      → g.file.f_pos ≡ 0
      → other < max_fd
      → (g.f_flags % 4 == modes.o_wronly) ≡ false
      → 0 < length bytes
      → let done = sys_write modes font fresh m fd bytes in
        (got : List ℕ) × ((sys_read modes done.1 channel other (length bytes)).0
          ≡ IoResult.count (length bytes) got)
        × ((k : ℕ) → k < length bytes → get_or got k 0 ≡ get_or bytes k 0)
  sys_read-sys_write bytes other g channel differ og same start begin few_read reads some_ =
      let h = (ramfs_write fresh (data_of m f) bytes f.file.f_pos).1 in
      let (_, v, _, size, new, _) =
        ramfs_write_lem fresh (data_of m f) bytes f.file.f_pos given o.valid in
      let first = sys_write-file modes font fresh given m fd f bytes o few writes in
      let second =
        sys_read-file modes (after fresh m fd f bytes) other g (length bytes) channel
          (after-shared fresh given m fd f bytes o other g differ og same) few_read reads some_ in
      let held : data_of (after fresh m fd f bytes) g ≡ h =
        rw (data_of, same, ==_refl (inode_of m f)) refl in
      let (all, got) = read_start h (length bytes) v some_ (ground (arith, size, start)) in
      rw (first, second, held, begin)
        (
          (ramfs_read h (length bytes) 0).1,
          ap (λ n. IoResult.count n (ramfs_read h (length bytes) 0).1) all,
          λ k b. got k b ∙ ap (λ i. get_or h.buffer i 0) (omega (arith, start)) ∙ new k b,
        )
