-- ===== src/Fs/Vfs/Calls/Opened.antt =====
-- What was created can be opened, and what was made cannot be made again.
use hvos.Common.{
  ℕ, zero, suc, ◌+◌, ◌≤◌, ◌≡◌, refl, sym, ap, subst, ◌∙◌, ◌≢◌, inl, inr, Bool, true, false, some,
  List, [], ◌∷◌, ◌++◌, append-nil, arith, ==-ne, length, take,
}
use hvos.Fs.Path.{is_absolute}
use hvos.Fs.Path.{token_max}
use hvos.Fs.Path.Parts.{components}
use hvos.Fs.Path.Split.{Divides, split-Divides, split-is_absolute}
use hvos.Fs.Vfs.{
  Vfs, same_name, name_max, find_child, dot, is_dir, vfs_lookup, s_ifdir, s_ifreg, with_bit,
  has_bit, vfs_create, vfs_mkdir, vfs_open, File, dir_max, file_max, no_data,
}
use hvos.Fs.Vfs.Nodes.{
  IsNode, IsValid, Kept, Kept-IsNode, Kept-IsValid, Kept-is_dir, children_of, Kept-children_of,
  resolve, resolve_one, resolve_nil, resolve_gone, resolve_found, zero_or_not, All-map,
  resolve-IsNode, find_child_same,
}
use hvos.Fs.Vfs.Lookup.{vfs_lookup_lem}
use hvos.Fs.Vfs.Grow.{Grown-child, Grown-is_dir}
use hvos.Fs.Vfs.Create.{at_path}
use hvos.Fs.Vfs.Create.Mkdir.{taken, mkdir_code_of}
use hvos.Fs.Vfs.Create.Results.{
  vfs_mkdir_codes, made-IsValid, made-at_path, resolve-append, mkdir_code,
}
use hvos.Fs.Vfs.Calls.{Made, create-Made, mkdir-Made}

take_all : (n : ℕ) (xs : List ℕ) → length xs ≤ n → take n xs ≡ xs
take_all zero [] h = refl
take_all (suc n) [] h = refl
take_all zero (x ∷ xs) h = absurd (omega arith)
take_all (suc n) (x ∷ xs) h = ap (λ ys. x ∷ ys) (take_all n xs (omega arith))

Kept-taken :
    {leaks : Bool} {v u : Vfs}
    → IsValid v
    → Kept leaks v u
    → (p : ℕ) (name : List ℕ) → IsNode v p
    → taken u p name ≡ taken v p name
Kept-taken {leaks} {v} {u} ok kept p name n =
    ap (λ cs. find_child u.dentry cs (take name_max name)) (Kept-children_of kept p n.old)
    ∙ find_child_same v.dentry u.dentry (children_of v p) (take name_max name)
        (All-map (children_of v p) (λ c m. kept.same_entries c m.old) (ok.child_nodes p n))

code_taken :
    (v : Vfs) (p : ℕ) (name : List ℕ)
    → p ≢ 0
    → is_dir v p ≡ true
    → taken v p name ≢ 0
    → mkdir_code_of v p name ≡ 6
code_taken v p name h1 h2 h3 = rw (==-ne p 0 h1, h2, ==-ne (taken v p name) 0 h3) refl

-- Making a directory where `vfs_mkdir` has just made one fails with -6.
pub mkdir_twice :
    (v : Vfs) (path : List ℕ) (mode mode' : ℕ)
    → IsValid v
    → (vfs_mkdir v path mode).0 ≡ 0
    → (vfs_mkdir (vfs_mkdir v path mode).1 path mode').0 ≡ 6
mkdir_twice v path mode mode' ok z =
    let v' = (vfs_mkdir v path mode).1 in
    let (m, fresh) = mkdir-Made v ok path mode z in
    let p = at_path v m.dir in
    let u_ok = Kept-IsValid m.kept ok in
    let pu = Kept-IsNode m.kept m.parent in
    let ok' = made-IsValid ok m.kept m.grown m.parent in
    let here =
      made-at_path ok m.kept m.grown m.parent m.dir (λ e. omega (arith, m.parent.not_null, e)) in
    let there = Grown-child m.grown u_ok pu (Kept-taken ok m.kept p m.name m.parent ∙ fresh) in
    (vfs_mkdir_codes v' ok' path mode').0
    ∙ ap (mkdir_code v') m.splits
    ∙ ap (λ q. mkdir_code_of v' q m.name) here
    ∙ code_taken v' p m.name (λ e. omega (arith, m.parent.not_null, e))
        (Grown-is_dir m.grown u_ok pu p pu ∙ Kept-is_dir m.kept ok p m.parent ∙ m.directory)
        (λ e. omega (arith, pu.old, there, e))

-- A component that leads nowhere from a directory is no dot, and no child has its name.
resolve_one-zero :
    (v : Vfs) (p : ℕ) (name : List ℕ)
    → IsNode v p
    → is_dir v p ≡ true
    → resolve_one v p name ≡ 0
    → (same_name name (dot ∷ []) ≡ false)
      × (same_name name (dot ∷ dot ∷ []) ≡ false)
      × (taken v p name ≡ 0)
resolve_one-zero v p name n dir z =
    (ground (arith, n.not_null), ground (arith, n.not_null), ground (arith, n.not_null))

resolve_one-eq-taken :
    (v : Vfs) (p : ℕ) (name : List ℕ)
    → is_dir v p ≡ true
    → same_name name (dot ∷ []) ≡ false
    → same_name name (dot ∷ dot ∷ []) ≡ false
    → resolve_one v p name ≡ taken v p name
resolve_one-eq-taken v p name dir d1 d2 = rw (d1, d2, dir) refl

resolve_single : (v : Vfs) (p : ℕ) (name : List ℕ) → resolve v p (name ∷ []) ≡ resolve_one v p name
resolve_single v p name = elim (zero_or_not (resolve_one v p name)) [
  | inl gone ↦ resolve_gone v p name [] gone ∙ sym gone
  | inr found ↦ resolve_found v p name [] found ∙ resolve_nil v (resolve_one v p name)
]

-- A path that leads nowhere, in a directory that there is, has a name as its last component.
last_component :
    (v : Vfs) (path dir name : List ℕ) (bound : ℕ)
    → Divides path dir name bound
    → bound ≤ token_max + 1
    → at_path v dir ≢ 0
    → at_path v path ≡ 0
    → components path ≡ components dir ++ name ∷ []
last_component v path dir [] bound d h some_ none_ = absurd (
    some_ (
      sym (ap (resolve v v.root_dentry) (d.same_components ∙ append-nil (components dir))) ∙ none_))
last_component v path dir (c ∷ cs) bound d h some_ none_ =
    d.same_components
    ∙ ap (λ t. components dir ++ t ∷ []) (take_all token_max (c ∷ cs) (omega (arith, d.fits)))

-- What `vfs_open` gives for an entry that `vfs_lookup` finds.
open_found :
    (v : Vfs) (path : List ℕ) (d : ℕ)
    → IsValid v
    → is_absolute path ≡ true
    → at_path v path ≡ d
    → d ≢ 0
    → is_dir v d ≡ false
    → (vfs_open v path).0 ≡ some (record { f_dentry = d; f_pos = 0 })
unfolding vfs_open
open_found v path d ok abs to some_ file =
    let (found, kept) = vfs_lookup_lem v path ok in
    let at : (vfs_lookup v path).0 ≡ d = found ∙ rw abs to in
    let n = subst (IsNode v) to (
      resolve-IsNode v v.root_dentry (components path) ok ok.root_node (λ z. some_ (sym to ∙ z))) in
    let n' = Kept-IsNode kept n in
    rw (at, ==-ne d 0 some_, ==-ne _ 0 n'.has_inode, Kept-is_dir kept ok d n ∙ file) refl

module _ (v : Vfs) (path : List ℕ) (mode : ℕ) (ok : IsValid v) (none_ : at_path v path ≡ 0)
    (m : Made v path file_max (with_bit s_ifreg mode) (vfs_create v path mode).1) where
  new_at_path : at_path (vfs_create v path mode).1 path ≡ m.base.next
  new_at_path =
      let v' = (vfs_create v path mode).1 in
      let p = at_path v m.dir in
      let u_ok = Kept-IsValid m.kept ok in
      let pu = Kept-IsNode m.kept m.parent in
      let ok' = made-IsValid ok m.kept m.grown m.parent in
      let some_ : p ≢ 0 = λ e. omega (arith, m.parent.not_null, e) in
      let here = made-at_path ok m.kept m.grown m.parent m.dir some_ in
      let parts =
        last_component v path m.dir m.name file_max (split-Divides path dir_max file_max m.splits)
          (omega arith) some_ none_ in
      let before : resolve_one v p m.name ≡ 0 =
        sym (
          ap (resolve v v.root_dentry) parts
          ∙ resolve-append v v.root_dentry (components m.dir) (m.name ∷ []) some_
          ∙ resolve_single v p m.name)
        ∙ none_ in
      let (d1, d2, fresh) = resolve_one-zero v p m.name m.parent m.directory before in
      let dir' =
        Grown-is_dir m.grown u_ok pu p pu ∙ Kept-is_dir m.kept ok p m.parent ∙ m.directory in
      ap (resolve v' v'.root_dentry) parts
      ∙ resolve-append v' v'.root_dentry (components m.dir) (m.name ∷ [])
          (λ e. some_ (sym here ∙ e))
      ∙ ap (λ q. resolve v' q (m.name ∷ [])) here
      ∙ resolve_single v' p m.name
      ∙ resolve_one-eq-taken v' p m.name dir' d1 d2
      ∙ Grown-child m.grown u_ok pu (Kept-taken ok m.kept p m.name m.parent ∙ fresh)

regular :
    (mode : ℕ) → has_bit mode s_ifdir ≡ false → has_bit (with_bit s_ifreg mode) s_ifdir ≡ false
regular mode h = ground arith

-- Where a path leads nowhere, let `vfs_create` return 0 for it, with a mode that does not say
-- directory. Then `vfs_open` of the same path gives a file at its start: the entry is new, its
-- inode has the mode with the bit of a regular file, and the file is empty.
pub open-create :
    (v : Vfs) (path : List ℕ) (mode : ℕ)
    → IsValid v
    → has_bit mode s_ifdir ≡ false
    → at_path v path ≡ 0
    → (vfs_create v path mode).0 ≡ 0
    → let v' = (vfs_create v path mode).1 in
      (f : File) × ((vfs_open v' path).0 ≡ some f)
      × (f.f_pos ≡ 0)
      × (v.next ≤ f.f_dentry)
      × ((v'.inode (v'.dentry f.f_dentry).d_inode).i_mode ≡ with_bit s_ifreg mode)
      × ((v'.inode (v'.dentry f.f_dentry).d_inode).file ≡ no_data)
open-create v path mode ok file none_ z =
    let v' = (vfs_create v path mode).1 in
    let m = create-Made v ok path mode z in
    let u_ok = Kept-IsValid m.kept ok in
    let pu = Kept-IsNode m.kept m.parent in
    let ok' = made-IsValid ok m.kept m.grown m.parent in
    let d = m.base.next in
    let new = ap (λ e. v'.inode e.d_inode) m.grown.new_entry ∙ m.grown.new_inode in
    (
      record { f_dentry = d; f_pos = 0 },
      open_found v' path d ok' (split-is_absolute path dir_max file_max m.splits)
          (new_at_path v path mode ok none_ m) (λ e. omega (arith, pu.old, e))
          (ap (λ i. has_bit i.i_mode s_ifdir) new ∙ regular mode file),
      refl,
      m.kept.later,
      ap (λ i. i.i_mode) new,
      ap (λ i. i.file) new,
    )
