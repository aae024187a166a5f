-- ===== src/Fs/Vfs/Create/Mkdir.antt =====
-- `vfs_mkdir` in a directory that is looked up.
use hvos.Common.{
  ℕ, ◌<◌, ◌≡◌, refl, sym, ap, subst, ◌∙◌, ◌≢◌, inl, inr, true, false, not, List, arith, ◌==◌,
  if◌then◌else◌, Bool-cases, ==-ne, take,
}
use hvos.Fs.Path.{is_absolute}
use hvos.Fs.Vfs.{
  Vfs, name_max, find_child, is_dir, alloc_dentry, free_dentry, vfs_lookup, ramfs_mkdir, add_child,
  s_ifdir, with_bit, make_dir, mkdir_in,
}
use hvos.Fs.Vfs.Nodes.{
  IsNode, IsValid, Kept-refl, Kept-trans, Kept-weaken, Kept-IsNode, Kept-IsValid, Kept-is_dir,
  children_of, Kept-children_of, zero_or_not, All-map, find_child_same, find_child-IsNode,
}
use hvos.Fs.Vfs.Lookup.{free-alloc-Kept, alloc-lookup}
use hvos.Fs.Vfs.Grow.{add_child-Grown}
use hvos.Fs.Vfs.Create.{
  at_path, add_child_full, failed, made, alloc-Kept, is_full, Outcome_after, Kept-is_full,
  found_dir, Kept-dir, IsNode-dir, IsNode-after, Result,
}

abbrev pub taken : Vfs → ℕ → List ℕ → ℕ
taken v p name = find_child v.dentry (children_of v p) (take name_max name)

-- The results of `vfs_mkdir` for a directory that was looked up.
abbrev pub mkdir_code_of : Vfs → ℕ → List ℕ → ℕ
mkdir_code_of v p name =
    if p == 0
    then 2
    else if not (is_dir v p)
    then 3
    else if not (taken v p name == 0)
    then 6
    else if is_full v p
    then 1
    else 0

make_dir-eq :
    (v : Vfs) (p : ℕ) (name : List ℕ) (mode : ℕ)
    → p < v.next
    → make_dir v p name mode ≡ (
        let r =
          add_child
            (alloc_dentry v name 0 p).1
            (v.dentry p).d_inode
            v.next
            (with_bit s_ifdir mode) in
        (r.0, if r.0 == 0 then r.1 else free_dentry r.1 v.next))
unfolding make_dir ramfs_mkdir alloc_dentry
make_dir-eq v p name mode h = rw (==-ne v.next p (λ z. omega arith)) refl

-- `make_dir` frees its entry when the directory is full.
make_dir_lem :
    (v : Vfs) (p : ℕ) (name : List ℕ) (mode : ℕ)
    → IsValid v
    → IsNode v p
    → Result v p name
        (with_bit s_ifdir mode)
        (if is_full v p then 1 else 0)
        (make_dir v p name mode)
make_dir_lem v p name mode ok n =
    subst (Result v p name (with_bit s_ifdir mode) (if is_full v p then 1 else 0))
      (sym (make_dir-eq v p name mode n.old))
      (elim (Bool-cases (is_full v p)) [
        | inl full ↦
            let e = add_child_full v p (v.dentry p).d_inode name (with_bit s_ifdir mode) full in
            rw (e, full)
              (refl, failed (λ z. omega (arith, z)) (Kept-weaken (free-alloc-Kept v name 0 p)))
        | inr room ↦
            let (zero_, grown) =
              add_child-Grown v p name (with_bit s_ifdir mode) n.old (ok.inode_old p n)
                (ground arith) in
            rw (zero_, room) (refl, made v refl (Kept-refl v) grown)
      ])

module _ (v : Vfs) (dir name : List ℕ) (mode : ℕ) where
  mkdir_in_none : (vfs_lookup v dir).0 ≡ 0 → mkdir_in v dir name mode ≡ (2, (vfs_lookup v dir).1)
  unfolding mkdir_in
  mkdir_in_none e = rw e refl

  module _ (p : ℕ) (e : (vfs_lookup v dir).0 ≡ p) (h1 : p ≢ 0)
      (h2 : ((vfs_lookup v dir).1.dentry p).d_inode ≢ 0) where
    mkdir_in_file :
        is_dir (vfs_lookup v dir).1 p ≡ false → mkdir_in v dir name mode ≡ (3, (vfs_lookup v dir).1)
    unfolding mkdir_in
    mkdir_in_file h3 = rw (e, ==-ne p 0 h1, ==-ne _ 0 h2, h3) refl

    module _ (h3 : is_dir (vfs_lookup v dir).1 p ≡ true) (n : IsNode (vfs_lookup v dir).1 p)
        (ok : IsValid (vfs_lookup v dir).1) where
      mkdir_in-taken :
          taken (vfs_lookup v dir).1 p name ≢ 0
          → mkdir_in v dir name mode ≡ (
            6,
            free_dentry (alloc_dentry (vfs_lookup v dir).1 name 0 p).1 (vfs_lookup v dir).1.next,
          )
      unfolding mkdir_in alloc_dentry free_dentry
      mkdir_in-taken h4 =
          let v1 = (vfs_lookup v dir).1 in
          let m =
            find_child-IsNode v1 (children_of v1 p) (take name_max name) (ok.child_nodes p n) h4 in
          ground (arith, e, alloc-lookup v1 ok name p p n, m.old, m.has_inode)

      mkdir_in_dir :
          taken (vfs_lookup v dir).1 p name ≡ 0
          → mkdir_in v dir name mode
            ≡ make_dir (alloc_dentry (vfs_lookup v dir).1 name 0 p).1 p name mode
      unfolding mkdir_in alloc_dentry
      mkdir_in_dir h4 = ground (arith, e, alloc-lookup (vfs_lookup v dir).1 ok name p p n)

module _ (v : Vfs) (ok : IsValid v) (dir name : List ℕ) (mode : ℕ)
    (abs : is_absolute dir ≡ true) where
  taken_after :
      (some_ : at_path v dir ≢ 0)
      → taken (vfs_lookup v dir).1 (at_path v dir) name ≡ taken v (at_path v dir) name
  taken_after some_ =
      let kept = Kept-dir v ok dir abs in
      let p = at_path v dir in
      let n = IsNode-dir v ok dir abs some_ in
      ap (λ cs. find_child (vfs_lookup v dir).1.dentry cs (take name_max name))
        (Kept-children_of kept p n.old)
      ∙ find_child_same v.dentry (vfs_lookup v dir).1.dentry (children_of v p) (take name_max name)
          (All-map (children_of v p) (λ c m. kept.same_entries c m.old) (ok.child_nodes p n))

  pub mkdir_in_lem :
      Result v
        (at_path v dir)
        name
        (with_bit s_ifdir mode)
        (mkdir_code_of v (at_path v dir) name)
        (mkdir_in v dir name mode)
  mkdir_in_lem =
      let p = at_path v dir in
      let v1 = (vfs_lookup v dir).1 in
      let to = found_dir v ok dir abs in
      let kept = Kept-dir v ok dir abs in
      let ok1 = Kept-IsValid kept ok in
      elim (zero_or_not p) [
        | inl none_ ↦
            subst (Result v p name (with_bit s_ifdir mode) (mkdir_code_of v p name))
              (sym (mkdir_in_none v dir name mode (to ∙ none_)))
              (ground arith, failed (λ z. omega (arith, z)) (Kept-weaken kept))
        | inr some_ ↦
            let n = IsNode-dir v ok dir abs some_ in
            let n1 = IsNode-after v ok dir abs some_ in
            let same_dir = Kept-is_dir kept ok p n in
            elim (Bool-cases (is_dir v p)) [
              | inr file ↦
                  subst (Result v p name (with_bit s_ifdir mode) (mkdir_code_of v p name))
                    (sym (mkdir_in_file v dir name mode p to some_ n1.has_inode (same_dir ∙ file)))
                    (ground arith, failed (λ z. omega (arith, z)) (Kept-weaken kept))
              | inl is ↦ elim (zero_or_not (taken v p name)) [
                | inr there ↦
                    subst (Result v p name (with_bit s_ifdir mode) (mkdir_code_of v p name))
                      (sym (
                        mkdir_in-taken v dir name mode p to some_ n1.has_inode (same_dir ∙ is) n1
                          ok1 (λ z. there (sym (taken_after some_) ∙ z))))
                      (
                        ground arith,
                        failed (λ z. omega (arith, z))
                            (Kept-weaken (Kept-trans kept (free-alloc-Kept v1 name 0 p))),
                      )
                | inl free ↦
                    let kept2 = Kept-trans (Kept-weaken kept) (alloc-Kept v1 name p) in
                    let (code, outcome) =
                      make_dir_lem (alloc_dentry v1 name 0 p).1 p name mode (Kept-IsValid kept2 ok)
                        (Kept-IsNode kept2 n) in
                    subst (Result v p name (with_bit s_ifdir mode) (mkdir_code_of v p name))
                      (sym (
                        mkdir_in_dir v dir name mode p to some_ n1.has_inode (same_dir ∙ is) n1 ok1
                          (taken_after some_ ∙ free)))
                      (
                        code ∙ ground (arith, Kept-is_full kept2 p n.old),
                        Outcome_after kept2 outcome,
                      )
              ]
            ]
      ]
