-- ===== src/Fs/Vfs/Create.antt =====
-- What `vfs_create` and `vfs_mkdir` return, and what they make of the tree.
pub mod Mkdir
pub mod Results
use hvos.Common.{
  ℕ, zero, suc, ◌+◌, ◌-◌, ◌*◌, ◌/◌, ◌%◌, ◌^◌, ◌≤◌, ◌<◌, bit_and, bit_or, ◌≡◌, refl, sym, ap, subst,
  ◌∙◌, ◌≢◌, ◌↔◌, ◌⊎◌, inl, inr, Bool, true, false, not, ◌&&◌, ◌||◌, Option, none, some, List, [],
  ◌∷◌, ◌++◌, map, append_assoc, append-nil, arith, ltb, leb, ◌==◌, if◌then◌else◌, Bool-cases,
  Option-cases, every, every-lem, ltb→lt, lt→ltb, le→ltb, ==→eq, ==-ne, ==_refl, u8, u16, u32, u64,
  sub64, ◌<<<◌, ◌>>>◌, length, assign, replicate, take, drop, listed, get_elem?, get_or, set, All,
  length-set, get_or-set_self, get_or-set_ne, length-append, length-replicate, All-replicate,
  get_or-replicate, All-set, All-get_or,
}
use hvos.Common.Loops.{each_from, each_from-keeps}
use hvos.Fs.Path.{is_absolute, vfs_split_path}
use hvos.Fs.Path.Parts.{components, cut}
use hvos.Fs.Path.Split.{Divides, split-Divides}
use hvos.Fs.Vfs.{
  Dentry, Inode, Vfs, same_name, name_max, find_child, dot, is_dir, alloc_dentry, free_dentry,
  ramfs_lookup, vfs_lookup, ramfs_create, ramfs_mkdir, add_child, ramfs_max_children, s_ifdir,
  s_ifreg, with_bit, has_bit, create_in, vfs_create, make_dir, mkdir_in, vfs_mkdir, vfs_open, File,
  dir_max, file_max, new_dir_max, no_data,
}
use hvos.Fs.Vfs.Nodes.{
  IsNode, IsValid, Kept, Kept-refl, Kept-trans, Kept-weaken, Kept-IsNode, Kept-IsValid,
  Kept-resolve, Kept-is_dir, children_of, Kept-children_of, resolve, resolve_one,
  resolve_one-IsNode, resolve_nil, resolve_gone, resolve_found, zero_or_not, All-map,
  resolve-IsNode, find_child_same, find_child-IsNode,
}
use hvos.Fs.Vfs.Lookup.{free-alloc-Kept, alloc-lookup, vfs_lookup_lem}
use hvos.Fs.Vfs.Grow.{
  Grown, add_child-Grown, Grown-IsValid, Grown-IsNode, Grown-resolve, Grown-child, new-IsNode,
}

-- What the path of a directory leads to.
abbrev pub at_path : Vfs → List ℕ → ℕ
at_path v path = resolve v v.root_dentry (components path)

-- After a call that returned `code`: an error has left the tree as it was, and 0 means that the
-- directory `p` has a new child.
pub data Outcome (v : Vfs) (p : ℕ) (name : List ℕ) (mode : ℕ) (code : ℕ) (v' : Vfs) : Type 0 where
  failed : code ≢ 0 → Kept true v v' → Outcome v p name mode code v'
  made :
      (u : Vfs) → code ≡ 0 → Kept true v u → Grown u v' p name mode → Outcome v p name mode code v'

-- An entry that is allocated and left is no change to the tree.
pub alloc-Kept : (v : Vfs) (name : List ℕ) (p : ℕ) → Kept true v (alloc_dentry v name 0 p).1
unfolding alloc_dentry
alloc-Kept v name p = record {
  same_root = refl;
  same_inodes = refl;
  same_next_inode = refl;
  later = omega arith;
  same_entries = λ d h. ground arith;
  same_use = λ d h. ground arith;
  new_freed = λ d h k. ground arith;
}

abbrev pub is_full : Vfs → ℕ → Bool
is_full v p = leb ramfs_max_children (length (children_of v p))

pub add_child_full :
    (v : Vfs) (p dir : ℕ) (name : List ℕ) (mode : ℕ)
    → leb ramfs_max_children (length (v.inode dir).children) ≡ true
    → add_child (alloc_dentry v name 0 p).1 dir v.next mode ≡ (1, (alloc_dentry v name 0 p).1)
unfolding add_child alloc_dentry
add_child_full v p dir name mode full = rw full refl

-- A new child of a directory: an error if it is full.
pub add-Outcome :
    (v : Vfs) (p : ℕ) (name : List ℕ) (mode : ℕ)
    → IsValid v
    → IsNode v p
    → let r = add_child (alloc_dentry v name 0 p).1 (v.dentry p).d_inode v.next mode in
      (r.0 ≡ (if is_full v p then 1 else 0)) × Outcome v p name mode r.0 r.1
add-Outcome v p name mode ok n = elim (Bool-cases (is_full v p)) [
  | inl full ↦
      let e = add_child_full v p (v.dentry p).d_inode name mode full in
      subst (λ r. (r.0 ≡ (if is_full v p then 1 else 0)) × Outcome v p name mode r.0 r.1) (sym e)
        (rw full refl, failed (λ z. omega (arith, z)) (alloc-Kept v name p))
  | inr room ↦
      let (zero_, grown) = add_child-Grown v p name mode n.old (ok.inode_old p n) (ground arith) in
      (zero_ ∙ rw room refl, made v zero_ (Kept-refl v) grown)
]

pub Outcome_after :
    {u v v' : Vfs} {p : ℕ} {name : List ℕ} {mode code : ℕ}
    → Kept true u v
    → Outcome v p name mode code v'
    → Outcome u p name mode code v'
Outcome_after k (failed n kept) = failed n (Kept-trans k kept)
Outcome_after k (made w z kept grown) = made w z (Kept-trans k kept) grown

-- The results for a directory that was looked up.
abbrev pub code_of : Vfs → ℕ → ℕ
code_of v p = if p == 0 then 2 else if not (is_dir v p) then 3 else if is_full v p then 1 else 0

pub Kept-is_full :
    {leaks : Bool} {v v' : Vfs}
    → Kept leaks v v'
    → (p : ℕ) → p < v.next
    → is_full v' p ≡ is_full v p
Kept-is_full k p h = ap (λ cs. leb ramfs_max_children (length cs)) (Kept-children_of k p h)

module _ (v : Vfs) (dir name : List ℕ) (mode : ℕ) where
  create_in_none : (vfs_lookup v dir).0 ≡ 0 → create_in v dir name mode ≡ (2, (vfs_lookup v dir).1)
  unfolding create_in
  create_in_none e = rw e refl

  create_in_file :
      (p : ℕ)
      → (vfs_lookup v dir).0 ≡ p
      → p ≢ 0
      → ((vfs_lookup v dir).1.dentry p).d_inode ≢ 0
      → is_dir (vfs_lookup v dir).1 p ≡ false
      → create_in v dir name mode ≡ (3, (vfs_lookup v dir).1)
  unfolding create_in
  create_in_file p e h1 h2 h3 = rw (e, ==-ne p 0 h1, ==-ne _ 0 h2, h3) refl

  create_in_dir :
      (p : ℕ)
      → (vfs_lookup v dir).0 ≡ p
      → p ≢ 0
      → p < (vfs_lookup v dir).1.next
      → ((vfs_lookup v dir).1.dentry p).d_inode ≢ 0
      → is_dir (vfs_lookup v dir).1 p ≡ true
      → create_in v dir name mode ≡ (
          let v1 = (vfs_lookup v dir).1 in
          add_child
            (alloc_dentry v1 name 0 p).1
            (v1.dentry p).d_inode
            v1.next
            (with_bit s_ifreg mode))
  unfolding create_in ramfs_create alloc_dentry
  create_in_dir p e h1 old h2 h3 =
      rw (e, ==-ne p 0 h1, ==-ne _ 0 h2, h3, ==-ne (vfs_lookup v dir).1.next p (λ z. omega arith))
        refl

-- The directory that was looked up, in the store that the search has left.
module _ (v : Vfs) (ok : IsValid v) (dir : List ℕ) (abs : is_absolute dir ≡ true) where
  pub found_dir : (vfs_lookup v dir).0 ≡ at_path v dir
  found_dir = (vfs_lookup_lem v dir ok).0 ∙ rw abs refl

  pub Kept-dir : Kept false v (vfs_lookup v dir).1
  Kept-dir = (vfs_lookup_lem v dir ok).1

  module _ (some_ : at_path v dir ≢ 0) where
    pub IsNode-dir : IsNode v (at_path v dir)
    IsNode-dir = resolve-IsNode v v.root_dentry (components dir) ok ok.root_node some_

    pub IsNode-after : IsNode (vfs_lookup v dir).1 (at_path v dir)
    IsNode-after = Kept-IsNode Kept-dir IsNode-dir

abbrev pub Result : Vfs → ℕ → List ℕ → ℕ → ℕ → ℕ × Vfs → Type 0
Result v p name mode code r = (r.0 ≡ code) × Outcome v p name mode r.0 r.1

module _ (v : Vfs) (ok : IsValid v) (dir name : List ℕ) (mode : ℕ)
    (abs : is_absolute dir ≡ true) where
  pub create_in_lem :
      Result v
        (at_path v dir)
        name
        (with_bit s_ifreg mode)
        (code_of v (at_path v dir))
        (create_in v dir name mode)
  create_in_lem =
      let p = at_path v dir in
      let v1 = (vfs_lookup v dir).1 in
      let to = found_dir v ok dir abs in
      let kept = Kept-dir v ok dir abs in
      elim (zero_or_not p) [
        | inl none_ ↦
            subst (Result v p name (with_bit s_ifreg mode) (code_of v p))
              (sym (create_in_none v dir name mode (to ∙ none_)))
              (ground arith, failed (λ z. omega (arith, z)) (Kept-weaken kept))
        | inr some_ ↦
            let n = IsNode-dir v ok dir abs some_ in
            let n1 = IsNode-after v ok dir abs some_ in
            let same_dir = Kept-is_dir kept ok p n in
            elim (Bool-cases (is_dir v p)) [
              | inr file ↦
                  subst (Result v p name (with_bit s_ifreg mode) (code_of v p))
                    (sym (create_in_file v dir name mode p to some_ n1.has_inode (same_dir ∙ file)))
                    (ground arith, failed (λ z. omega (arith, z)) (Kept-weaken kept))
              | inl is ↦
                  let (code, outcome) =
                    add-Outcome v1 p name (with_bit s_ifreg mode) (Kept-IsValid kept ok) n1 in
                  subst (Result v p name (with_bit s_ifreg mode) (code_of v p))
                    (sym (
                      create_in_dir v dir name mode p to some_ n1.old n1.has_inode (same_dir ∙ is)))
                    (
                      code ∙ ground (arith, Kept-is_full kept p n.old),
                      Outcome_after (Kept-weaken kept) outcome,
                    )
            ]
      ]
