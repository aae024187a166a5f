-- ===== src/Fs/Vfs/Calls.antt =====
-- The calls of the file system one after the other.
pub mod Opened
use hvos.Common.{
  ℕ, zero, suc, ◌+◌, ◌-◌, ◌*◌, ◌/◌, ◌%◌, ◌^◌, ◌≤◌, ◌<◌, bit_and, bit_or, ◌≡◌, refl, sym, ap, subst,
  ◌∙◌, ◌≢◌, ◌↔◌, ◌⊎◌, inl, inr, Bool, true, false, not, ◌&&◌, ◌||◌, Option, none, some, List, [],
  ◌∷◌, ◌++◌, map, append_assoc, append-nil, arith, ltb, leb, ◌==◌, if◌then◌else◌, Bool-cases,
  Option-cases, every, every-lem, ltb→lt, lt→ltb, le→ltb, ==→eq, ==-ne, ==_refl, u8, u16, u32, u64,
  sub64, ◌<<<◌, ◌>>>◌, length, assign, replicate, take, drop, listed, get_elem?, get_or, set, All,
  length-set, get_or-set_self, get_or-set_ne, length-append, length-replicate, All-replicate,
  get_or-replicate, All-set, All-get_or,
}
use hvos.Common.Loops.{each_from, each_from-keeps}
use hvos.Fs.Path.{is_absolute, vfs_split_path}
use hvos.Fs.Path.Parts.{components, cut}
use hvos.Fs.Path.Split.{Divides, split-Divides, split-is_absolute}
use hvos.Fs.Vfs.{
  Dentry, Inode, Vfs, same_name, name_max, find_child, dot, is_dir, alloc_dentry, free_dentry,
  ramfs_lookup, vfs_lookup, ramfs_create, ramfs_mkdir, add_child, ramfs_max_children, s_ifdir,
  s_ifreg, with_bit, has_bit, create_in, vfs_create, make_dir, mkdir_in, vfs_mkdir, vfs_open, File,
  dir_max, file_max, new_dir_max, no_data,
}
use hvos.Fs.Vfs.Nodes.{
  IsNode, IsValid, Kept, Kept-refl, Kept-trans, Kept-weaken, Kept-IsNode, Kept-IsValid,
  Kept-resolve, Kept-is_dir, children_of, Kept-children_of, resolve, resolve_one,
  resolve_one-IsNode, resolve_nil, resolve_gone, resolve_found, zero_or_not, All-map,
  resolve-IsNode, find_child_same, find_child-IsNode,
}
use hvos.Fs.Vfs.Lookup.{free-alloc-Kept, alloc-lookup, vfs_lookup_lem}
use hvos.Fs.Vfs.Grow.{
  Grown, add_child-Grown, Grown-IsValid, Grown-IsNode, Grown-resolve, Grown-child, new-IsNode,
}
use hvos.Fs.Vfs.Create.{
  at_path, add_child_full, Outcome, failed, made, alloc-Kept, is_full, add-Outcome, Outcome_after,
  Kept-is_full, found_dir, Kept-dir, IsNode-dir, IsNode-after, Result,
}
use hvos.Fs.Vfs.Create.{code_of, create_in_lem}
use hvos.Fs.Vfs.Create.Mkdir.{taken, mkdir_code_of, mkdir_in_lem}
use hvos.Fs.Vfs.Create.Results.{
  Outcome-made, vfs_create_codes, vfs_mkdir_codes, create_some, create_none, mkdir_some, mkdir_none,
  made-IsValid, made-at_path, resolve-append, create_code, mkdir_code,
}

-- A call that made a new child, and where.
pub record Made (v : Vfs) (path : List ℕ) (bound mode : ℕ) (v' : Vfs) : Type 0 where
  pub dir : List ℕ
  pub name : List ℕ
  pub base : Vfs
  pub splits : vfs_split_path path dir_max bound ≡ some (dir, name)
  pub parent : IsNode v (at_path v dir)
  pub directory : is_dir v (at_path v dir) ≡ true
  pub kept : Kept true v base
  pub grown : Grown base v' (at_path v dir) name mode

code_zero : (v : Vfs) (p : ℕ) → code_of v p ≡ 0 → (p ≢ 0) × (is_dir v p ≡ true)
code_zero v p e = (λ z. ground arith, ground arith)

mkdir_code_zero :
    (v : Vfs) (p : ℕ) (name : List ℕ)
    → mkdir_code_of v p name ≡ 0
    → (p ≢ 0) × (is_dir v p ≡ true) × (taken v p name ≡ 0)
mkdir_code_zero v p name e = (λ z. ground arith, ground arith, ground arith)

module _ (v : Vfs) (ok : IsValid v) (path : List ℕ) (mode : ℕ) where
  create-Made :
      (vfs_create v path mode).0 ≡ 0
      → Made v path file_max (with_bit s_ifreg mode) (vfs_create v path mode).1
  create-Made z = elim (Option-cases (vfs_split_path path dir_max file_max)) [
    | inl none_ ↦ absurd (omega (arith, ap (λ r. r.0) (create_none v ok path mode none_), z))
    | inr (parts, e) ↦
        let abs = (split-Divides path dir_max file_max e).absolute in
        let same = create_some v ok path mode parts.0 parts.1 e in
        let (code, outcome) = create_in_lem v ok parts.0 parts.1 mode abs in
        let zero_ = sym (ap (λ r. r.0) same) ∙ z in
        let (some_, is) = code_zero v (at_path v parts.0) (sym code ∙ zero_) in
        let (u, kept, grown) = Outcome-made outcome zero_ in
        record {
          dir = parts.0;
          name = parts.1;
          base = u;
          splits = e;
          parent = IsNode-dir v ok parts.0 abs some_;
          directory = is;
          kept = kept;
          grown =
              subst (λ r. Grown u r.1 (at_path v parts.0) parts.1 (with_bit s_ifreg mode))
                (sym same) grown;
        }
  ]

  mkdir-Made :
      (vfs_mkdir v path mode).0 ≡ 0
      → (m : Made v path new_dir_max (with_bit s_ifdir mode) (vfs_mkdir v path mode).1) × (taken v
            (at_path v m.dir)
            m.name
          ≡ 0)
  mkdir-Made z = elim (Option-cases (vfs_split_path path dir_max new_dir_max)) [
    | inl none_ ↦ absurd (omega (arith, ap (λ r. r.0) (mkdir_none v ok path mode none_), z))
    | inr (parts, e) ↦
        let abs = (split-Divides path dir_max new_dir_max e).absolute in
        let same = mkdir_some v ok path mode parts.0 parts.1 e in
        let (code, outcome) = mkdir_in_lem v ok parts.0 parts.1 mode abs in
        let zero_ = sym (ap (λ r. r.0) same) ∙ z in
        let (some_, is, fresh) = mkdir_code_zero v (at_path v parts.0) parts.1 (sym code ∙ zero_) in
        let (u, kept, grown) = Outcome-made outcome zero_ in
        (
          record {
            dir = parts.0;
            name = parts.1;
            base = u;
            splits = e;
            parent = IsNode-dir v ok parts.0 abs some_;
            directory = is;
            kept = kept;
            grown =
                subst (λ r. Grown u r.1 (at_path v parts.0) parts.1 (with_bit s_ifdir mode))
                  (sym same) grown;
          },
          fresh,
        )
  ]

-- A call, from one state of the file system to the next.
pub data Call (v : Vfs) : Vfs → Type 0 where
  looks : (path : List ℕ) → Call v (vfs_lookup v path).1
  opens : (path : List ℕ) → Call v (vfs_open v path).1
  creates : (path : List ℕ) (mode : ℕ) → Call v (vfs_create v path mode).1
  makes : (path : List ℕ) (mode : ℕ) → Call v (vfs_mkdir v path mode).1

pub data Calls (v : Vfs) : Vfs → Type 0 where
  start : Calls v v
  later : (w x : Vfs) → Calls v w → Call w x → Calls v x

-- What a call keeps: the tree is valid, and what a path led to it leads to still.
abbrev pub Keeps : Vfs → Vfs → Type 0
Keeps v w = IsValid w × ((path : List ℕ) → (at_path v path ≡ 0) ⊎ (at_path w path ≡ at_path v path))

Kept-Keeps : {leaks : Bool} {v w : Vfs} → IsValid v → Kept leaks v w → Keeps v w
Kept-Keeps {leaks} {v} {w} ok k = (
  Kept-IsValid k ok,
  λ path. inr (
      ap (λ r. resolve w r (components path)) k.same_root
      ∙ Kept-resolve v w v.root_dentry (components path) k ok ok.root_node),
)

Made-Keeps :
    {v v' : Vfs} {path : List ℕ} {bound mode : ℕ}
    → IsValid v
    → Made v path bound mode v'
    → Keeps v v'
Made-Keeps {v} ok m = (
  made-IsValid ok m.kept m.grown m.parent,
  λ path. elim (zero_or_not (at_path v path)) [
    | inl none_ ↦ inl none_
    | inr found ↦ inr (made-at_path ok m.kept m.grown m.parent path found)
  ],
)

open-eq : (v : Vfs) (path : List ℕ) → (vfs_open v path).1 ≡ (vfs_lookup v path).1
unfolding vfs_open
open-eq v path = ground arith

Call-Keeps : {v w : Vfs} → IsValid v → Call v w → Keeps v w
Call-Keeps {v} ok (looks path) = Kept-Keeps ok (vfs_lookup_lem v path ok).1
Call-Keeps {v} ok (opens path) =
    Kept-Keeps ok (subst (Kept false v) (sym (open-eq v path)) (vfs_lookup_lem v path ok).1)
Call-Keeps {v} ok (creates path mode) = elim ((vfs_create_codes v ok path mode).1) [
  | inl z ↦ Made-Keeps ok (create-Made v ok path mode z)
  | inr kept ↦ Kept-Keeps ok kept
]
Call-Keeps {v} ok (makes path mode) = elim ((vfs_mkdir_codes v ok path mode).1) [
  | inl z ↦ Made-Keeps ok (mkdir-Made v ok path mode z).0
  | inr kept ↦ Kept-Keeps ok kept
]

-- From a valid tree, whatever is looked up, opened, created and made in whatever order, with errors
-- or without: the tree is valid, and every path that led to an entry leads to the same entry.
pub Calls-keep :
    (v w : Vfs)
    → IsValid v
    → Calls v w
    → IsValid w × ((path : List ℕ) → (at_path v path ≡ 0) ⊎ (at_path w path ≡ at_path v path))
Calls-keep v w ok start = (ok, λ path. inr refl)
Calls-keep v w ok (later u _ before call) =
    let (u_ok, u_keeps) = Calls-keep v u ok before in
    let (w_ok, w_keeps) = Call-Keeps u_ok call in
    (w_ok, λ path. ground (arith, u_keeps path, w_keeps path))
