-- ===== src/Fs/Vfs/Create/Results.antt =====
-- The results of `vfs_create` and `vfs_mkdir` for a path, and what can be looked up and opened after.
use hvos.Common.{
  ℕ, ◌≡◌, refl, sym, ap, ◌∙◌, ◌≢◌, ◌⊎◌, inl, inr, Bool, true, false, not, ◌&&◌, ◌||◌, ◌<◌, ◌==◌,
  leb, if◌then◌else◌, Bool-cases, listed, length, arith, Option, none, some, List, [], ◌∷◌, ◌++◌,
  Option-cases,
}
use hvos.Fs.Path.{slash, is_absolute, vfs_split_path}
use hvos.Fs.Path.Parts.{components}
use hvos.Fs.Path.Split.{split-Divides, split_relative, split_parts, split_cases}
use hvos.Fs.Vfs.{Vfs, create_in, vfs_create, mkdir_in, vfs_mkdir, dir_max, file_max, new_dir_max}
use hvos.Fs.Vfs.Nodes.{
  IsNode, IsValid, Kept, Kept-refl, Kept-IsNode, Kept-IsValid, Kept-resolve, resolve, resolve_one,
  resolve_nil, resolve_gone, resolve_found, zero_or_not,
}
use hvos.Fs.Vfs.Grow.{Grown, Grown-IsValid, Grown-resolve}
use hvos.Fs.Vfs.Create.{at_path, Outcome, failed, made}
use hvos.Fs.Vfs.Create.{code_of, create_in_lem}
use hvos.Fs.Vfs.Create.Mkdir.{mkdir_code_of, mkdir_in_lem}

-- The results for a path that is split, or not.
abbrev pub create_code : Vfs → Option (List ℕ × List ℕ) → ℕ
create_code v none = 1
create_code v (some parts) = code_of v (at_path v parts.0)

abbrev pub mkdir_code : Vfs → Option (List ℕ × List ℕ) → ℕ
mkdir_code v none = 1
mkdir_code v (some parts) = mkdir_code_of v (at_path v parts.0) parts.1

-- An error has left the tree as it was; without one there is a new child.
Outcome-failed :
    {v v' : Vfs} {p : ℕ} {name : List ℕ} {mode code : ℕ}
    → Outcome v p name mode code v'
    → (code ≡ 0) ⊎ Kept true v v'
Outcome-failed (failed n kept) = inr kept
Outcome-failed (made u z kept grown) = inl z

pub Outcome-made :
    {v v' : Vfs} {p : ℕ} {name : List ℕ} {mode code : ℕ}
    → Outcome v p name mode code v'
    → code ≡ 0
    → (u : Vfs) × Kept true v u × Grown u v' p name mode
Outcome-made (failed n kept) z = absurd (n z)
Outcome-made (made u z kept grown) e = (u, kept, grown)

module _ (v : Vfs) (ok : IsValid v) (path : List ℕ) (mode : ℕ) where
  pub create_some :
      (dir name : List ℕ)
      → vfs_split_path path dir_max file_max ≡ some (dir, name)
      → vfs_create v path mode ≡ create_in v dir name mode
  unfolding vfs_create
  create_some dir name e = rw (vfs_create, e) refl

  pub create_none : vfs_split_path path dir_max file_max ≡ none → vfs_create v path mode ≡ (1, v)
  unfolding vfs_create
  create_none e = rw (vfs_create, e) refl

  pub mkdir_some :
      (dir name : List ℕ)
      → vfs_split_path path dir_max new_dir_max ≡ some (dir, name)
      → vfs_mkdir v path mode ≡ mkdir_in v dir name mode
  unfolding vfs_mkdir
  mkdir_some dir name e = rw (vfs_mkdir, e) refl

  pub mkdir_none : vfs_split_path path dir_max new_dir_max ≡ none → vfs_mkdir v path mode ≡ (1, v)
  unfolding vfs_mkdir
  mkdir_none e = rw (vfs_mkdir, e) refl

  pub vfs_create_codes :
      ((vfs_create v path mode).0 ≡ create_code v (vfs_split_path path dir_max file_max))
      × (((vfs_create v path mode).0 ≡ 0) ⊎ Kept true v (vfs_create v path mode).1)
  vfs_create_codes = elim (Option-cases (vfs_split_path path dir_max file_max)) [
    | inl none_ ↦ rw (create_none none_, none_) (refl, inr (Kept-refl v))
    | inr (parts, e) ↦
        let (code, outcome) =
          create_in_lem v ok parts.0 parts.1 mode
            (split-Divides path dir_max file_max e).absolute in
        rw (create_some parts.0 parts.1 e, e) (code, Outcome-failed outcome)
  ]

  pub vfs_mkdir_codes :
      ((vfs_mkdir v path mode).0 ≡ mkdir_code v (vfs_split_path path dir_max new_dir_max))
      × (((vfs_mkdir v path mode).0 ≡ 0) ⊎ Kept true v (vfs_mkdir v path mode).1)
  vfs_mkdir_codes = elim (Option-cases (vfs_split_path path dir_max new_dir_max)) [
    | inl none_ ↦ rw (mkdir_none none_, none_) (refl, inr (Kept-refl v))
    | inr (parts, e) ↦
        let (code, outcome) =
          mkdir_in_lem v ok parts.0 parts.1 mode
            (split-Divides path dir_max new_dir_max e).absolute in
        rw (mkdir_some parts.0 parts.1 e, e) (code, Outcome-failed outcome)
  ]

-- The directory that a path names, by the part before its last slash.
abbrev pub directory : List ℕ → List ℕ
directory [] = slash ∷ []
directory (c ∷ cs) = c ∷ cs

-- No name behind a directory, or a part that does not fit: 255 characters before the last slash,
-- and fewer than `max` behind it.
abbrev pub is_refused : List ℕ → List ℕ → ℕ → Bool
is_refused a b max =
    (not (length a == 0) && length b == 0) || leb 256 (length a) || leb max (length b)

create_parts :
    (v : Vfs) (a b : List ℕ) (max : ℕ)
    → 0 < max
    → create_code v (split_parts a b dir_max max)
      ≡ (if is_refused a b max then 1 else code_of v (at_path v (directory a)))
create_parts v [] [] max h = ground arith
create_parts v [] (c ∷ b) max h = ground arith
create_parts v (x ∷ a) [] max h = ground arith
create_parts v (x ∷ a) (c ∷ b) max h = ground arith

mkdir_parts :
    (v : Vfs) (a b : List ℕ) (max : ℕ)
    → 0 < max
    → mkdir_code v (split_parts a b dir_max max)
      ≡ (if is_refused a b max then 1 else mkdir_code_of v (at_path v (directory a)) b)
mkdir_parts v [] [] max h = ground arith
mkdir_parts v [] (c ∷ b) max h = ground arith
mkdir_parts v (x ∷ a) [] max h = ground arith
mkdir_parts v (x ∷ a) (c ∷ b) max h = ground arith

-- The results for an absolute path whose last slash stands between `a` and `b`.
pub record HasCodes (v : Vfs) (path : List ℕ) (mode : ℕ) : Type 0 where
  pub a : List ℕ
  pub b : List ℕ
  pub whole : path ≡ a ++ slash ∷ b
  pub one_name : listed b slash ≡ false
  pub creates :
      (vfs_create v path mode).0
      ≡ (if is_refused a b 32 then 1 else code_of v (at_path v (directory a)))
  pub makes :
      (vfs_mkdir v path mode).0
      ≡ (if is_refused a b 64 then 1 else mkdir_code_of v (at_path v (directory a)) b)
  pub create_keeps : ((vfs_create v path mode).0 ≡ 0) ⊎ Kept true v (vfs_create v path mode).1
  pub make_keeps : ((vfs_mkdir v path mode).0 ≡ 0) ⊎ Kept true v (vfs_mkdir v path mode).1

-- On a valid tree, `vfs_create` and `vfs_mkdir` return -1 for a path that does not begin with a
-- slash, and do nothing. For any other path, with its last slash between `a` and `b`, `vfs_create`
-- returns -1 if `b` is empty and `a` is not, if `a` has 256 characters or more, or if `b` has 32 or
-- more; -2 if `a`, or the root where `a` is empty, leads nowhere, -3 if it leads to no directory,
-- -1 if that directory is full, and 0 otherwise. `vfs_mkdir` returns the same, except that `b` may
-- have 63 characters, and -6 if the directory has an entry of that name, by its first 31
-- characters. When either does not return 0, the tree is as it was.
pub vfs_codes :
    (v : Vfs) (path : List ℕ) (mode : ℕ)
    → IsValid v
    → ((is_absolute path ≡ false)
        × (vfs_create v path mode ≡ (1, v))
        × (vfs_mkdir v path mode ≡ (1, v)))
      ⊎ HasCodes v path mode
vfs_codes v path mode ok = elim (Bool-cases (is_absolute path)) [
  | inr relative ↦ inl (
    relative,
    create_none v ok path mode (split_relative path dir_max file_max relative),
    mkdir_none v ok path mode (split_relative path dir_max new_dir_max relative),
  )
  | inl abs ↦
      let (c, c_kept) = vfs_create_codes v ok path mode in
      let (m, m_kept) = vfs_mkdir_codes v ok path mode in
      let (a, b, whole, one, parts) = split_cases path abs in
      inr (record {
        a = a;
        b = b;
        whole = whole;
        one_name = one;
        creates =
            c ∙ ap (create_code v) (parts dir_max file_max) ∙ create_parts v a b 32 (omega arith);
        makes =
            m ∙ ap (mkdir_code v) (parts dir_max new_dir_max) ∙ mkdir_parts v a b 64 (omega arith);
        create_keeps = c_kept;
        make_keeps = m_kept;
      })
]

pub resolve-append :
    (v : Vfs) (d : ℕ) (a b : List (List ℕ))
    → resolve v d a ≢ 0
    → resolve v d (a ++ b) ≡ resolve v (resolve v d a) b
resolve-append v d [] b found = ap (λ x. resolve v x b) (sym (resolve_nil v d))
resolve-append v d (n ∷ ns) b found = elim (zero_or_not (resolve_one v d n)) [
  | inl gone ↦ absurd (found (resolve_gone v d n ns gone))
  | inr there ↦
      let e = resolve_found v d n ns there in
      resolve_found v d n (ns ++ b) there
      ∙ resolve-append v (resolve_one v d n) ns b (λ z. found (e ∙ z))
      ∙ ap (λ x. resolve v x b) (sym e)
]

-- A directory is found again in the tree that has a new child.
module _ {v u v' : Vfs} {p : ℕ} {name : List ℕ} {mode : ℕ} (ok : IsValid v) (kept : Kept true v u)
    (grown : Grown u v' p name mode) (parent : IsNode v p) where
  pub made-IsValid : IsValid v'
  made-IsValid = Grown-IsValid grown (Kept-IsValid kept ok) (Kept-IsNode kept parent)

  pub made-at_path : (path : List ℕ) → at_path v path ≢ 0 → at_path v' path ≡ at_path v path
  made-at_path path found =
      let u_ok = Kept-IsValid kept ok in
      let same =
        ap (λ r. resolve u r (components path)) kept.same_root
        ∙ Kept-resolve v u v.root_dentry (components path) kept ok ok.root_node in
      ap (λ r. resolve v' r (components path)) grown.same_root
      ∙ Grown-resolve grown u_ok (Kept-IsNode kept parent) u.root_dentry (components path)
          u_ok.root_node (λ z. found (sym same ∙ z))
      ∙ same
