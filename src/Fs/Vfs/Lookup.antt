-- ===== src/Fs/Vfs/Lookup.antt =====
-- `vfs_lookup` finds what the components of a path lead to, and leaves the tree as it was.
use hvos.Common.{
  ℕ, zero, suc, ◌+◌, ◌<◌, ◌≡◌, refl, sym, ap, subst, ◌∙◌, ◌≢◌, inl, inr, false, none, some, List,
  arith, ◌==◌, if◌then◌else◌, Bool-cases, ==-ne, length, take,
}
use hvos.Fs.Path.{is_absolute, next_path_token}
use hvos.Fs.Path.Parts.{components, next_path_token_lem}
use hvos.Fs.Vfs.{
  Vfs, name_max, find_child, alloc_dentry, free_dentry, ramfs_lookup, descend, walk, look,
  vfs_lookup,
}
use hvos.Fs.Vfs.Nodes.{
  IsNode, IsValid, Kept, Kept-refl, Kept-trans, Kept-IsNode, Kept-IsValid, Kept-resolve,
  children_of, resolve, resolve_one, resolve_one-IsNode, resolve_nil, resolve_gone, resolve_found,
  zero_or_not, All-map, find_child_same, find_child-IsNode,
}

-- An entry that is allocated and freed again is no change.
pub free-alloc-Kept :
    (v : Vfs) (name : List ℕ) (inode parent : ℕ)
    → Kept false v (free_dentry (alloc_dentry v name inode parent).1 v.next)
unfolding alloc_dentry free_dentry
free-alloc-Kept v name inode parent = record {
  same_root = refl;
  same_inodes = refl;
  same_next_inode = refl;
  later = omega arith;
  same_entries = λ d h. ground arith;
  same_use = λ d h. ground arith;
  new_freed = λ d h k. inl (ground arith);
}

module _ (v : Vfs) (ok : IsValid v) where
  -- The search by way of a new entry.
  pub alloc-lookup :
      (name : List ℕ) (d parent : ℕ)
      → IsNode v d
      → let v1 = (alloc_dentry v name 0 parent).1 in
        let c = find_child v.dentry (children_of v d) (take name_max name) in
        ramfs_lookup v1 (v.dentry d).d_inode v.next
        ≡ (if c == 0 then (0, v1) else (c, free_dentry v1 v.next))
  unfolding alloc_dentry ramfs_lookup
  alloc-lookup name d parent n =
      let v1 = (alloc_dentry v name 0 parent).1 in
      let same =
        find_child_same v.dentry v1.dentry (children_of v d) (take name_max name)
          (All-map (children_of v d) (λ c m. old_entry c m.old) (ok.child_nodes d n)) in
      ap (λ (c : ℕ). if c == 0 then (0, v1) else (c, free_dentry v1 v.next))
        (ap (find_child v1.dentry (children_of v d)) new_name ∙ same)
    where
      old_entry : (c : ℕ) → c < v.next → (alloc_dentry v name 0 parent).1.dentry c ≡ v.dentry c
      old_entry c h = ground arith

      new_name : ((alloc_dentry v name 0 parent).1.dentry v.next).d_name ≡ take name_max name
      new_name = ground arith

  -- Found or not, the search entry is freed.
  descend-eq :
      (d : ℕ) (token : List ℕ)
      → IsNode v d
      → descend v d token ≡ (
        find_child v.dentry (children_of v d) (take name_max token),
        free_dentry (alloc_dentry v token 0 d).1 v.next,
      )
  unfolding descend alloc_dentry free_dentry
  descend-eq d token n =
      elim (zero_or_not (find_child v.dentry (children_of v d) (take name_max token))) [
        | inl gone ↦ ground (arith, alloc-lookup token d d n)
        | inr found ↦
            let m =
              find_child-IsNode v (children_of v d) (take name_max token) (ok.child_nodes d n)
                found in
            ground (arith, alloc-lookup token d d n, m.old, m.has_inode)
      ]

  descend_lem :
      (d : ℕ) (token : List ℕ)
      → IsNode v d
      → ((descend v d token).0 ≡ find_child v.dentry (children_of v d) (take name_max token))
        × Kept false v (descend v d token).1
  descend_lem d token n =
      let e = descend-eq d token n in
      (ap (λ r. r.0) e, subst (λ r. Kept false v r.1) (sym e) (free-alloc-Kept v token 0 d))

  walk_lem :
      (d : ℕ) (token : List ℕ)
      → IsNode v d
      → ((walk v d token).0 ≡ resolve_one v d token) × Kept false v (walk v d token).1
  unfolding walk
  walk_lem d token n = ground (arith, descend_lem d token n, Kept-refl v)

module _ (fuel : ℕ) (v : Vfs) (d : ℕ) (path : List ℕ) where
  look_end : next_path_token path ≡ none → look (suc fuel) v d path ≡ (d, v)
  unfolding look
  look_end e = rw (look, e) refl

  look_gone :
      (token rest : List ℕ)
      → next_path_token path ≡ some (token, rest)
      → (walk v d token).0 ≡ 0
      → look (suc fuel) v d path ≡ (0, (walk v d token).1)
  unfolding look
  look_gone token rest e z = rw (look, e, z) refl

  look_on :
      (token rest : List ℕ)
      → next_path_token path ≡ some (token, rest)
      → (walk v d token).0 ≢ 0
      → look (suc fuel) v d path ≡ look fuel (walk v d token).1 (walk v d token).0 rest
  unfolding look
  look_on token rest e z = rw (look, e, ==-ne (walk v d token).0 0 z) refl

abbrev Finds : Vfs → ℕ → List ℕ → ℕ × Vfs → Type 0
Finds v d path r = (r.0 ≡ resolve v d (components path)) × Kept false v r.1

look_lem :
    (fuel : ℕ) (v : Vfs) (d : ℕ) (path : List ℕ)
    → IsValid v
    → IsNode v d
    → length path < fuel
    → Finds v d path (look fuel v d path)
look_lem zero v d path ok n h = absurd (omega arith)
look_lem (suc fuel) v d path ok n h = elim (next_path_token_lem path) [
  | inl (none_, empty) ↦
      subst (Finds v d path) (sym (look_end fuel v d path none_))
        (sym (ap (resolve v d) empty ∙ resolve_nil v d), Kept-refl v)
  | inr (token, rest, next, parts, shorter) ↦
      let (to, kept) = walk_lem v ok d token n in
      elim (zero_or_not (resolve_one v d token)) [
        | inl gone ↦
            subst (Finds v d path) (sym (look_gone fuel v d path token rest next (to ∙ gone)))
              (sym (ap (resolve v d) parts ∙ resolve_gone v d token (components rest) gone), kept)
        | inr found ↦
            let node = subst (IsNode v) (sym to) (resolve_one-IsNode v d token ok n found) in
            let (there, kept') =
              look_lem fuel (walk v d token).1 (walk v d token).0 rest (Kept-IsValid kept ok)
                (Kept-IsNode kept node) (omega arith) in
            subst (Finds v d path)
              (sym (look_on fuel v d path token rest next (λ z. found (sym to ∙ z))))
              (
                there
                    ∙ Kept-resolve v (walk v d token).1 (walk v d token).0 (components rest) kept ok
                        node
                    ∙ ap (λ e. resolve v e (components rest)) to
                    ∙ sym (resolve_found v d token (components rest) found)
                    ∙ ap (resolve v d) (sym parts),
                Kept-trans kept kept',
              )
      ]
]

-- On a valid tree `vfs_lookup` follows the components of an absolute path from the root, and gives
-- NULL for any other path. It leaves the tree as it was: every entry that it allocates for a search
-- is freed, and no other entry is.
pub vfs_lookup_lem :
    (v : Vfs) (path : List ℕ)
    → IsValid v
    → ((vfs_lookup v path).0
        ≡ (if is_absolute path then resolve v v.root_dentry (components path) else 0))
      × Kept false v (vfs_lookup v path).1
unfolding vfs_lookup
vfs_lookup_lem v path ok =
    rw (==-ne v.root_dentry 0 (λ z. omega (arith, ok.root_node.not_null)))
      (elim (Bool-cases (is_absolute path)) [
        | inl abs ↦
            rw abs (look_lem (length path + 1) v v.root_dentry path ok ok.root_node (omega arith))
        | inr relative ↦ rw relative (refl, Kept-refl v)
      ])
