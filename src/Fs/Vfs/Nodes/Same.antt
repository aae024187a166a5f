-- ===== src/Fs/Vfs/Nodes/Same.antt =====
-- What holds of a tree holds of it after changes that leave it the same.
use hvos.Common.{
  ℕ, zero, suc, ◌<◌, ◌≡◌, refl, sym, ap, subst, ◌∙◌, ◌≢◌, ◌⊎◌, inl, inr, Bool, true, false, List,
  [], ◌∷◌, arith, ltb, ◌==◌, if◌then◌else◌, Bool-cases, ltb→lt, ==-ne, take, All,
}
use hvos.Fs.Vfs.{ramfs_init, Dentry, Vfs, same_name, name_max, find_child, dot, is_dir}
use hvos.Fs.Vfs.Nodes.Tree.{IsNode, children_of, IsValid, resolve_one, resolve, Kept}

pub Kept-refl : {leaks : Bool} (v : Vfs) → Kept leaks v v
Kept-refl v = record {
  same_root = refl;
  same_inodes = refl;
  same_next_inode = refl;
  later = omega arith;
  same_entries = λ d h. refl;
  same_use = λ d h. refl;
  new_freed = λ d h k. absurd (omega arith);
}

pub Kept-trans : {leaks : Bool} {u v w : Vfs} → Kept leaks u v → Kept leaks v w → Kept leaks u w
Kept-trans {leaks} {u} {v} {w} a b = record {
  same_root = b.same_root ∙ a.same_root;
  same_inodes = b.same_inodes ∙ a.same_inodes;
  same_next_inode = b.same_next_inode ∙ a.same_next_inode;
  later = omega (arith, a.later, b.later);
  same_entries = λ d h. b.same_entries d (omega (arith, a.later)) ∙ a.same_entries d h;
  same_use = λ d h. b.same_use d (omega (arith, a.later)) ∙ a.same_use d h;
  new_freed = λ d h k. elim (Bool-cases (ltb d v.next)) [
    | inl old ↦ ground (
      arith,
      a.new_freed d h (ltb→lt _ _ old),
      b.same_use d (ltb→lt _ _ old),
      b.same_entries d (ltb→lt _ _ old),
    )
    | inr new ↦ b.new_freed d (ground arith) k
  ];
}

pub All-map {ℓ κ λ'} :
    {A : Type ℓ} {P : A → Type κ} {Q : A → Type λ'} (xs : List A)
    → ((x : A) → P x → Q x)
    → All P xs
    → All Q xs
All-map [] f h = tt
All-map (x ∷ xs) f h = (f x h.0, All-map xs f h.1)

-- A store with nothing forgotten may be used where that is allowed.
pub Kept-weaken : {v v' : Vfs} → Kept false v v' → Kept true v v'
Kept-weaken k = record {
  same_root = k.same_root;
  same_inodes = k.same_inodes;
  same_next_inode = k.same_next_inode;
  later = k.later;
  same_entries = k.same_entries;
  same_use = k.same_use;
  new_freed = λ d h h'. ground (arith, k.new_freed d h h');
}

module _ {leaks : Bool} {v v' : Vfs} (k : Kept leaks v v') where
  pub Kept-IsNode : {d : ℕ} → IsNode v d → IsNode v' d
  Kept-IsNode {d} n = record {
    not_null = n.not_null;
    old = omega (arith, n.old, k.later);
    has_inode = subst (λ e. e.d_inode ≢ 0) (sym (k.same_entries d n.old)) n.has_inode;
    in_use = k.same_use d n.old ∙ n.in_use;
  }

  -- Which means that no entry is new.
  pub IsNode-old : {d : ℕ} → IsNode v' d → IsNode v d
  IsNode-old {d} n = elim (Bool-cases (ltb d v.next)) [
    | inr new ↦ absurd (ground (arith, k.new_freed d (ground arith) n.old, n.in_use, n.has_inode))
    | inl old ↦ record {
      not_null = n.not_null;
      old = ltb→lt _ _ old;
      has_inode = subst (λ e. e.d_inode ≢ 0) (k.same_entries d (ltb→lt _ _ old)) n.has_inode;
      in_use = sym (k.same_use d (ltb→lt _ _ old)) ∙ n.in_use;
    }
  ]

  pub Kept-children_of : (d : ℕ) → d < v.next → children_of v' d ≡ children_of v d
  Kept-children_of d h = rw (k.same_inodes, k.same_entries d h) refl

  pub Kept-IsValid : IsValid v → IsValid v'
  Kept-IsValid ok = record {
    root_node = subst (λ r. IsNode v' r) (sym k.same_root) (Kept-IsNode ok.root_node);
    child_nodes = λ d n.
        let n0 = IsNode-old n in
        subst (All (IsNode v')) (sym (Kept-children_of d n0.old))
          (All-map (children_of v d) (λ c m. Kept-IsNode m) (ok.child_nodes d n0));
    parent_node = λ d n.
        let n0 = IsNode-old n in
        rw (k.same_entries d n0.old)
          (elim (ok.parent_node d n0) [ inl none_ ↦ inl none_ | inr p ↦ inr (Kept-IsNode p) ]);
    inode_old = λ d n.
        let n0 = IsNode-old n in
        omega (
          arith,
          ap (λ e. e.d_inode) (k.same_entries d n0.old),
          ok.inode_old d n0,
          k.same_next_inode,
        );
  }

pub find_child_same :
    (e e' : ℕ → Dentry) (cs : List ℕ) (name : List ℕ)
    → All (λ c. e' c ≡ e c) cs
    → find_child e' cs name ≡ find_child e cs name
unfolding find_child
find_child_same e e' [] name same = refl
find_child_same e e' (c ∷ cs) name same =
    rw (same.0)
      (ap (λ r. if same_name (e c).d_name name then c else r) (find_child_same e e' cs name same.1))

pub find_child-IsNode :
    (v : Vfs) (cs : List ℕ) (name : List ℕ)
    → All (IsNode v) cs
    → find_child v.dentry cs name ≢ 0
    → IsNode v (find_child v.dentry cs name)
unfolding find_child
find_child-IsNode v [] name h some_ = absurd (some_ refl)
find_child-IsNode v (c ∷ cs) name h some_ = elim (Bool-cases (same_name (v.dentry c).d_name name)) [
  | inl is ↦ rw is h.0
  | inr other ↦ rw other (find_child-IsNode v cs name h.1 (λ e. some_ (rw other e)))
]

module _ {leaks : Bool} {v v' : Vfs} (k : Kept leaks v v') (ok : IsValid v) where
  pub Kept-is_dir : (d : ℕ) → IsNode v d → is_dir v' d ≡ is_dir v d
  Kept-is_dir d n = rw (k.same_inodes, k.same_entries d n.old) refl

  Kept-resolve_one :
      (d : ℕ) (name : List ℕ) → IsNode v d → resolve_one v' d name ≡ resolve_one v d name
  Kept-resolve_one d name n =
      rw (k.same_inodes, k.same_entries d n.old)
        (ap
          (λ c.
            if same_name name (dot ∷ [])
            then d
            else if same_name name (dot ∷ dot ∷ [])
            then (if (v.dentry d).d_parent == 0 then d else (v.dentry d).d_parent)
            else if is_dir v d
            then c
            else 0)
          (find_child_same v.dentry v'.dentry (children_of v d) (take name_max name)
            (All-map (children_of v d) (λ c m. k.same_entries c m.old) (ok.child_nodes d n))))

pub resolve_one-IsNode :
    (v : Vfs) (d : ℕ) (name : List ℕ)
    → IsValid v
    → IsNode v d
    → resolve_one v d name ≢ 0
    → IsNode v (resolve_one v d name)
resolve_one-IsNode v d name ok n some_ = elim (Bool-cases (same_name name (dot ∷ []))) [
  | inl here ↦ rw here n
  | inr named ↦ elim (Bool-cases (same_name name (dot ∷ dot ∷ []))) [
    | inl up ↦ elim (Bool-cases ((v.dentry d).d_parent == 0)) [
      | inl top ↦ rw (named, up, top) n
      | inr below ↦ elim (ok.parent_node d n) [
        | inl none_ ↦ absurd (ground arith)
        | inr p ↦ rw (named, up, below) p
      ]
    ]
    | inr down ↦ elim (Bool-cases (is_dir v d)) [
      | inl dir ↦
          rw (named, down, dir)
            (find_child-IsNode v (children_of v d) (take name_max name) (ok.child_nodes d n)
              (λ e. some_ (rw (named, down, dir) e)))
      | inr file ↦ absurd (some_ (rw (named, down, file) refl))
    ]
  ]
]

pub resolve_nil : (v : Vfs) (d : ℕ) → resolve v d [] ≡ d
unfolding resolve
resolve_nil v d = refl

module _ (v : Vfs) (d : ℕ) (name : List ℕ) (names : List (List ℕ)) where
  pub resolve_gone : resolve_one v d name ≡ 0 → resolve v d (name ∷ names) ≡ 0
  unfolding resolve
  resolve_gone gone = rw (resolve, gone) refl

  pub resolve_found :
      resolve_one v d name ≢ 0 → resolve v d (name ∷ names) ≡ resolve v (resolve_one v d name) names
  unfolding resolve
  resolve_found found = rw (resolve, ==-ne (resolve_one v d name) 0 found) refl

pub zero_or_not : (n : ℕ) → (n ≡ 0) ⊎ (n ≢ 0)
zero_or_not zero = inl refl
zero_or_not (suc n) = inr (λ e. omega arith)

pub resolve-IsNode :
    (v : Vfs) (d : ℕ) (names : List (List ℕ))
    → IsValid v
    → IsNode v d
    → resolve v d names ≢ 0
    → IsNode v (resolve v d names)
unfolding resolve
resolve-IsNode v d [] ok n some_ = n
resolve-IsNode v d (name ∷ names) ok n some_ = elim (zero_or_not (resolve_one v d name)) [
  | inl gone ↦ absurd (some_ (resolve_gone v d name names gone))
  | inr found ↦
      let e = resolve_found v d name names found in
      subst (IsNode v) (sym e) (
        resolve-IsNode v (resolve_one v d name) names ok (resolve_one-IsNode v d name ok n found)
          (λ z. some_ (e ∙ z)))
]

pub Kept-resolve :
    {leaks : Bool} (v v' : Vfs) (d : ℕ) (names : List (List ℕ))
    → Kept leaks v v'
    → IsValid v
    → IsNode v d
    → resolve v' d names ≡ resolve v d names
unfolding resolve
Kept-resolve v v' d [] k ok n = refl
Kept-resolve v v' d (name ∷ names) k ok n =
    let same = Kept-resolve_one k ok d name n in
    elim (zero_or_not (resolve_one v d name)) [
      | inl gone ↦
          resolve_gone v' d name names (same ∙ gone) ∙ sym (resolve_gone v d name names gone)
      | inr found ↦
          resolve_found v' d name names (λ z. found (sym same ∙ z))
          ∙ ap (λ e. resolve v' e names) same
          ∙ Kept-resolve v v' (resolve_one v d name) names k ok
              (resolve_one-IsNode v d name ok n found)
          ∙ sym (resolve_found v d name names found)
    ]

-- The file system as it starts.
pub ramfs_init-IsValid : IsValid ramfs_init
unfolding ramfs_init
ramfs_init-IsValid = record {
  root_node = record {
    not_null = omega arith;
    old = omega arith;
    has_inode = λ z. omega (arith, z);
    in_use = refl;
  };
  child_nodes = λ d n. tt;
  parent_node = λ d n. inl refl;
  inode_old = λ d n. omega arith;
}
