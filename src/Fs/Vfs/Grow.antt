-- ===== src/Fs/Vfs/Grow.antt =====
-- A new child at the end of a directory: every path that led somewhere leads there still.
use hvos.Common.{
  ℕ, ◌+◌, ◌/◌, ◌%◌, ◌<◌, ◌≡◌, refl, sym, ap, subst, ◌∙◌, ◌≢◌, ◌⊎◌, inl, inr, true, false, List, [],
  ◌∷◌, ◌++◌, arith, ltb, leb, ◌==◌, if◌then◌else◌, Bool-cases, ltb→lt, ==_refl, length, take, All,
}
use hvos.Fs.Vfs.{
  Dentry, Vfs, same_name, name_max, find_child, is_dir, alloc_dentry, s_ifdir, ramfs_create_inode,
  enter, add_child, ramfs_max_children, no_data,
}
use hvos.Fs.Vfs.Nodes.{
  IsNode, IsValid, children_of, resolve, resolve_one, resolve_one-IsNode, resolve_nil, resolve_gone,
  resolve_found, zero_or_not, All-map, find_child_same,
}

-- The store after a new entry `v.next` was entered in the directory `p`.
pub record Grown (v v' : Vfs) (p : ℕ) (name : List ℕ) (mode : ℕ) : Type 0 where
  pub same_root : v'.root_dentry ≡ v.root_dentry
  pub same_entries : (d : ℕ) → d < v.next → v'.dentry d ≡ v.dentry d
  pub same_use : (d : ℕ) → d < v.next → v'.freed d ≡ v.freed d
  pub new_entry :
      v'.dentry v.next
      ≡ (record { d_name = take name_max name; d_inode = v.next_inode; d_parent = p })
  pub new_used : v'.freed v.next ≡ false
  pub new_inode :
      v'.inode v.next_inode
      ≡ (record { i_ino = v.next_ino_num; i_mode = mode; children = []; file = no_data })
  pub same_modes : (i : ℕ) → i < v.next_inode → (v'.inode i).i_mode ≡ (v.inode i).i_mode
  pub children_grow :
      (i : ℕ)
      → i < v.next_inode
      → (v'.inode i).children ≡ (
          if i == (v.dentry p).d_inode
          then (v.inode i).children ++ v.next ∷ []
          else (v.inode i).children)
  pub one_more : v'.next ≡ v.next + 1
  pub one_more_inode : v'.next_inode ≡ v.next_inode + 1

pub add_child-Grown :
    (v : Vfs) (p : ℕ) (name : List ℕ) (mode : ℕ)
    → p < v.next
    → (v.dentry p).d_inode < v.next_inode
    → length (children_of v p) < ramfs_max_children
    → ((add_child (alloc_dentry v name 0 p).1 (v.dentry p).d_inode v.next mode).0 ≡ 0)
      × Grown v
          (add_child (alloc_dentry v name 0 p).1 (v.dentry p).d_inode v.next mode).1
          p
          name
          mode
unfolding add_child alloc_dentry ramfs_create_inode enter
add_child-Grown v p name mode h1 h2 h3 = rw (room) (
  refl,
  record {
    same_root = refl;
    same_entries = λ d h. ground arith;
    same_use = λ d h. ground arith;
    new_entry = ground arith;
    new_used = ground arith;
    new_inode = ground arith;
    same_modes = λ i h. ground arith;
    children_grow = λ i h. ground arith;
    one_more = refl;
    one_more_inode = refl;
  },
)
  where
    room : leb ramfs_max_children (length (children_of v p)) ≡ false
    room = ground arith

find_child-append :
    (e : ℕ → Dentry) (cs : List ℕ) (n : ℕ) (name : List ℕ)
    → find_child e cs name ≢ 0
    → find_child e (cs ++ n ∷ []) name ≡ find_child e cs name
unfolding find_child
find_child-append e [] n name found = absurd (found refl)
find_child-append e (c ∷ cs) n name found = elim (Bool-cases (same_name (e c).d_name name)) [
  | inl is ↦ rw is refl
  | inr other ↦ rw other (find_child-append e cs n name (λ z. found (rw other z)))
]

find_child-last :
    (v : Vfs) (e : ℕ → Dentry) (cs : List ℕ) (n : ℕ) (name : List ℕ)
    → All (IsNode v) cs
    → find_child e cs name ≡ 0
    → same_name (e n).d_name name ≡ true
    → find_child e (cs ++ n ∷ []) name ≡ n
unfolding find_child
find_child-last v e [] n name nodes none_ is = rw is refl
find_child-last v e (c ∷ cs) n name nodes none_ is =
    elim (Bool-cases (same_name (e c).d_name name)) [
      | inl here ↦ absurd (omega (arith, (nodes.0).not_null, head_is here))
      | inr other ↦ rw other (find_child-last v e cs n name nodes.1 (rest_is other) is)
    ]
  where
    head_is : same_name (e c).d_name name ≡ true → c ≡ 0
    head_is here = ground arith

    rest_is : same_name (e c).d_name name ≡ false → find_child e cs name ≡ 0
    rest_is other = ground arith

pub same_name_refl : (name : List ℕ) → same_name name name ≡ true
same_name_refl [] = refl
same_name_refl (c ∷ cs) = rw (==_refl c) (same_name_refl cs)

module _ {v v' : Vfs} {p : ℕ} {name : List ℕ} {mode : ℕ} (g : Grown v v' p name mode)
    (ok : IsValid v) (parent : IsNode v p) where
  pub Grown-IsNode : {d : ℕ} → IsNode v d → IsNode v' d
  Grown-IsNode {d} n = record {
    not_null = n.not_null;
    old = omega (arith, n.old, g.one_more);
    has_inode = subst (λ e. e.d_inode ≢ 0) (sym (g.same_entries d n.old)) n.has_inode;
    in_use = g.same_use d n.old ∙ n.in_use;
  }

  pub new-IsNode : IsNode v' v.next
  new-IsNode = record {
    not_null = omega (arith, parent.old);
    old = omega (arith, g.one_more);
    has_inode =
        subst (λ e. e.d_inode ≢ 0) (sym g.new_entry) (λ z. omega (arith, ok.inode_old p parent));
    in_use = g.new_used;
  }

  IsNode-cases : {d : ℕ} → IsNode v' d → (d ≡ v.next) ⊎ IsNode v d
  IsNode-cases {d} n = elim (Bool-cases (ltb d v.next)) [
    | inr new ↦ inl (ground (arith, n.old, g.one_more))
    | inl old ↦
        let h = ltb→lt _ _ old in
        inr (record {
          not_null = n.not_null;
          old = h;
          has_inode = subst (λ e. e.d_inode ≢ 0) (g.same_entries d h) n.has_inode;
          in_use = sym (g.same_use d h) ∙ n.in_use;
        })
  ]

  Grown-children_of :
      (d : ℕ)
      → IsNode v d
      → children_of v' d ≡ (
          if (v.dentry d).d_inode == (v.dentry p).d_inode
          then children_of v d ++ v.next ∷ []
          else children_of v d)
  Grown-children_of d n =
      ap (λ e. (v'.inode e.d_inode).children) (g.same_entries d n.old)
      ∙ g.children_grow (v.dentry d).d_inode (ok.inode_old d n)

  pub Grown-is_dir : (d : ℕ) → IsNode v d → is_dir v' d ≡ is_dir v d
  Grown-is_dir d n =
      ap (λ e. (v'.inode e.d_inode).i_mode / s_ifdir % 2 == 1) (g.same_entries d n.old)
      ∙ ap (λ m. m / s_ifdir % 2 == 1) (g.same_modes (v.dentry d).d_inode (ok.inode_old d n))

  old_entries : (d : ℕ) → IsNode v d → All (λ c. v'.dentry c ≡ v.dentry c) (children_of v d)
  old_entries d n = All-map (children_of v d) (λ c m. g.same_entries c m.old) (ok.child_nodes d n)

  -- A name that is found in a directory is found there still.
  child_kept :
      (d : ℕ) (nm : List ℕ)
      → IsNode v d
      → find_child v.dentry (children_of v d) nm ≢ 0
      → find_child v'.dentry (children_of v' d) nm ≡ find_child v.dentry (children_of v d) nm
  child_kept d nm n found =
      let same = find_child_same v.dentry v'.dentry (children_of v d) nm (old_entries d n) in
      ap (λ cs. find_child v'.dentry cs nm) (Grown-children_of d n)
      ∙ elim (Bool-cases ((v.dentry d).d_inode == (v.dentry p).d_inode)) [
        | inl here ↦ rw here (
            find_child-append v'.dentry (children_of v d) v.next nm (λ z. found (sym same ∙ z))
            ∙ same)
        | inr other ↦ rw other same
      ]

  pub Grown-resolve_one :
      (d : ℕ) (nm : List ℕ)
      → IsNode v d
      → resolve_one v d nm ≢ 0
      → resolve_one v' d nm ≡ resolve_one v d nm
  Grown-resolve_one d nm n found =
      ground (arith, g.same_entries d n.old, Grown-is_dir d n, child_kept d (take name_max nm) n)

  pub Grown-IsValid : IsValid v'
  Grown-IsValid = record {
    root_node = subst (IsNode v') (sym g.same_root) (Grown-IsNode ok.root_node);
    child_nodes = λ d n. elim (IsNode-cases n) [
      | inl new ↦
          subst (λ x. All (IsNode v') (children_of v' x)) (sym new)
            (subst (All (IsNode v')) (sym no_children) tt)
      | inr o ↦
          subst (All (IsNode v')) (sym (Grown-children_of d o))
            (if_All d (All-map (children_of v d) (λ c m. Grown-IsNode m) (ok.child_nodes d o)))
    ];
    parent_node = λ d n. elim (IsNode-cases n) [
      | inl new ↦ inr (
          subst (IsNode v')
            (sym (ap (λ e. (v'.dentry e).d_parent) new ∙ ap (λ e. e.d_parent) g.new_entry))
            (Grown-IsNode parent))
      | inr o ↦
          subst (λ e. (e.d_parent ≡ 0) ⊎ IsNode v' e.d_parent) (sym (g.same_entries d o.old))
            (elim (ok.parent_node d o) [ inl z ↦ inl z | inr m ↦ inr (Grown-IsNode m) ])
    ];
    inode_old = λ d n. elim (IsNode-cases n) [
      | inl new ↦ omega (
        arith,
        ap (λ e. (v'.dentry e).d_inode) new,
        ap (λ e. e.d_inode) g.new_entry,
        g.one_more_inode,
      )
      | inr o ↦
          omega (
            arith,
            ap (λ e. e.d_inode) (g.same_entries d o.old),
            ok.inode_old d o,
            g.one_more_inode,
          )
    ];
  }
    where
      no_children : children_of v' v.next ≡ []
      no_children =
          ap (λ e. (v'.inode e.d_inode).children) g.new_entry ∙ ap (λ i. i.children) g.new_inode

      All_last : (cs : List ℕ) → All (IsNode v') cs → All (IsNode v') (cs ++ v.next ∷ [])
      All_last [] h = (new-IsNode, tt)
      All_last (c ∷ cs) h = (h.0, All_last cs h.1)

      if_All :
          (d : ℕ)
          → All (IsNode v') (children_of v d)
          → All (IsNode v') (
              if (v.dentry d).d_inode == (v.dentry p).d_inode
              then children_of v d ++ v.next ∷ []
              else children_of v d)
      if_All d h = elim (Bool-cases ((v.dentry d).d_inode == (v.dentry p).d_inode)) [
        | inl here ↦ rw here (All_last (children_of v d) h)
        | inr other ↦ rw other h
      ]

  -- Every path that led somewhere leads there still.
  pub Grown-resolve :
      (d : ℕ) (names : List (List ℕ))
      → IsNode v d
      → resolve v d names ≢ 0
      → resolve v' d names ≡ resolve v d names
  Grown-resolve d [] n found = resolve_nil v' d ∙ sym (resolve_nil v d)
  Grown-resolve d (nm ∷ names) n found = elim (zero_or_not (resolve_one v d nm)) [
    | inl gone ↦ absurd (found (resolve_gone v d nm names gone))
    | inr there ↦
        let one = Grown-resolve_one d nm n there in
        let e = resolve_found v d nm names there in
        resolve_found v' d nm names (λ z. there (sym one ∙ z))
        ∙ ap (λ x. resolve v' x names) one
        ∙ Grown-resolve (resolve_one v d nm) names (resolve_one-IsNode v d nm ok n there)
            (λ z. found (e ∙ z))
        ∙ sym e
  ]

  -- The new name is found in the directory, if it was not there before.
  pub Grown-child :
      find_child v.dentry (children_of v p) (take name_max name) ≡ 0
      → find_child v'.dentry (children_of v' p) (take name_max name) ≡ v.next
  Grown-child absent =
      ap (λ cs. find_child v'.dentry cs (take name_max name)) here
      ∙ find_child-last v v'.dentry (children_of v p) v.next (take name_max name)
          (ok.child_nodes p parent)
          (find_child_same v.dentry v'.dentry (children_of v p) (take name_max name)
              (old_entries p parent)
            ∙ absent)
          (ap (λ e. same_name e.d_name (take name_max name)) g.new_entry
            ∙ same_name_refl (take name_max name))
    where
      here : children_of v' p ≡ children_of v p ++ v.next ∷ []
      here = ground (arith, Grown-children_of p parent)
