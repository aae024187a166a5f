-- ===== src/Fs/Vfs/Nodes/Tree.antt =====
-- Entries, and what the components of a path lead to.
use hvos.Common.{
  ℕ, ◌≤◌, ◌<◌, ◌≡◌, ◌≢◌, ◌⊎◌, Bool, true, false, List, [], ◌∷◌, ◌==◌, if◌then◌else◌, take, All,
}
use hvos.Fs.Vfs.{Vfs, same_name, name_max, find_child, dot, is_dir}

-- An entry in use, with an inode.
pub record IsNode (v : Vfs) (d : ℕ) : Type 0 where
  pub not_null : 0 < d
  pub old : d < v.next
  pub has_inode : (v.dentry d).d_inode ≢ 0
  pub in_use : v.freed d ≡ false

abbrev pub children_of : Vfs → ℕ → List ℕ
children_of v d = (v.inode (v.dentry d).d_inode).children

pub record IsValid (v : Vfs) : Type 0 where
  pub root_node : IsNode v v.root_dentry
  pub child_nodes : (d : ℕ) → IsNode v d → All (IsNode v) (children_of v d)
  pub parent_node :
      (d : ℕ) → IsNode v d → ((v.dentry d).d_parent ≡ 0) ⊎ IsNode v (v.dentry d).d_parent
  pub inode_old : (d : ℕ) → IsNode v d → (v.dentry d).d_inode < v.next_inode

-- What one component leads to; 0 for nothing.
abbrev pub resolve_one : Vfs → ℕ → List ℕ → ℕ
resolve_one v d name =
    if same_name name (dot ∷ [])
    then d
    else if same_name name (dot ∷ dot ∷ [])
    then (if (v.dentry d).d_parent == 0 then d else (v.dentry d).d_parent)
    else if is_dir v d
    then find_child v.dentry (children_of v d) (take name_max name)
    else 0

-- What the components lead to, from one entry on.
unfoldable pub resolve : Vfs → ℕ → List (List ℕ) → ℕ
resolve v d [] = d
resolve v d (name ∷ names) = elim (resolve_one v d name == 0) [
  | true ↦ 0
  | false ↦ resolve v (resolve_one v d name) names
]

-- The tree is the same. Every entry that is new is freed; where that may be forgotten, it has no inode.
pub record Kept (leaks : Bool) (v v' : Vfs) : Type 0 where
  pub same_root : v'.root_dentry ≡ v.root_dentry
  pub same_inodes : v'.inode ≡ v.inode
  pub same_next_inode : v'.next_inode ≡ v.next_inode
  pub later : v.next ≤ v'.next
  pub same_entries : (d : ℕ) → d < v.next → v'.dentry d ≡ v.dentry d
  pub same_use : (d : ℕ) → d < v.next → v'.freed d ≡ v.freed d
  pub new_freed :
      (d : ℕ)
      → v.next ≤ d
      → d < v'.next
      → (v'.freed d ≡ true) ⊎ ((leaks ≡ true) × ((v'.dentry d).d_inode ≡ 0))
