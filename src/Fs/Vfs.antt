-- ===== src/Fs/Vfs.antt =====
-- src/kernel/fs/vfs.c and the directories of ramfs.c: paths name entries of a tree in memory.
-- A pointer is a number, 0 for NULL. `kmalloc` halts the kernel when memory is short, so it gives a new
-- address here, and no branch for NULL is taken. The nodes are those of ramfs, the only file system:
-- the operations of an inode are called directly, and its `i_op` and `i_private` are never NULL.
pub mod Nodes
pub mod Lookup
pub mod Grow
pub mod Create
pub mod Calls
mod Examples
use hvos.Common.{
  ℕ, zero, suc, ◌+◌, ◌-◌, ◌*◌, ◌/◌, ◌%◌, ◌^◌, ◌≤◌, ◌<◌, bit_and, bit_or, ◌≡◌, refl, sym, ap, subst,
  ◌∙◌, ◌≢◌, ◌↔◌, ◌⊎◌, inl, inr, Bool, true, false, not, ◌&&◌, ◌||◌, Option, none, some, List, [],
  ◌∷◌, ◌++◌, map, append_assoc, append-nil, arith, ltb, leb, ◌==◌, if◌then◌else◌, Bool-cases,
  Option-cases, every, every-lem, ltb→lt, lt→ltb, le→ltb, ==→eq, ==-ne, ==_refl, u8, u16, u32, u64,
  sub64, ◌<<<◌, ◌>>>◌, length, assign, replicate, take, drop, listed, get_elem?, get_or, set, All,
  length-set, get_or-set_self, get_or-set_ne, length-append, length-replicate, All-replicate,
  get_or-replicate, All-set, All-get_or,
}
use hvos.Common.Loops.{each_from, each_from-keeps}
use hvos.Fs.Path.{is_absolute, next_path_token, vfs_split_path}
use hvos.Fs.Ramfs.{FileData}

pub record Dentry : Type 0 where
  pub d_name : List ℕ
  pub d_inode : ℕ
  pub d_parent : ℕ

-- `children` is the directory's `ramfs_dir_data_t`, and `file` has a file's data and `i_size`.
pub record Inode : Type 0 where
  pub i_ino : ℕ
  pub i_mode : ℕ
  pub children : List ℕ
  pub file : FileData

-- Pointers to entries and to inodes are numbered apart; `next` and `next_inode` are the next new ones.
-- `freed` says of which entries `kfree` was called.
pub record Vfs : Type 0 where
  pub root_dentry : ℕ
  pub dentry : ℕ → Dentry
  pub inode : ℕ → Inode
  pub next_ino_num : ℕ
  pub next : ℕ
  pub next_inode : ℕ
  pub freed : ℕ → Bool

abbrev pub s_ifdir : ℕ
s_ifdir = 0x4000

abbrev pub s_ifreg : ℕ
s_ifreg = 0x8000

-- `mode & bit` and `bit | mode`, for one bit.
abbrev pub has_bit : ℕ → ℕ → Bool
has_bit mode bit = (mode / bit) % 2 == 1

abbrev pub with_bit : ℕ → ℕ → ℕ
with_bit bit mode = if has_bit mode bit then mode else mode + bit

abbrev pub ramfs_max_children : ℕ
ramfs_max_children = 32

-- `strcmp(a, b) == 0`
abbrev pub same_name : List ℕ → List ℕ → Bool
same_name [] [] = true
same_name [] (y ∷ ys) = false
same_name (x ∷ xs) [] = false
same_name (x ∷ xs) (y ∷ ys) = x == y && same_name xs ys

-- `strncpy` of 31 characters into `d_name`.
abbrev pub name_max : ℕ
name_max = 31

unfoldable pub alloc_dentry : Vfs → List ℕ → ℕ → ℕ → ℕ × Vfs
alloc_dentry v name inode parent = (
  v.next,
  record v {
    dentry =
        assign v.dentry v.next
          (record { d_name = take name_max name; d_inode = inode; d_parent = parent });
    next = v.next + 1;
    freed = assign v.freed v.next false;
  },
)

unfoldable pub free_dentry : Vfs → ℕ → Vfs
free_dentry v d = record v { freed = assign v.freed d true }

-- The loop of `ramfs_lookup`.
unfoldable pub find_child : (ℕ → Dentry) → List ℕ → List ℕ → ℕ
find_child dentry [] name = 0
find_child dentry (c ∷ cs) name =
    if same_name (dentry c).d_name name then c else find_child dentry cs name

-- The entry that is passed is freed when a child has its name.
unfoldable pub ramfs_lookup : Vfs → ℕ → ℕ → ℕ × Vfs
ramfs_lookup v dir d =
    let child = find_child v.dentry (v.inode dir).children (v.dentry d).d_name in
    if child == 0 then (0, v) else (child, free_dentry v d)

abbrev pub no_data : FileData
no_data = record { buffer = []; capacity = 0; i_size = 0 }

unfoldable pub ramfs_create_inode : Vfs → ℕ → ℕ × Vfs
ramfs_create_inode v mode = (
  v.next_inode,
  record v {
    inode =
        assign v.inode v.next_inode
          (record { i_ino = v.next_ino_num; i_mode = mode; children = []; file = no_data });
    next_ino_num = u32 (v.next_ino_num + 1);
    next_inode = v.next_inode + 1;
  },
)

-- `dentry->d_inode = new_inode; dir_data->children[dir_data->child_count++] = dentry;`
unfoldable pub enter : Vfs → ℕ → ℕ → ℕ → Vfs
enter v dir d new_inode = record v {
  dentry = assign v.dentry d (record (v.dentry d) { d_inode = new_inode });
  inode = assign v.inode dir (record (v.inode dir) { children = (v.inode dir).children ++ d ∷ [] });
}

-- A new inode, entered for `d` if the directory has room. A result `n` stands for -n.
unfoldable pub add_child : Vfs → ℕ → ℕ → ℕ → ℕ × Vfs
add_child v dir d mode =
    if leb ramfs_max_children (length (v.inode dir).children)
    then (1, v)
    else (let (ino, v') = ramfs_create_inode v mode in (0, enter v' dir d ino))

unfoldable pub ramfs_mkdir : Vfs → ℕ → ℕ → ℕ → ℕ × Vfs
ramfs_mkdir v dir d mode = add_child v dir d (with_bit s_ifdir mode)

unfoldable pub ramfs_create : Vfs → ℕ → ℕ → ℕ → ℕ × Vfs
ramfs_create v dir d mode = add_child v dir d (with_bit s_ifreg mode)

abbrev pub dot : ℕ
dot = b'.'

abbrev pub is_dir : Vfs → ℕ → Bool
is_dir v d = has_bit (v.inode (v.dentry d).d_inode).i_mode s_ifdir

-- A named child, for which a search entry is allocated and freed again.
unfoldable pub descend : Vfs → ℕ → List ℕ → ℕ × Vfs
descend v current token =
    let (search, v1) = alloc_dentry v token 0 current in
    let (found, v2) = ramfs_lookup v1 (v.dentry current).d_inode search in
    if found == 0 || (v2.dentry found).d_inode == 0
    then (0, if found == 0 || not (found == search) then free_dentry v2 search else v2)
    else (found, v2)

-- A round of the loop of `vfs_lookup`: the entry that the token leads to, or NULL.
unfoldable pub walk : Vfs → ℕ → List ℕ → ℕ × Vfs
walk v current token =
    if same_name token (dot ∷ [])
    then (current, v)
    else if same_name token (dot ∷ dot ∷ [])
    then (if (v.dentry current).d_parent == 0 then current else (v.dentry current).d_parent, v)
    else if not (is_dir v current)
    then (0, v)
    else descend v current token

-- The loop, with fuel for its rounds.
unfoldable pub look : ℕ → Vfs → ℕ → List ℕ → ℕ × Vfs
look zero v current path = (0, v)
look (suc n) v current path = elim (next_path_token path) [
  | none ↦ (current, v)
  | some token_next ↦
      let to = walk v current token_next.0 in
      elim (to.0 == 0) [ true ↦ (0, to.1) | false ↦ look n to.1 to.0 token_next.1 ]
]

unfoldable pub vfs_lookup : Vfs → List ℕ → ℕ × Vfs
vfs_lookup v path =
    if v.root_dentry == 0 || not (is_absolute path)
    then (0, v)
    else look (length path + 1) v v.root_dentry path

-- `struct file`, as `vfs_open` fills it.
pub record File : Type 0 where
  pub f_dentry : ℕ
  pub f_pos : ℕ

-- ramfs has no `open` operation.
unfoldable pub vfs_open : Vfs → List ℕ → Option File × Vfs
vfs_open v path =
    let (d, v') = vfs_lookup v path in
    if d == 0 || (v'.dentry d).d_inode == 0 || is_dir v' d
    then (none, v')
    else (some (record { f_dentry = d; f_pos = 0 }), v')

-- The sizes of the buffers for the directory and for the name, in `vfs_create` and `vfs_mkdir`.
abbrev pub dir_max : ℕ
dir_max = 256

abbrev pub file_max : ℕ
file_max = 32

abbrev pub new_dir_max : ℕ
new_dir_max = 64

-- The parent's path is looked up, and what is found is the directory or an error.
unfoldable pub create_in : Vfs → List ℕ → List ℕ → ℕ → ℕ × Vfs
create_in v dir name mode =
    let (parent, v1) = vfs_lookup v dir in
    if parent == 0 || (v1.dentry parent).d_inode == 0
    then (2, v1)
    else if not (is_dir v1 parent)
    then (3, v1)
    else (let (new_file, v2) = alloc_dentry v1 name 0 parent in
        ramfs_create v2 (v2.dentry parent).d_inode new_file mode)

unfoldable pub vfs_create : Vfs → List ℕ → ℕ → ℕ × Vfs
vfs_create v path mode = elim (vfs_split_path path dir_max file_max) [
  | none ↦ (1, v)
  | some dir_name ↦ create_in v dir_name.0 dir_name.1 mode
]

-- `vfs_mkdir` behind its search for an entry of that name.
unfoldable pub make_dir : Vfs → ℕ → List ℕ → ℕ → ℕ × Vfs
make_dir v parent name mode =
    let (new_dir, v1) = alloc_dentry v name 0 parent in
    let (result, v2) = ramfs_mkdir v1 (v1.dentry parent).d_inode new_dir mode in
    (result, if result == 0 then v2 else free_dentry v2 new_dir)

unfoldable pub mkdir_in : Vfs → List ℕ → List ℕ → ℕ → ℕ × Vfs
mkdir_in v dir name mode =
    let (parent, v1) = vfs_lookup v dir in
    if parent == 0 || (v1.dentry parent).d_inode == 0
    then (2, v1)
    else if not (is_dir v1 parent)
    then (3, v1)
    else (let (search, v2) = alloc_dentry v1 name 0 parent in
        let (existing, v3) = ramfs_lookup v2 (v2.dentry parent).d_inode search in
        if not (existing == 0) && not ((v3.dentry existing).d_inode == 0)
        then (6, v3)
        else make_dir v3 parent name mode)

unfoldable pub vfs_mkdir : Vfs → List ℕ → ℕ → ℕ × Vfs
vfs_mkdir v path mode = elim (vfs_split_path path dir_max new_dir_max) [
  | none ↦ (1, v)
  | some dir_name ↦ mkdir_in v dir_name.0 dir_name.1 mode
]

-- `ramfs_init`, on a store where nothing else is.
unfoldable pub ramfs_init : Vfs
ramfs_init =
    let root_inode : Inode = record {
      i_ino = 2;
      i_mode = s_ifdir;
      children = [];
      file = no_data;
    } in
    record {
      root_dentry = 1;
      dentry = λ _. record { d_name = b'/' ∷ []; d_inode = 1; d_parent = 0 };
      inode = λ _. root_inode;
      next_ino_num = 100;
      next = 2;
      next_inode = 2;
      freed = λ _. false;
    }
