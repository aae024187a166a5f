-- ===== src/Fs/Vfs/Examples.antt =====
-- A file system with a directory and a file in it.
use hvos.Common.{ℕ, ◌≤◌, ◌≡◌, refl, ◌⊎◌, false, some, List, [], ◌∷◌, if◌then◌else◌}
use hvos.Fs.Path.{
  is_absolute, is_absolute, skip_slashes, token_from, next_path_token, strrchr, split_at,
  vfs_split_path,
}
use hvos.Fs.Path.Parts.{components}
use hvos.Fs.Vfs.{
  Vfs, File, find_child, alloc_dentry, free_dentry, ramfs_lookup, ramfs_create_inode, enter,
  add_child, ramfs_mkdir, ramfs_create, descend, walk, look, vfs_lookup, vfs_open, create_in,
  vfs_create, make_dir, mkdir_in, vfs_mkdir, ramfs_init, with_bit, s_ifreg, no_data,
}
use hvos.Fs.Vfs.Nodes.{ramfs_init-IsValid, IsValid, Kept, resolve}
use hvos.Fs.Vfs.Lookup.{vfs_lookup_lem}
use hvos.Fs.Vfs.Create.{at_path}
use hvos.Fs.Vfs.Create.Results.{HasCodes, vfs_codes}
use hvos.Fs.Vfs.Calls.{Calls, start, later, makes, Calls-keep}
use hvos.Fs.Vfs.Calls.Opened.{open-create}

-- "/a" and "/a/b"
abbrev dir_path : List ℕ
dir_path = b'/' ∷ b'a' ∷ []

abbrev file_path : List ℕ
file_path = b'/' ∷ b'a' ∷ b'/' ∷ b'b' ∷ []

abbrev with_dir : Vfs
with_dir = (vfs_mkdir ramfs_init dir_path 493).1

with_dir-Calls : Calls ramfs_init with_dir
with_dir-Calls = later ramfs_init _ start (makes dir_path 493)

Calls-keep_example :
    IsValid with_dir
    × ((path : List ℕ)
        → (at_path ramfs_init path ≡ 0) ⊎ (at_path with_dir path ≡ at_path ramfs_init path))
Calls-keep_example = Calls-keep ramfs_init with_dir ramfs_init-IsValid with_dir-Calls

with_dir-IsValid : IsValid with_dir
with_dir-IsValid = (Calls-keep ramfs_init with_dir ramfs_init-IsValid with_dir-Calls).0

-- The directory is found.
found_dir : (vfs_lookup with_dir dir_path).0 ≡ 3
unfolding vfs_lookup look walk descend next_path_token skip_slashes token_from vfs_mkdir
    vfs_split_path strrchr split_at mkdir_in make_dir ramfs_mkdir ramfs_lookup find_child add_child
    ramfs_create_inode enter alloc_dentry free_dentry ramfs_init
found_dir = refl

file_none : at_path with_dir file_path ≡ 0
unfolding vfs_lookup look walk descend next_path_token skip_slashes token_from vfs_mkdir
    vfs_split_path strrchr split_at mkdir_in make_dir ramfs_mkdir ramfs_lookup find_child add_child
    ramfs_create_inode enter alloc_dentry free_dentry ramfs_init resolve
file_none = refl

file_created : (vfs_create with_dir file_path 420).0 ≡ 0
unfolding vfs_lookup look walk descend next_path_token skip_slashes token_from vfs_mkdir
    vfs_split_path strrchr split_at mkdir_in make_dir ramfs_mkdir ramfs_lookup find_child add_child
    ramfs_create_inode enter alloc_dentry free_dentry ramfs_init vfs_create create_in ramfs_create
file_created = refl

vfs_lookup_lem_example :
    ((vfs_lookup with_dir dir_path).0 ≡ (
      if is_absolute dir_path
      then resolve with_dir with_dir.root_dentry (components dir_path)
      else 0))
    × Kept false with_dir (vfs_lookup with_dir dir_path).1
vfs_lookup_lem_example = vfs_lookup_lem with_dir dir_path with_dir-IsValid

vfs_codes_example :
    ((is_absolute dir_path ≡ false)
      × (vfs_create with_dir dir_path 420 ≡ (1, with_dir))
      × (vfs_mkdir with_dir dir_path 420 ≡ (1, with_dir)))
    ⊎ HasCodes with_dir dir_path 420
vfs_codes_example = vfs_codes with_dir dir_path 420 with_dir-IsValid

open-create_example :
    let v' = (vfs_create with_dir file_path 420).1 in
    (f : File) × ((vfs_open v' file_path).0 ≡ some f)
    × (f.f_pos ≡ 0)
    × (with_dir.next ≤ f.f_dentry)
    × ((v'.inode (v'.dentry f.f_dentry).d_inode).i_mode ≡ with_bit s_ifreg 420)
    × ((v'.inode (v'.dentry f.f_dentry).d_inode).file ≡ no_data)
open-create_example =
    open-create with_dir file_path 420 with_dir-IsValid refl file_none file_created
