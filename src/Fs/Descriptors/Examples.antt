-- ===== src/Fs/Descriptors/Examples.antt =====
-- The file system as it starts, and a process with one descriptor in use.
use hvos.Common.{◌≡◌, refl, Option, none, some, List, [], ◌∷◌}
use hvos.Fs.Path.{slash, next_path_token, skip_slashes, token_from}
use hvos.Fs.Vfs.{ramfs_init, vfs_lookup, look, walk}
use hvos.Fs.Vfs.Nodes.{ramfs_init-IsValid}
use hvos.Fs.Descriptors.{OpenFile, OpenResult, first_null, skip_first, open_at, sys_open}
use hvos.Fs.Descriptors.Opening.{Refuses, sys_open-Refuses}

abbrev table : List (Option OpenFile)
table = some (record { file = record { f_dentry = 1; f_pos = 0 }; f_flags = 0 }) ∷ none ∷ []

-- "/." names the root, and is not found; "//." opens it.
one_slash : (sys_open ramfs_init table (slash ∷ b'.' ∷ []) 0).0 ≡ OpenResult.enoent
unfolding sys_open first_null skip_first open_at vfs_lookup look walk next_path_token skip_slashes
    token_from ramfs_init
one_slash = refl

two_slashes : (sys_open ramfs_init table (slash ∷ slash ∷ b'.' ∷ []) 0).0 ≡ OpenResult.descriptor 1
unfolding sys_open first_null skip_first open_at vfs_lookup look walk next_path_token skip_slashes
    token_from ramfs_init
two_slashes = refl

sys_open-Refuses_example : Refuses ramfs_init table (b'.' ∷ []) 0
sys_open-Refuses_example = sys_open-Refuses ramfs_init table (b'.' ∷ []) 0 ramfs_init-IsValid refl
