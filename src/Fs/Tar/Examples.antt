-- ===== src/Fs/Tar/Examples.antt =====
-- An archive with one file, and one that is cut short.
use hvos.Common.{ℕ, ◌+◌, ◌/◌, ◌≡◌, ◌⊎◌, List, ◌==◌, if◌then◌else◌, replicate}
use hvos.Fs.Vfs.{ramfs_init}
use hvos.Fs.Vfs.Nodes.{ramfs_init-IsValid, IsValid}
use hvos.Fs.Vfs.Create.{at_path}
use hvos.Fs.Tar.{unpack, ramfs_from_tar}
use hvos.Fs.Tar.Unpack.{ramfs_from_tar_lem}

-- The header of a file "a" of no bytes, and nothing behind it.
abbrev archive : ℕ → ℕ
archive i =
    if i == 0
    then b'a'
    else if i == 156
    then b'0'
    else if i == 257
    then b'u'
    else if i == 258
    then b's'
    else if i == 259
    then b't'
    else if i == 260
    then b'a'
    else if i == 261
    then b'r'
    else 0

ramfs_from_tar_lem_example :
    (unpack (1024 / 512 + 1 + 5) (λ n. replicate n 0) archive 1024 0 ramfs_init
      ≡ ramfs_from_tar (λ n. replicate n 0) archive 1024 ramfs_init)
    × IsValid (ramfs_from_tar (λ n. replicate n 0) archive 1024 ramfs_init)
    × ((path : List ℕ)
        → (at_path ramfs_init path ≡ 0)
          ⊎ (at_path (ramfs_from_tar (λ n. replicate n 0) archive 1024 ramfs_init) path
              ≡ at_path ramfs_init path))
ramfs_from_tar_lem_example =
    ramfs_from_tar_lem (λ n. replicate n 0) archive 1024 5 ramfs_init ramfs_init-IsValid
