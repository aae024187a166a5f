-- ===== src/Fs/Ramfs/Examples.antt =====
-- A small file.
use hvos.Common.{ℕ, List, [], ◌∷◌, replicate}
use hvos.Fs.Ramfs.{FileData}

-- "abc" in a buffer of four bytes.
abbrev abc : FileData
abc = record { buffer = 97 ∷ 98 ∷ 99 ∷ 0 ∷ []; capacity = 4; i_size = 3 }

abbrev fresh : ℕ → List ℕ
fresh n = replicate n 0
