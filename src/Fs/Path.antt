-- ===== src/Fs/Path.antt =====
-- src/kernel/fs/vfs.c: paths. A C string is the list of its bytes before the NUL.
pub mod Parts
pub mod Split
use hvos.Common.{
  ℕ, zero, suc, ◌+◌, ◌-◌, ◌*◌, ◌/◌, ◌%◌, ◌^◌, ◌≤◌, ◌<◌, bit_and, bit_or, ◌≡◌, refl, sym, ap, subst,
  ◌∙◌, ◌≢◌, ◌↔◌, ◌⊎◌, inl, inr, Bool, true, false, not, ◌&&◌, ◌||◌, Option, none, some, List, [],
  ◌∷◌, ◌++◌, map, arith, ltb, leb, ◌==◌, if◌then◌else◌, Bool-cases, Option-cases, every, every-lem,
  ltb→lt, lt→ltb, le→ltb, ==→eq, ==-ne, ==_refl, u8, u16, u32, u64, sub64, ◌<<<◌, ◌>>>◌, length,
  replicate, take, drop, listed, get_elem?, get_or, set, All, length-set, get_or-set_self,
  get_or-set_ne, length-append, length-replicate, All-replicate, get_or-replicate, All-set,
  All-get_or,
}
use hvos.Common.Loops.{each_from, each_from-keeps}

abbrev pub slash : ℕ
slash = b'/'

-- The longest token that fits in `char token[32]`.
abbrev pub token_max : ℕ
token_max = 31

-- `while (*path == '/') path++;`
unfoldable pub skip_slashes : List ℕ → List ℕ
skip_slashes [] = []
skip_slashes (c ∷ cs) = if c == slash then skip_slashes cs else c ∷ cs

-- The token from index `i` of the buffer on, and the rest of the path.
unfoldable pub token_from : ℕ → List ℕ → List ℕ × List ℕ
token_from i [] = ([], [])
token_from i (c ∷ cs) =
    if c == slash
    then ([], c ∷ cs)
    else (let (token, rest) = token_from (if ltb i token_max then i + 1 else i) cs in
        (if ltb i token_max then c ∷ token else token, rest))

-- `none` is NULL.
unfoldable pub next_path_token : List ℕ → Option (List ℕ × List ℕ)
next_path_token path = elim (skip_slashes path) [
  | [] ↦ none
  | c ∷ cs ↦ some (token_from 0 (c ∷ cs))
]

-- The index of the last `c`, which is not NUL.
unfoldable pub strrchr : List ℕ → ℕ → Option ℕ
strrchr [] c = none
strrchr (x ∷ xs) c = elim (strrchr xs c) [
  | some i ↦ some (suc i)
  | none ↦ if x == c then some 0 else none
]

-- The part of `vfs_split_path` behind the search, with the last slash at index `i`.
unfoldable pub split_at : List ℕ → ℕ → ℕ → ℕ → Option (List ℕ × List ℕ)
split_at path i dir_max file_max =
    let file = drop (i + 1) path in
    let dir_len = if i == 0 then 1 else i in
    if i == 0 && length file == 0
    then (if ltb dir_max 2 || ltb file_max 1 then none else some (slash ∷ [], []))
    else if length file == 0
    then none
    else if leb dir_max dir_len || leb file_max (length file)
    then none
    else some (if i == 0 then slash ∷ [] else take dir_len path, file)

abbrev pub is_absolute : List ℕ → Bool
is_absolute [] = false
is_absolute (c ∷ cs) = c == slash

-- The directory and the name in it, if `vfs_split_path` returns true.
unfoldable pub vfs_split_path : List ℕ → ℕ → ℕ → Option (List ℕ × List ℕ)
vfs_split_path path dir_max file_max =
    if is_absolute path
    then (elim (strrchr path slash) [ none ↦ none | some i ↦ split_at path i dir_max file_max ])
    else none
