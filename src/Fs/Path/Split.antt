-- ===== src/Fs/Path/Split.antt =====
-- `vfs_split_path` divides a path before its last component.
use hvos.Common.{
  ℕ, suc, ◌+◌, ◌<◌, ◌≡◌, refl, sym, ap, subst, ◌∙◌, ◌⊎◌, inl, inr, true, false, ◌||◌, Option, none,
  some, List, [], ◌∷◌, ◌++◌, append_assoc, append-nil, arith, ltb, leb, ◌==◌, if◌then◌else◌,
  Bool-cases, ==→eq, length, take, drop, listed,
}
use hvos.Fs.Path.{slash, strrchr, split_at, is_absolute, vfs_split_path}
use hvos.Fs.Path.Parts.{pieces, cut, cut_cons, components}

strrchr_lem :
    (xs : List ℕ) (c : ℕ)
    → ((strrchr xs c ≡ none) × (listed xs c ≡ false))
      ⊎ ((a b : List ℕ) × (xs ≡ a ++ c ∷ b)
          × (strrchr xs c ≡ some (length a))
          × (listed b c ≡ false))
unfolding strrchr
strrchr_lem [] c = inl (refl, refl)
strrchr_lem (x ∷ xs) c = elim (strrchr_lem xs c) [
  | inl (none_, not_in) ↦ elim (Bool-cases (x == c)) [
    | inl is ↦ inr ([], xs, ap (λ y. y ∷ xs) (==→eq x c is), rw (none_, is) refl, not_in)
    | inr other ↦ inl (rw (none_, other) refl, rw (other, not_in) refl)
  ]
  | inr (a, b, e, found, not_in) ↦ inr (x ∷ a, b, ap (λ ys. x ∷ ys) e, rw found refl, not_in)
]

pieces-append :
    (acc a b : List ℕ) → cut (pieces acc (a ++ slash ∷ b)) ≡ cut (pieces acc a) ++ components b
pieces-append acc [] b = cut_cons acc (pieces [] b)
pieces-append acc (c ∷ a) b = elim (Bool-cases (c == slash)) [
  | inl ends ↦ rw ends (
      cut_cons acc (pieces [] (a ++ slash ∷ b))
      ∙ ap (λ ps. cut (acc ∷ []) ++ ps) (pieces-append [] a b)
      ∙ sym (append_assoc (cut (acc ∷ [])) (components a) (components b))
      ∙ ap (λ ps. ps ++ components b) (sym (cut_cons acc (pieces [] a))))
  | inr goes ↦ rw goes (pieces-append (acc ++ c ∷ []) a b)
]

pieces_whole : (acc b : List ℕ) → listed b slash ≡ false → pieces acc b ≡ (acc ++ b) ∷ []
pieces_whole acc [] h = ap (λ p. p ∷ []) (sym (append-nil acc))
pieces_whole acc (c ∷ b) h =
    rw (part.0)
      (pieces_whole (acc ++ c ∷ []) b part.1 ∙ ap (λ p. p ∷ []) (append_assoc acc (c ∷ []) b))
  where
    part : ((c == slash) ≡ false) × (listed b slash ≡ false)
    part = ground arith

drop-suc : (a b : List ℕ) (c : ℕ) → drop (suc (length a)) (a ++ c ∷ b) ≡ b
drop-suc [] b c = refl
drop-suc (x ∷ a) b c = drop-suc a b c

drop-append : (a b : List ℕ) (c : ℕ) → drop (length a + 1) (a ++ c ∷ b) ≡ b
drop-append a b c =
    ap (λ n. drop n (a ++ c ∷ b)) {y = suc (length a)} (omega arith) ∙ drop-suc a b c

take-append : (a b : List ℕ) → take (length a) (a ++ b) ≡ a
take-append [] b = refl
take-append (x ∷ a) b = ap (λ ys. x ∷ ys) (take-append a b)

-- The result of the split for a path with its parts written out.
abbrev pub split_parts : List ℕ → List ℕ → ℕ → ℕ → Option (List ℕ × List ℕ)
split_parts [] [] dir_max file_max =
    if ltb dir_max 2 || ltb file_max 1 then none else some (slash ∷ [], [])
split_parts [] (c ∷ b) dir_max file_max =
    if leb dir_max 1 || leb file_max (length (c ∷ b)) then none else some (slash ∷ [], c ∷ b)
split_parts (x ∷ a) [] dir_max file_max = none
split_parts (x ∷ a) (c ∷ b) dir_max file_max =
    if leb dir_max (length (x ∷ a)) || leb file_max (length (c ∷ b))
    then none
    else some (x ∷ a, c ∷ b)

split_at_lem :
    (a b : List ℕ) (dm fm : ℕ) → split_at (a ++ slash ∷ b) (length a) dm fm ≡ split_parts a b dm fm
unfolding split_at
split_at_lem [] [] dm fm = refl
split_at_lem [] (c ∷ b) dm fm = ground arith
split_at_lem (x ∷ a) [] dm fm = rw (drop-append (x ∷ a) [] slash) (ground arith)
split_at_lem (x ∷ a) (c ∷ b) dm fm =
    rw (drop-append (x ∷ a) (c ∷ b) slash) (ground (arith, take-append (x ∷ a) (slash ∷ c ∷ b)))

-- The path, and what its split into the parts before and behind the last slash gives.
pub split_cases :
    (path : List ℕ)
    → is_absolute path ≡ true
    → (a b : List ℕ) × (path ≡ a ++ slash ∷ b)
      × (listed b slash ≡ false)
      × ((dm fm : ℕ) → vfs_split_path path dm fm ≡ split_parts a b dm fm)
unfolding vfs_split_path
split_cases path abs = elim (strrchr_lem path slash) [
  | inl (none_, not_in) ↦ absurd (no_slash path abs not_in)
  | inr (a, b, e, found, not_in) ↦ (
    a,
    b,
    e,
    not_in,
    λ dm fm. rw (abs, found) (ap (λ p. split_at p (length a) dm fm) e ∙ split_at_lem a b dm fm),
  )
]
  where
    no_slash : (path : List ℕ) → is_absolute path ≡ true → listed path slash ≡ false → ⊥
    no_slash [] h k = cc
    no_slash (c ∷ cs) h k = ground arith

-- What a division of a path into a directory and a name promises.
pub record Divides (path dir name : List ℕ) (file_max : ℕ) : Type 0 where
  pub same_components : components path ≡ components dir ++ cut (name ∷ [])
  pub absolute : is_absolute dir ≡ true
  pub one_name : listed name slash ≡ false
  pub fits : length name < file_max

components_name : (b : List ℕ) → listed b slash ≡ false → components b ≡ cut (b ∷ [])
components_name b h = ap cut (pieces_whole [] b h)

parts-Divides :
    (a b : List ℕ) (dm fm : ℕ)
    → is_absolute (a ++ slash ∷ b) ≡ true
    → listed b slash ≡ false
    → (split_parts a b dm fm ≡ none)
      ⊎ ((dir name : List ℕ) × (split_parts a b dm fm ≡ some (dir, name))
          × Divides (a ++ slash ∷ b) dir name fm)
parts-Divides [] [] dm fm abs h = elim (Bool-cases (ltb dm 2 || ltb fm 1)) [
  | inl small ↦ inl (rw small refl)
  | inr fits ↦ inr (
    slash ∷ [],
    [],
    rw fits refl,
    record { same_components = refl; absolute = refl; one_name = refl; fits = ground arith },
  )
]
parts-Divides [] (c ∷ b) dm fm abs h = elim (Bool-cases (leb dm 1 || leb fm (length (c ∷ b)))) [
  | inl small ↦ inl (rw small refl)
  | inr fits ↦ inr (
    slash ∷ [],
    c ∷ b,
    rw fits refl,
    record {
      same_components = components_name (c ∷ b) h;
      absolute = refl;
      one_name = h;
      fits = ground arith;
    },
  )
]
parts-Divides (x ∷ a) [] dm fm abs h = inl refl
parts-Divides (x ∷ a) (c ∷ b) dm fm abs h =
    elim (Bool-cases (leb dm (length (x ∷ a)) || leb fm (length (c ∷ b)))) [
      | inl small ↦ inl (rw small refl)
      | inr fits ↦ inr (
        x ∷ a,
        c ∷ b,
        rw fits refl,
        record {
          same_components =
              pieces-append [] (x ∷ a) (c ∷ b)
              ∙ ap (λ ps. components (x ∷ a) ++ ps) (components_name (c ∷ b) h);
          absolute = abs;
          one_name = h;
          fits = ground arith;
        },
      )
    ]

pub split_relative :
    (path : List ℕ) (dm fm : ℕ) → is_absolute path ≡ false → vfs_split_path path dm fm ≡ none
unfolding vfs_split_path
split_relative path dm fm relative = rw relative refl

pub split-is_absolute :
    (path : List ℕ) (dm fm : ℕ) {parts : List ℕ × List ℕ}
    → vfs_split_path path dm fm ≡ some parts
    → is_absolute path ≡ true
unfolding vfs_split_path
split-is_absolute path dm fm e = ground arith

-- When `vfs_split_path` succeeds, the components of the path are those of the directory with the
-- name behind them, cut to 31 characters, or without a name for the root; the directory is
-- absolute, the name has no slash, and it fits its buffer.
pub split-Divides :
    (path : List ℕ) (dm fm : ℕ) {dir name : List ℕ}
    → vfs_split_path path dm fm ≡ some (dir, name)
    → Divides path dir name fm
unfolding vfs_split_path
split-Divides path dm fm {dir} {name} e = elim (Bool-cases (is_absolute path)) [
  | inr relative ↦ absurd (ground arith)
  | inl abs ↦
      let (a, b, whole, one, parts_of) = split_cases path abs in
      let parts = parts_of dm fm in
      elim (parts-Divides a b dm fm (ap is_absolute (sym whole) ∙ abs) one) [
        | inl none_ ↦ absurd (ground arith)
        | inr (dir', name', found, divides) ↦
            let e1 : dir' ≡ dir = ground arith in
            let e2 : name' ≡ name = ground arith in
            subst (λ d. Divides path d name fm) e1
              (subst (λ n. Divides path dir' n fm) e2
                (subst (λ p. Divides p dir' name' fm) (sym whole) divides))
      ]
]

strrchr-none : (b : List ℕ) → listed b slash ≡ false → strrchr b slash ≡ none
strrchr-none b h = elim (strrchr_lem b slash) [
  | inl (none_, not_in) ↦ none_
  | inr (p, q, e, found, not_in) ↦
      absurd (listed_middle p q (ap (λ xs. listed xs slash) (sym e) ∙ h))
]
  where
    listed_middle : (p q : List ℕ) → listed (p ++ slash ∷ q) slash ≡ false → ⊥
    listed_middle [] q h = cc
    listed_middle (c ∷ p) q h = listed_middle p q (ground arith)

strrchr_last :
    (a b : List ℕ) → listed b slash ≡ false → strrchr (a ++ slash ∷ b) slash ≡ some (length a)
unfolding strrchr
strrchr_last [] b h = rw (strrchr-none b h) refl
strrchr_last (x ∷ a) b h = rw (strrchr_last a b h) refl

-- A path of a directory and a name that fit their buffers is divided into these again.
pub split-join :
    (dir name : List ℕ) (dm fm : ℕ)
    → is_absolute dir ≡ true
    → length dir < dm
    → listed name slash ≡ false
    → 0 < length name
    → length name < fm
    → vfs_split_path (dir ++ slash ∷ name) dm fm ≡ some (dir, name)
unfolding vfs_split_path
split-join (x ∷ a) (c ∷ b) dm fm abs room one some_ fits =
    rw (abs, strrchr_last (x ∷ a) (c ∷ b) one) (split_at_lem (x ∷ a) (c ∷ b) dm fm ∙ ground arith)
split-join [] name dm fm abs room one some_ fits = cc
split-join (x ∷ a) [] dm fm abs room one some_ fits = absurd (omega arith)
