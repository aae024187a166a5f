-- ===== src/Fs/Path/Parts.antt =====
-- The tokens of a path are the parts between its slashes.
use hvos.Common.{
  ℕ, zero, suc, ◌+◌, ◌≤◌, ◌<◌, ◌≡◌, refl, sym, ap, ◌∙◌, ◌⊎◌, inl, inr, false, none, some, List, [],
  ◌∷◌, ◌++◌, append_assoc, append-nil, arith, ◌==◌, if◌then◌else◌, Bool-cases, lt→ltb, le→ltb,
  length, take,
}
use hvos.Fs.Path.{slash, token_max, skip_slashes, token_from, next_path_token}

-- The parts between slashes, some of them empty, behind what is read of the first one.
abbrev pub pieces : List ℕ → List ℕ → List (List ℕ)
pieces acc [] = acc ∷ []
pieces acc (c ∷ cs) = if c == slash then acc ∷ pieces [] cs else pieces (acc ++ c ∷ []) cs

-- The parts that are not empty, each cut to what a token holds.
abbrev pub cut : List (List ℕ) → List (List ℕ)
cut [] = []
cut ([] ∷ ps) = cut ps
cut ((c ∷ cs) ∷ ps) = take token_max (c ∷ cs) ∷ cut ps

abbrev pub components : List ℕ → List (List ℕ)
components path = cut (pieces [] path)

-- What stands before the first slash, and the rest from that slash on.
abbrev until_slash : List ℕ → List ℕ × List ℕ
until_slash [] = ([], [])
until_slash (c ∷ cs) =
    if c == slash then ([], c ∷ cs) else (let (part, rest) = until_slash cs in (c ∷ part, rest))

list_cases {ℓ} : {A : Type ℓ} (xs : List A) → (xs ≡ []) ⊎ ((y : A) × (ys : List A) × (xs ≡ y ∷ ys))
list_cases [] = inl refl
list_cases (x ∷ xs) = inr (x, xs, refl)

token_from_lem :
    (i k : ℕ) (path : List ℕ)
    → i + k ≡ token_max
    → token_from i path ≡ (take k (until_slash path).0, (until_slash path).1)
unfolding token_from
token_from_lem i zero [] h = refl
token_from_lem i (suc k) [] h = refl
token_from_lem i zero (c ∷ cs) h =
    rw (le→ltb i token_max (omega arith)) (ground (arith, token_from_lem i 0 cs))
token_from_lem i (suc k) (c ∷ cs) h =
    rw (lt→ltb i token_max (omega arith))
      (ground (arith, token_from_lem (i + 1) k cs (omega arith)))

pieces-until_slash :
    (acc path : List ℕ)
    → pieces acc path ≡ pieces (acc ++ (until_slash path).0) (until_slash path).1
pieces-until_slash acc [] = ap (λ p. p ∷ []) (sym (append-nil acc))
pieces-until_slash acc (c ∷ cs) = elim (Bool-cases (c == slash)) [
  | inl ends ↦ rw (ends, append-nil) (rw ends refl)
  | inr goes ↦ rw goes (
      pieces-until_slash (acc ++ c ∷ []) cs
      ∙ ap (λ a. pieces a (until_slash cs).1) (append_assoc acc (c ∷ []) (until_slash cs).0))
]

pub cut_cons : (p : List ℕ) (ps : List (List ℕ)) → cut (p ∷ ps) ≡ cut (p ∷ []) ++ cut ps
cut_cons [] ps = refl
cut_cons (c ∷ cs) ps = refl

-- The rest behind a token is the end of the path, or starts with a slash.
pieces_rest :
    (acc path : List ℕ)
    → cut (pieces acc (until_slash path).1) ≡ cut (acc ∷ []) ++ components (until_slash path).1
pieces_rest acc [] = sym (append-nil (cut (acc ∷ [])))
pieces_rest acc (c ∷ cs) = elim (Bool-cases (c == slash)) [
  | inl ends ↦ rw (ends, ends) (cut_cons acc (pieces [] cs))
  | inr goes ↦ rw goes (pieces_rest acc cs)
]

components-skip : (path : List ℕ) → components (skip_slashes path) ≡ components path
unfolding skip_slashes
components-skip [] = refl
components-skip (c ∷ cs) = ground (arith, components-skip cs)

length-skip : (path : List ℕ) → length (skip_slashes path) ≤ length path
unfolding skip_slashes
length-skip [] = omega arith
length-skip (c ∷ cs) = ground (arith, length-skip cs)

length-until_slash : (path : List ℕ) → length (until_slash path).1 ≤ length path
length-until_slash [] = omega arith
length-until_slash (c ∷ cs) = ground (arith, length-until_slash cs)

skip-head :
    (path : List ℕ) (c : ℕ) (cs : List ℕ) → skip_slashes path ≡ c ∷ cs → (c == slash) ≡ false
unfolding skip_slashes
skip-head [] c cs e = cc
skip-head (x ∷ xs) c cs e = ground (arith, skip-head xs c cs)

-- What a path that starts with a token has first.
components-token :
    (c : ℕ) (cs : List ℕ)
    → (c == slash) ≡ false
    → components (c ∷ cs) ≡ (token_from 0 (c ∷ cs)).0 ∷ components (token_from 0 (c ∷ cs)).1
components-token c cs e = rw (token_from_lem 0 token_max (c ∷ cs) refl) (
    ap cut (pieces-until_slash [] (c ∷ cs))
    ∙ pieces_rest (until_slash (c ∷ cs)).0 (c ∷ cs)
    ∙ rw e refl)

rest-token :
    (path : List ℕ) (c : ℕ) (cs : List ℕ)
    → skip_slashes path ≡ c ∷ cs
    → length (token_from 0 (c ∷ cs)).1 < length path
rest-token path c cs e =
    rw (token_from_lem 0 token_max (c ∷ cs) refl, skip-head path c cs e)
      (omega (arith, length-until_slash cs, length-skip path, ap length e))

-- The tokens that `next_path_token` returns one after the other are the components of the path: the
-- parts between its slashes that are not empty, each cut to 31 characters. It returns NULL exactly
-- when no component is left, and otherwise leaves a shorter path.
pub next_path_token_lem :
    (path : List ℕ)
    → ((next_path_token path ≡ none) × (components path ≡ []))
      ⊎ ((token rest : List ℕ) × (next_path_token path ≡ some (token, rest))
          × (components path ≡ token ∷ components rest)
          × (length rest < length path))
unfolding next_path_token
next_path_token_lem path = elim (list_cases (skip_slashes path)) [
  | inl empty ↦
      inl (rw (next_path_token, empty) refl, sym (components-skip path) ∙ ap components empty)
  | inr (c, cs, e) ↦ inr (
    (token_from 0 (c ∷ cs)).0,
    (token_from 0 (c ∷ cs)).1,
    rw (next_path_token, e) refl,
    sym (components-skip path) ∙ ap components e ∙ components-token c cs (skip-head path c cs e),
    rest-token path c cs e,
  )
]
