-- ===== src/Fs/Tar/Octal.antt =====
-- Numbers of a tar header.
use hvos.Common.{
  ℕ, zero, suc, ◌+◌, ◌-◌, ◌*◌, ◌^◌, ◌≤◌, ◌<◌, ◌≡◌, refl, ap, ◌∙◌, ◌⊎◌, false, ◌||◌, List, [], ◌∷◌,
  ◌++◌, map, arith, ltb, ◌==◌, u32, length, take, All,
}
use hvos.Fs.Tar.{octal_from, octal_to_int}

-- The value of octal digits, behind what was read of them.
abbrev pub octal_value : ℕ → List ℕ → ℕ
octal_value n [] = n
octal_value n (d ∷ ds) = octal_value (n * 8 + d) ds

abbrev pub octal_digits : List ℕ → List ℕ
octal_digits ds = map (λ d. b'0' + d) ds

abbrev pub AllBelow : ℕ → List ℕ → Type 0
AllBelow b ds = All (λ d. d < b) ds

octal_value-le : (n : ℕ) (ds : List ℕ) → n ≤ octal_value n ds
octal_value-le n [] = omega arith
octal_value-le n (d ∷ ds) = omega (arith, octal_value-le (n * 8 + d) ds)

digit_test :
    (d : ℕ)
    → d < 8
    → (b'0' + d == 0 || b'0' + d == b' ' || ltb (b'0' + d) b'0' || ltb b'7' (b'0' + d)) ≡ false
digit_test d h = ground arith

octal_from_lem :
    (n : ℕ) (ds : List ℕ) (c : ℕ) (rest : List ℕ)
    → AllBelow 8 ds
    → octal_value n ds < 2 ^ 32
    → c < b'0' ⊎ (b'7' < c)
    → octal_from n (map (λ d. b'0' + d) ds ++ c ∷ rest) ≡ octal_value n ds
unfolding octal_from
octal_from_lem n [] c rest small fits ends = ground arith
octal_from_lem n (d ∷ ds) c rest small fits ends = rw (digit_test d small.0) (
    ap (λ m. octal_from m (map (λ e. b'0' + e) ds ++ c ∷ rest))
      {x = u32 (n * 8 + (b'0' + d - b'0'))} {y = n * 8 + d}
      (omega (arith, octal_value-le (n * 8 + d) ds))
    ∙ octal_from_lem (n * 8 + d) ds c rest small.1 fits ends)

take-append :
    (n : ℕ) (xs : List ℕ) (y : ℕ) (ys : List ℕ)
    → length xs < n
    → (zs : List ℕ) × (take n (xs ++ y ∷ ys) ≡ xs ++ y ∷ zs)
take-append zero xs y ys h = absurd (omega arith)
take-append (suc n) [] y ys h = (take n ys, refl)
take-append (suc n) (x ∷ xs) y ys h =
    let (zs, e) = take-append n xs y ys (omega arith) in (zs, ap (λ t. x ∷ t) e)

-- A field that holds octal digits before a character that is none of them, such as a blank or NUL, is
-- read as the number that the digits write, if that fits 32 bits.
pub octal_to_int_lem :
    (ds : List ℕ) (c : ℕ) (rest : List ℕ) (size : ℕ)
    → AllBelow 8 ds
    → length ds < size
    → octal_value 0 ds < 2 ^ 32
    → c < b'0' ⊎ (b'7' < c)
    → octal_to_int (octal_digits ds ++ c ∷ rest) size ≡ octal_value 0 ds
unfolding octal_to_int
octal_to_int_lem ds c rest size small short fits ends =
    let (zs, e) = take-append size (octal_digits ds) c rest (omega (arith, length-map ds)) in
    ap (octal_from 0) e ∙ octal_from_lem 0 ds c zs small fits ends
  where
    length-map : (ds : List ℕ) → length (octal_digits ds) ≡ length ds
    length-map [] = refl
    length-map (x ∷ xs) = ap suc (length-map xs)
