-- ===== src/Mem/Bitmap/Laws.antt =====
-- What `bitmap_test` sees of the other two operations.
use hvos.Common.{
  ℕ, ◌-◌, ◌/◌, ◌%◌, ◌<◌, bit_and, bit_or, ◌≡◌, refl, inl, inr, Bool, true, false, not, List, arith,
  ◌==◌, if◌then◌else◌, Bool-cases, every, every-lem, u8, ◌<<<◌, length, replicate, get_or, All,
  length-set, get_or-set_self, get_or-set_ne, get_or-replicate, All-set, All-get_or,
}
use hvos.Mem.Bitmap.{mask, bitmap_set, bitmap_clear, bitmap_test}

abbrev pub IsBytes : List ℕ → Type 0
IsBytes = All (λ b. b < 256)

bool_eq : Bool → Bool → Bool
bool_eq true b = b
bool_eq false b = not b

bool_eq_sound : (a b : Bool) → bool_eq a b ≡ true → a ≡ b
unfolding bool_eq
bool_eq_sound a b h = ground arith

abbrev bit : ℕ → ℕ → Bool
bit b k = not (bit_and b (1 <<< k) == 0)

abbrev set_row : ℕ → ℕ → ℕ → Bool
set_row k j b = bool_eq (bit (u8 (bit_or b (1 <<< k))) j) (if k == j then true else bit b j)

abbrev clear_row : ℕ → ℕ → ℕ → Bool
clear_row k j b =
    bool_eq (bit (u8 (bit_and b (255 - 1 <<< k))) j) (if k == j then false else bit b j)

set_table : every 8 (λ k. every 8 (λ j. every 256 (set_row k j))) ≡ true
unfolding every bool_eq
set_table = refl

clear_table : every 8 (λ k. every 8 (λ j. every 256 (clear_row k j))) ≡ true
unfolding every bool_eq
clear_table = refl

ones_table : every 8 (bit 255) ≡ true
unfolding every
ones_table = refl

module _ (k j b : ℕ) (hk : k < 8) (hj : j < 8) (hb : b < 256) where
  bit_set : bit (u8 (bit_or b (1 <<< k))) j ≡ (if k == j then true else bit b j)
  bit_set = bool_eq_sound _ _ (
      every-lem 256 (set_row k j) b
        (every-lem 8 (λ i. every 256 (set_row k i)) j
          (every-lem 8 (λ h. every 8 (λ i. every 256 (set_row h i))) k set_table hk) hj)
        hb)

  bit_clear : bit (u8 (bit_and b (255 - 1 <<< k))) j ≡ (if k == j then false else bit b j)
  bit_clear = bool_eq_sound _ _ (
      every-lem 256 (clear_row k j) b
        (every-lem 8 (λ i. every 256 (clear_row k i)) j
          (every-lem 8 (λ h. every 8 (λ i. every 256 (clear_row h i))) k clear_table hk) hj)
        hb)

module _ (bm : List ℕ) (p q : ℕ) (inside : q / 8 < length bm) (bytes : IsBytes bm) where
  byte_at : (i : ℕ) → get_or bm i 0 < 256
  byte_at i = All-get_or (λ b. b < 256) bm i 0 bytes (omega arith)

  -- Setting a page makes it test as set, and no other page.
  pub bitmap_test-set :
      bitmap_test (bitmap_set bm p) q ≡ (if p == q then true else bitmap_test bm q)
  unfolding bitmap_test bitmap_set
  bitmap_test-set = elim (Bool-cases (p / 8 == q / 8)) [
    | inl same ↦ ground (
      arith,
      get_or-set_self bm (p / 8) (u8 (bit_or (get_or bm (p / 8) 0) (mask p))) 0,
      bit_set (p % 8) (q % 8) (get_or bm (p / 8) 0) (omega arith) (omega arith) (byte_at (p / 8)),
    )
    | inr other ↦
        ground
          (arith, get_or-set_ne bm (p / 8) (q / 8) (u8 (bit_or (get_or bm (p / 8) 0) (mask p))) 0)
  ]

  -- Clearing a page makes it test as clear, and no other page.
  pub bitmap_test-clear :
      bitmap_test (bitmap_clear bm p) q ≡ (if p == q then false else bitmap_test bm q)
  unfolding bitmap_test bitmap_clear
  bitmap_test-clear = elim (Bool-cases (p / 8 == q / 8)) [
    | inl same ↦ ground (
      arith,
      get_or-set_self bm (p / 8) (u8 (bit_and (get_or bm (p / 8) 0) (255 - mask p))) 0,
      bit_clear (p % 8) (q % 8) (get_or bm (p / 8) 0) (omega arith) (omega arith) (byte_at (p / 8)),
    )
    | inr other ↦ ground (
      arith,
      get_or-set_ne bm (p / 8) (q / 8) (u8 (bit_and (get_or bm (p / 8) 0) (255 - mask p))) 0,
    )
  ]

pub bitmap_set-IsBytes : (bm : List ℕ) (p : ℕ) → IsBytes bm → IsBytes (bitmap_set bm p)
unfolding bitmap_set
bitmap_set-IsBytes bm p h = All-set (λ b. b < 256) bm (p / 8) _ h (omega arith)

pub bitmap_clear-IsBytes : (bm : List ℕ) (p : ℕ) → IsBytes bm → IsBytes (bitmap_clear bm p)
unfolding bitmap_clear
bitmap_clear-IsBytes bm p h = All-set (λ b. b < 256) bm (p / 8) _ h (omega arith)

pub length-bitmap_set : (bm : List ℕ) (p : ℕ) → length (bitmap_set bm p) ≡ length bm
unfolding bitmap_set
length-bitmap_set bm p = length-set bm (p / 8) _

pub length-bitmap_clear : (bm : List ℕ) (p : ℕ) → length (bitmap_clear bm p) ≡ length bm
unfolding bitmap_clear
length-bitmap_clear bm p = length-set bm (p / 8) _

-- Bytes 0xff test as set.
pub bitmap_test-ones : (size p : ℕ) → p / 8 < size → bitmap_test (replicate size 0xff) p ≡ true
unfolding bitmap_test
bitmap_test-ones size p h =
    rw (get_or-replicate {A = ℕ} size (p / 8) 0xff 0 h)
      (every-lem 8 (bit 255) (p % 8) ones_table (omega arith))
