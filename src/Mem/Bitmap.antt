-- ===== src/Mem/Bitmap.antt =====
-- src/kernel/mem/bitmap.c in the configuration without BIG_BITMAP: one bit for a page, in bytes.
-- A byte outside the array reads as 0 and is not written; C leaves such an access undefined, and
-- the theorems keep to pages inside.
pub mod Laws
use hvos.Common.{
  ℕ, ◌+◌, ◌-◌, ◌/◌, ◌%◌, ◌^◌, bit_and, bit_or, Bool, not, List, ◌==◌, u8, ◌<<<◌, get_or, set,
}

-- `1 << (page_index % 8)`
abbrev pub mask : ℕ → ℕ
mask page_index = 1 <<< (page_index % 8)

-- On a byte, `& ~m` with `m < 256` is `& (255 - m)`.
unfoldable pub bitmap_set : List ℕ → ℕ → List ℕ
bitmap_set bitmap page_index =
    set bitmap (page_index / 8) (u8 (bit_or (get_or bitmap (page_index / 8) 0) (mask page_index)))

unfoldable pub bitmap_clear : List ℕ → ℕ → List ℕ
bitmap_clear bitmap page_index =
    set bitmap (page_index / 8)
      (u8 (bit_and (get_or bitmap (page_index / 8) 0) (255 - mask page_index)))

-- The int of the source, as its callers read it: true when it is not 0.
unfoldable pub bitmap_test : List ℕ → ℕ → Bool
bitmap_test bitmap page_index =
    not (bit_and (get_or bitmap (page_index / 8) 0) (mask page_index) == 0)
