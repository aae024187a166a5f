-- ===== src/Mem/Paging/Walk.antt =====
-- What the processor finds for a virtual address, and the shape of one address space.
use hvos.Common.{
  ℕ, ◌^◌, ◌≤◌, ◌<◌, ◌≡◌, refl, Bool, true, ◌&&◌, arith, Option, none, some, List, [], ◌∷◌,
  if◌then◌else◌, length,
}
use hvos.Mem.Pmm.Alloc.{IsValid, used}
use hvos.Mem.Paging.{Entry, Tables, indices}

-- An upper entry takes away the rights that it does not give.
abbrev pub restrict : Entry → Option Entry → Option Entry
restrict e none = none
restrict e (some l) = some (record l { rw = e.rw && l.rw; us = e.us && l.us })

-- The walk from table `t` along the indices, if all entries are present: the last entry, with the
-- rights that every entry on the way gives. Every upper entry is taken to lead to a table: a walk
-- that ends in a large page, which no code here makes, is not described.
abbrev pub walk : Tables → ℕ → List ℕ → Option Entry
walk s t [] = none
walk s t (i ∷ []) = if (s.entry t i).present then some (s.entry t i) else none
walk s t (i ∷ j ∷ js) =
    let rest = walk s (s.entry t i).address (j ∷ js) in
    if (s.entry t i).present then restrict (s.entry t i) rest else none

-- Whether the upper entries that are present on the way give a right.
abbrev pub allows : (Entry → Bool) → Tables → ℕ → List ℕ → Bool
allows right s t [] = true
allows right s t (i ∷ []) = true
allows right s t (i ∷ j ∷ js) =
    let rest = allows right s (s.entry t i).address (j ∷ js) in
    if (s.entry t i).present then right (s.entry t i) && rest else true

abbrev pub writes : Entry → Bool
writes e = e.rw

abbrev pub serves_user : Entry → Bool
serves_user e = e.us

abbrev pub both : Entry → Bool
both e = e.rw && e.us

pub allows-both :
    (s : Tables) (is : List ℕ) (t : ℕ)
    → allows both s t is ≡ true
    → (allows writes s t is ≡ true) × (allows serves_user s t is ≡ true)
allows-both s [] t h = (refl, refl)
allows-both s (i ∷ []) t h = (refl, refl)
allows-both s (i ∷ j ∷ js) t h = ground (arith, allows-both s (j ∷ js) (s.entry t i).address)

abbrev pub translate : Tables → ℕ → ℕ → Option Entry
translate s pml4 va = walk s pml4 (indices va)

-- `place` tells for each frame whether it is a table of the address space at `root`, and by which
-- indices it is reached, the last one first. So no table is reached in two ways. Every table is in
-- use for the allocator.
pub record IsTree (s : Tables) (root : ℕ) (place : ℕ → Option (List ℕ)) : Type 0 where
  pub top : place root ≡ some []
  pub valid : IsValid s.pmm
  pub small : s.pmm.total_pages ≤ 2 ^ 40
  pub held :
      (t : ℕ) (p : List ℕ) → place t ≡ some p → (t < s.pmm.total_pages) × (used s.pmm t ≡ true)
  pub child :
      (t i : ℕ) (p : List ℕ)
      → place t ≡ some p
      → length p < 3
      → (s.entry t i).present ≡ true
      → place (s.entry t i).address ≡ some (i ∷ p)
