-- ===== src/Elf/Space.antt =====
-- The new address space: it is a tree, and has the kernel's half.
use hvos.Common.{
  ℕ, ◌+◌, ◌*◌, ◌/◌, ◌%◌, ◌≤◌, ◌<◌, ◌≡◌, refl, sym, ap, subst, ◌∙◌, ◌≢◌, ◌⊎◌, inl, inr, Bool, true,
  false, ◌&&◌, Option, none, some, List, [], ◌∷◌, arith, ltb, leb, ◌==◌, if◌then◌else◌, Bool-cases,
  lt→ltb, ==→eq, ==-ne, ==_refl, ◌>>>◌, length,
}
use hvos.Mem.Pmm.{pmm_alloc}
use hvos.Mem.Pmm.Alloc.{used, Takes}
use hvos.Mem.Paging.{Entry, Tables, zero_entry, zero_table, copy_kernel_half}
use hvos.Mem.Paging.Walk.{walk, translate, IsTree}
use hvos.Mem.Paging.Grow.{with_table}
use hvos.Mem.Paging.Kernel.{copy_kernel_half-entry, copy_kernel_half-pmm}
use hvos.Mem.Pages.Frames.{Later, pmm_alloc-Later}
use hvos.Elf.{page_size, new_space}
use hvos.Elf.Page.{IsKernel, IsOpenHalf}

-- Whether a place is reached by an index of the upper half; the first index stands last.
abbrev from_upper : List ℕ → Bool
from_upper [] = false
from_upper (i ∷ []) = leb 256 i
from_upper (i ∷ j ∷ js) = from_upper (j ∷ js)

abbrev only_upper : Option (List ℕ) → Option (List ℕ)
only_upper none = none
only_upper (some q) = if from_upper q then some q else none

-- Below the new top table lie the kernel's tables of the upper half.
abbrev pub space_place : (ℕ → Option (List ℕ)) → ℕ → ℕ → Option (List ℕ)
space_place place root t = if t == root then some [] else only_upper (place t)

le→leb : (a b : ℕ) → a ≤ b → leb a b ≡ true
le→leb a b h = ground arith

only_upper-some :
    (o : Option (List ℕ)) (q : List ℕ)
    → only_upper o ≡ some q
    → (o ≡ some q) × (from_upper q ≡ true)
only_upper-some none q h = absurd (ground arith)
only_upper-some (some p) q h = ground arith

from_upper-cons : (i : ℕ) (q : List ℕ) → from_upper q ≡ true → from_upper (i ∷ q) ≡ true
from_upper-cons i [] h = absurd (ground arith)
from_upper-cons i (j ∷ js) h = h

module _ {s : Tables} {kernel p : ℕ} {place : ℕ → Option (List ℕ)} (tree : IsTree s kernel place)
    (takes : Takes s.pmm p (pmm_alloc s.pmm)) where
  unfoldable pub space : Tables
  space = copy_kernel_half (with_table s p) p kernel

  space-Later : Later s.pmm space.pmm
  unfolding space zero_table
  space-Later =
      subst (Later s.pmm) (sym (copy_kernel_half-pmm (with_table s p) p kernel))
        (pmm_alloc-Later s.pmm tree.valid)

  -- The new table is none of the kernel's.
  new_ne : (t : ℕ) (q : List ℕ) → place t ≡ some q → t ≢ p
  new_ne t q at e = absurd (ground (arith, (tree.held t q at).1, ap (used s.pmm) e, takes.was_free))

  other_entry : (t i : ℕ) → t ≢ p → space.entry t i ≡ s.entry t i
  unfolding space zero_table
  other_entry t i ne = ground (arith, copy_kernel_half-entry (with_table s p) p kernel t i)

  top_entry :
      (i : ℕ) → space.entry p i ≡ (if leb 256 i && ltb i 512 then s.entry kernel i else zero_entry)
  unfolding space zero_table
  top_entry i =
      ground
        (arith, copy_kernel_half-entry (with_table s p) p kernel p i, new_ne kernel [] tree.top)

  p-marked : used space.pmm p ≡ true
  unfolding space zero_table
  p-marked =
      ap (λ pmm. used pmm p) (copy_kernel_half-pmm (with_table s p) p kernel)
      ∙ takes.marks p (omega (arith, takes.in_range, tree.valid.covers))
      ∙ rw (==_refl p) refl

  -- A place of the new space is its top, or one of the kernel's that an upper index leads to.
  space_place-cases :
      (t : ℕ) (q : List ℕ)
      → space_place place p t ≡ some q
      → ((t ≡ p) × (q ≡ [])) ⊎ ((t ≢ p) × (place t ≡ some q) × (from_upper q ≡ true))
  space_place-cases t q at = elim (Bool-cases (t == p)) [
    | inl top ↦ inl (==→eq t p top, ground arith)
    | inr other ↦
        let below : only_upper (place t) ≡ some q = rw other at at in
        let (kernel_s, up) = only_upper-some (place t) q below in
        inr ((λ e. absurd (ground arith)), kernel_s, up)
  ]

  space_place-kernel :
      (t : ℕ) (q : List ℕ) → place t ≡ some q → from_upper q ≡ true → space_place place p t ≡ some q
  space_place-kernel t q at up = rw (==-ne t p (new_ne t q at), at, up) refl

  space-top :
      (i : ℕ)
      → (space.entry p i).present ≡ true
      → space_place place p (space.entry p i).address ≡ some (i ∷ [])
  space-top i pr = elim (Bool-cases (leb 256 i && ltb i 512)) [
    | inl up ↦
        let same : space.entry p i ≡ s.entry kernel i = top_entry i ∙ rw up refl in
        subst (λ (e : Entry). space_place place p e.address ≡ some (i ∷ [])) (sym same)
          (space_place-kernel (s.entry kernel i).address (i ∷ [])
            (tree.child kernel i [] tree.top (omega arith)
              (subst (λ (e : Entry). e.present ≡ true) same pr))
            (ground arith))
    | inr low ↦
        let none_ : space.entry p i ≡ zero_entry = top_entry i ∙ rw low refl in
        absurd (ground (arith, ap (λ (e : Entry). e.present) none_))
  ]

  space-child :
      (t i : ℕ) (q : List ℕ)
      → space_place place p t ≡ some q
      → length q < 3
      → (space.entry t i).present ≡ true
      → space_place place p (space.entry t i).address ≡ some (i ∷ q)
  space-child t i q at short pr = elim (space_place-cases t q at) [
    | inl (top, none_) ↦
        subst
          (λ (u : ℕ).
            (space.entry u i).present ≡ true
            → space_place place p (space.entry u i).address ≡ some (i ∷ q))
          (sym top)
          (subst
            (λ (l : List ℕ).
              (space.entry p i).present ≡ true
              → space_place place p (space.entry p i).address ≡ some (i ∷ l))
            (sym none_) (space-top i))
          pr
    | inr (ne, kernel_s, up) ↦
        let same = other_entry t i ne in
        subst (λ (e : Entry). space_place place p e.address ≡ some (i ∷ q)) (sym same)
          (space_place-kernel (s.entry t i).address (i ∷ q)
            (tree.child t i q kernel_s short (subst (λ (e : Entry). e.present ≡ true) same pr))
            (from_upper-cons i q up))
  ]

  pub space-IsTree : IsTree space p (space_place place p)
  space-IsTree = record {
    top = rw (==_refl p) refl;
    valid = space-Later.valid;
    small = omega (arith, tree.small, space-Later.same_total);
    held = λ t q at. elim (space_place-cases t q at) [
      | inl (top, none_) ↦ (
        omega (arith, takes.in_range, space-Later.same_total),
        subst (λ u. used space.pmm u ≡ true) (sym top) p-marked,
      )
      | inr (ne, kernel_s, up) ↦
          let (inside, taken) = tree.held t q kernel_s in
          (omega (arith, inside, space-Later.same_total), space-Later.still t inside taken)
    ];
    child = space-child;
  }

  -- The lower half of the new top table is empty.
  pub space-IsOpenHalf : IsOpenHalf space p
  space-IsOpenHalf w low =
      let i = w >>> 39 % 512 in
      let below : leb 256 i ≡ false = ground arith in
      let off : (space.entry p i).present ≡ false =
        ap (λ (e : Entry). e.present) (top_entry i) ∙ rw below refl in
      rw off refl

  -- The kernel's tables translate as before.
  space-walk :
      (is : List ℕ) (t : ℕ) (q : List ℕ)
      → place t ≡ some q
      → length q + length is ≡ 4
      → walk space t is ≡ walk s t is
  space-walk [] t q at e = refl
  space-walk (i ∷ []) t q at e = rw (other_entry t i (new_ne t q at)) refl
  space-walk (i ∷ j ∷ js) t q at e =
      rw (other_entry t i (new_ne t q at))
        (ground (arith, tree.child t i q, space-walk (j ∷ js) (s.entry t i).address (i ∷ q)))

  pub space-kernel_half : (w : ℕ) → IsKernel w → translate space p w ≡ translate s kernel w
  space-kernel_half w is =
      let i = w >>> 39 % 512 in
      let top : space.entry p i ≡ s.entry kernel i =
        top_entry i ∙ rw (le→leb 256 i is, lt→ltb i 512 (omega arith)) refl in
      rw top (
        ground (
          arith,
          tree.child kernel i [] tree.top,
          space-walk (w >>> 30 % 512 ∷ w >>> 21 % 512 ∷ w >>> 12 % 512 ∷ [])
              (s.entry kernel i).address (i ∷ []),
        ))

  -- `new_space` gives this space.
  pub new_space-space : new_space s kernel ≡ (p, space)
  unfolding new_space space
  new_space-space =
      let page : p * page_size / page_size ≡ p = omega arith in rw (takes.address, page) refl
