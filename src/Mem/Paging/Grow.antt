-- ===== src/Mem/Paging/Grow.antt =====
-- Making the tables on the way changes no translation.
use hvos.Common.{
  ℕ, ◌+◌, ◌*◌, ◌/◌, ◌%◌, ◌^◌, ◌<◌, bit_and, ◌≡◌, refl, ◌≢◌, ◌⊎◌, inl, inr, Bool, true, false, not,
  ◌&&◌, Option, none, some, List, [], ◌∷◌, arith, ◌==◌, if◌then◌else◌, Bool-cases, Option-cases,
  ==-ne, ◌>>>◌, length,
}
use hvos.Mem.Pmm.Alloc.{IsValid, used, Takes, AllUsed, pmm_alloc_lem, pmm_alloc-IsValid}
use hvos.Mem.Pmm.{pmm_alloc}
use hvos.Mem.Paging.{Entry, Tables, set_entry, zero_table, alloc_page_table, next_table, pte_user}
use hvos.Mem.Paging.Walk.{walk, allows, IsTree}

-- The new entry that `next_table` writes.
abbrev pub link : Entry → ℕ → ℕ → Entry
link e k flags = record e {
  present = true;
  rw = true;
  us = not (bit_and flags pte_user == 0);
  address = k;
}

-- The table `f` is new below entry `i` of `t`, and nothing else has changed.
record Grown (s s' : Tables) (place : ℕ → Option (List ℕ)) (t i f flags : ℕ) : Type 0 where
  absent : (s.entry t i).present ≡ false
  fresh : place f ≡ none
  leads : ((s'.entry t i).present ≡ true) × ((s'.entry t i).address ≡ f)
  made : (e : Entry) × (s'.entry t i ≡ link e f flags)
  empty : (j : ℕ) → (s'.entry f j).present ≡ false
  same : (u j : ℕ) → u ≢ f → (u ≢ t) ⊎ (j ≢ i) → s'.entry u j ≡ s.entry u j

abbrev grow : (ℕ → Option (List ℕ)) → ℕ → List ℕ → ℕ → Option (List ℕ)
grow place f p u = if u == f then some p else place u

module _ {s s' : Tables} {place : ℕ → Option (List ℕ)} {root t i f flags : ℕ} {p : List ℕ}
    (tree : IsTree s root place) (at : place t ≡ some p) (upper : length p < 3)
    (g : Grown s s' place t i f flags) where
  walk-empty : (is : List ℕ) → walk s' f is ≡ none
  walk-empty [] = refl
  walk-empty (j ∷ []) = ground (arith, g.empty j)
  walk-empty (j ∷ k ∷ ks) = ground (arith, g.empty j)

  walk-Grown :
      (is : List ℕ) (u : ℕ) (q : List ℕ)
      → place u ≡ some q
      → length q + length is ≡ 4
      → walk s' u is ≡ walk s u is
  walk-Grown [] u q h e = refl
  walk-Grown (j ∷ []) u q h e = rw (g.same u j (λ x. ground arith) (inl (λ x. ground arith)))
  walk-Grown (j ∷ k ∷ ks) u q h e = elim (Bool-cases (u == t && j == i)) [
    | inl here ↦ ground (arith, g.absent, g.leads, walk-empty (k ∷ ks))
    | inr other ↦ ground (
      arith,
      g.same u j (λ x. ground arith) (ground arith),
      tree.child u j q,
      walk-Grown (k ∷ ks) (s.entry u j).address (j ∷ q),
    )
  ]

  allows-empty : (right : Entry → Bool) (is : List ℕ) → allows right s' f is ≡ true
  allows-empty right [] = refl
  allows-empty right (j ∷ []) = refl
  allows-empty right (j ∷ k ∷ ks) = rw (g.empty j) refl

  -- A right that the new entry gives is given where it was.
  allows-Grown :
      (right : Entry → Bool) (is : List ℕ) (u : ℕ) (q : List ℕ)
      → ((e : Entry) (k : ℕ) → right (link e k flags) ≡ true)
      → place u ≡ some q
      → length q + length is ≡ 4
      → allows right s' u is ≡ allows right s u is
  allows-Grown right [] u q gives h e = refl
  allows-Grown right (j ∷ []) u q gives h e = refl
  allows-Grown right (j ∷ k ∷ ks) u q gives h e = elim (Bool-cases (u == t && j == i)) [
    | inl here ↦
        let u=t : u ≡ t = ground arith in
        let j=i : j ≡ i = ground arith in
        let (old, new) = g.made in
        rw (u=t, j=i, g.absent, g.leads.0, g.leads.1, allows-empty right (k ∷ ks), new, gives old f)
          refl
    | inr other ↦
        let same : s'.entry u j ≡ s.entry u j = g.same u j (λ x. ground arith) (ground arith) in
        elim (Bool-cases (s.entry u j).present) [
          | inr off ↦ rw (same, off) refl
          | inl on ↦
              let rest =
                allows-Grown right (k ∷ ks) (s.entry u j).address (j ∷ q) gives
                  (tree.child u j q h (omega arith) on) (omega arith) in
              rw (same, on, rest) refl
        ]
  ]

-- What a call of `alloc_page_table` that takes frame `k` leaves.
abbrev pub with_table : Tables → ℕ → Tables
with_table s k = zero_table (record s { pmm = (pmm_alloc s.pmm).1 }) k

pub alloc_page_table-cases :
    (s : Tables)
    → IsValid s.pmm
    → ((k : ℕ) × Takes s.pmm k (pmm_alloc s.pmm)
        × (alloc_page_table s ≡ (k * 4096, with_table s k)))
      ⊎ (AllUsed s.pmm × (alloc_page_table s ≡ (0, s)))
unfolding alloc_page_table
alloc_page_table-cases s v = elim (pmm_alloc_lem s.pmm v) [
  | inl (k, t) ↦
      let page : k * 4096 / 4096 ≡ k = omega arith in
      inl (k, t, rw (t.address, ==-ne (k * 4096) 0 (omega (arith, t.in_range)), page))
  | inr (full, e) ↦ inr (full, rw e)
]

-- What is known once the entry `i` of `t` leads to a table `f`.
pub record Next (s s' : Tables) (root : ℕ) (place : ℕ → Option (List ℕ)) (p : List ℕ)
    (t i f flags : ℕ) : Type 0 where
  pub place' : ℕ → Option (List ℕ)
  pub tree : IsTree s' root place'
  pub placed : place' f ≡ some (i ∷ p)
  pub keeps : (u : ℕ) (q : List ℕ) → place u ≡ some q → place' u ≡ some q
  pub leads : ((s'.entry t i).present ≡ true) × ((s'.entry t i).address ≡ f)
  pub stays :
      (u j : ℕ) (q : List ℕ)
      → place u ≡ some q
      → (s.entry u j).present ≡ true
      → s'.entry u j ≡ s.entry u j
  pub walks :
      (is : List ℕ) (u : ℕ) (q : List ℕ)
      → place u ≡ some q
      → length q + length is ≡ 4
      → walk s' u is ≡ walk s u is
  pub allowed :
      (right : Entry → Bool) (is : List ℕ) (u : ℕ) (q : List ℕ)
      → ((e : Entry) (k : ℕ) → right (link e k flags) ≡ true)
      → place u ≡ some q
      → length q + length is ≡ 4
      → allows right s' u is ≡ allows right s u is

module _ {s : Tables} {place : ℕ → Option (List ℕ)} {root t : ℕ} {p : List ℕ} (i flags : ℕ)
    (tree : IsTree s root place) (at : place t ≡ some p) (upper : length p < 3) where
  module _ (k : ℕ) (takes : Takes s.pmm k (pmm_alloc s.pmm))
      (absent : (s.entry t i).present ≡ false) where
    abbrev grown : Tables
    grown = set_entry (with_table s k) t i (link ((with_table s k).entry t i) k flags)

    fresh : place k ≡ none
    fresh = elim (Option-cases (place k)) [
      | inl e ↦ e
      | inr (q, e) ↦ absurd (ground (arith, tree.held k q e, takes.was_free))
    ]

    apart : t ≢ k
    apart e = ground (arith, fresh)

    Grown-new : Grown s grown place t i k flags
    unfolding set_entry zero_table
    Grown-new = record {
      absent = absent;
      fresh = fresh;
      leads = ground arith;
      made = ((with_table s k).entry t i, ground arith);
      empty = λ j. ground (arith, apart);
      same = λ u j ne other. ground arith;
    }

    held-new :
        (u : ℕ) (q : List ℕ)
        → grow place k (i ∷ p) u ≡ some q
        → (u < grown.pmm.total_pages) × (used grown.pmm u ≡ true)
    unfolding set_entry zero_table
    held-new u q h = ground (
      arith,
      takes.in_range,
      takes.same_total,
      tree.held u q,
      takes.marks u (ground (arith, tree.held u q, tree.valid.covers, takes.in_range)),
    )

    child-new :
        (u j : ℕ) (q : List ℕ)
        → grow place k (i ∷ p) u ≡ some q
        → length q < 3
        → (grown.entry u j).present ≡ true
        → grow place k (i ∷ p) (grown.entry u j).address ≡ some (j ∷ q)
    unfolding set_entry zero_table
    child-new u j q h short pr = ground (arith, apart, fresh, tree.child u j q)

    stays-new :
        (u j : ℕ) (q : List ℕ)
        → place u ≡ some q
        → (s.entry u j).present ≡ true
        → grown.entry u j ≡ s.entry u j
    unfolding set_entry zero_table
    stays-new u j q h pr = ground (arith, fresh)

    Next-new : Next s grown root place p t i k flags
    Next-new = record {
      place' = grow place k (i ∷ p);
      tree = record {
        top = ground (arith, tree.top, fresh);
        valid = unfold set_entry zero_table in pmm_alloc-IsValid s.pmm tree.valid;
        small = unfold set_entry zero_table in rw takes.same_total tree.small;
        held = held-new;
        child = child-new;
      };
      placed = ground arith;
      keeps = λ u q h. ground (arith, fresh);
      leads = Grown-new.leads;
      stays = stays-new;
      walks = walk-Grown tree at upper Grown-new;
      allowed = allows-Grown tree at upper Grown-new;
    }

  pub next_table-Next :
      {f : ℕ} {s' : Tables}
      → next_table s t i flags ≡ some (f, s')
      → Next s s' root place p t i f flags
  unfolding next_table
  next_table-Next {f} {s'} h = elim (Bool-cases (s.entry t i).present) [
    | inl there ↦
        let same : s' ≡ s = ground arith in
        let leads : f ≡ (s.entry t i).address = ground arith in
        rw (same, leads)
          (record {
            place' = place;
            tree = tree;
            placed = tree.child t i p at upper there;
            keeps = λ u q e. e;
            leads = (there, refl);
            stays = λ u j q e pr. refl;
            walks = λ is u q e l. refl;
            allowed = λ right is u q gives e l. refl;
          })
    | inr absent ↦ elim (alloc_page_table-cases s tree.valid) [
      | inl (k, takes, e) ↦
          let num : (k * 4096) >>> 12 % 2 ^ 40 ≡ k = omega (arith, takes.in_range, tree.small) in
          let new : next_table s t i flags ≡ some (k, grown k takes absent) =
            rw (absent, e, ==-ne (k * 4096) 0 (omega (arith, takes.in_range)), num) in
          let same : s' ≡ grown k takes absent = ground arith in
          let leads : f ≡ k = ground arith in rw (same, leads) (Next-new k takes absent)
      | inr (full, e) ↦ absurd (ground arith)
    ]
  ]
