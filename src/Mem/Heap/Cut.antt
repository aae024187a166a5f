-- ===== src/Mem/Heap/Cut.antt =====
-- Well-formed heaps, the search of the free list and the cut of a block.
use hvos.Common.{
  ℕ, ◌+◌, ◌-◌, ◌^◌, ◌≤◌, ◌<◌, ◌≡◌, refl, ◌≢◌, inl, inr, true, false, not, ◌&&◌, some, List, [], ◌∷◌,
  arith, leb, ◌==◌, if◌then◌else◌, Bool-cases, Option-cases, u64, listed,
}
use hvos.Mem.Heap.{Heap, header_size, first_fit, split}
use hvos.Mem.Heap.Chain.{Chain, Chain-in, Chain-apart, insert, listed-insert, Chain-insert}

abbrev pub Distinct : List ℕ → Type 0
Distinct [] = Unit
Distinct (b ∷ bs) = (listed bs b ≡ false) × Distinct bs

-- The blocks `bs` fill the heap, and the free list has those of them that are free, each once.
pub record IsValid (h : Heap) (bs : List ℕ) : Type 0 where
  pub tiles : Chain h.size h.start h.limit bs
  pub positive : 0 < h.start
  pub fits : h.limit < 2 ^ 64
  pub once : Distinct h.free_list
  pub free_listed :
      (b : ℕ) → listed h.free_list b ≡ true → (listed bs b ≡ true) × (h.is_free b ≡ true)
  pub listed_free : (b : ℕ) → listed bs b ≡ true → h.is_free b ≡ true → listed h.free_list b ≡ true

-- What `first_fit` finds, and what it leaves of the list.
pub first_fit-some :
    (size : ℕ → ℕ) (bs : List ℕ) (n b : ℕ) (rest : List ℕ)
    → first_fit size bs n ≡ some (b, rest)
    → Distinct bs
    → (listed bs b ≡ true)
      × (n ≤ size b)
      × Distinct rest
      × ((a : ℕ) → listed rest a ≡ (not (a == b) && listed bs a))
unfolding first_fit
first_fit-some size [] n b rest e d = cc
first_fit-some size (c ∷ cs) n b rest e d = elim (Bool-cases (leb n (size c))) [
  | inl room ↦
      let b=c : b ≡ c = ground arith in
      let same : rest ≡ cs = ground arith in
      rw (b=c, same) (ground arith, ground arith, d.1, λ a. ground (arith, d.0))
  | inr full ↦ elim (Option-cases (first_fit size cs n)) [
    | inl halt ↦ absurd (ground arith)
    | inr (p, f) ↦
        let b=p : b ≡ p.0 = ground arith in
        let same : rest ≡ c ∷ p.1 = ground arith in
        let (i, r, d', l) = first_fit-some size cs n p.0 p.1 f d.1 in
        rw (b=p, same)
          (ground arith, r, (ground (arith, l c, d.0), d'), λ a. ground (arith, l a, d.0))
  ]
]

-- The block `b` cut behind its first `n` bytes, with the rest free.
abbrev pub cut : Heap → ℕ → ℕ → Heap
cut h b n = record h {
  size = λ a.
      if a == b
      then n
      else if a == b + header_size + n
      then h.size b - n - header_size
      else h.size a;
  is_free = λ a. if a == b + header_size + n then true else h.is_free a;
  free_list = (b + header_size + n) ∷ h.free_list;
}

module _ (h : Heap) (bs : List ℕ) (b n : ℕ) (v : IsValid h bs) (here : listed bs b ≡ true)
    (room : n + header_size + 16 ≤ h.size b) where
  abbrev next : ℕ
  next = b + header_size + n

  -- No block begins at the cut.
  next_new : listed bs next ≡ false
  next_new = elim (Bool-cases (listed bs next)) [
    | inr new ↦ new
    | inl old ↦
        let i = Chain-in h.size h.start h.limit next bs v.tiles old in
        let apart =
          Chain-apart h.size h.start h.limit b next bs v.tiles here old (λ e. omega arith) in
        absurd (omega arith)
  ]

  cut-IsValid : IsValid (cut h b n) (insert b next bs)
  cut-IsValid = record {
    tiles =
        Chain-insert h.size (cut h b n).size h.start h.limit b next bs v.tiles here (ground arith)
          (ground arith) (λ a p q. ground arith);
    positive = v.positive;
    fits = v.fits;
    once = (ground (arith, v.free_listed next, next_new), v.once);
    free_listed = λ a l. ground (arith, listed-insert b next a bs here, v.free_listed a);
    listed_free = λ a l f. ground (arith, listed-insert b next a bs here, v.listed_free a);
  }

split-cut :
    (h : Heap) (b n : ℕ)
    → b + header_size + n < 2 ^ 64
    → n + 64 < 2 ^ 64
    → split h b n ≡ (if leb (n + header_size + 16) (h.size b) then cut h b n else h)
unfolding split
split-cut h b n fits small =
    let e₁ : u64 (b + header_size + n) ≡ b + header_size + n = omega arith in
    let e₂ : u64 (n + header_size + 16) ≡ n + header_size + 16 = omega arith in rw (e₁, e₂)

-- What a block that is cut, or taken whole, is for its user, and for the others.
pub record Taken (h : Heap) (bs : List ℕ) (b n : ℕ) (h' : Heap) (bs' : List ℕ) : Type 0 where
  pub valid : IsValid h' bs'
  pub block : (listed bs' b ≡ true) × (h'.is_free b ≡ false) × (n ≤ h'.size b)
  pub others :
      (a : ℕ)
      → listed bs a ≡ true
      → a ≢ b
      → (listed bs' a ≡ true) × (h'.size a ≡ h.size a) × (h'.is_free a ≡ h.is_free a)

pub split-Taken :
    (h : Heap) (bs : List ℕ) (b n : ℕ)
    → IsValid h bs
    → listed bs b ≡ true
    → h.is_free b ≡ false
    → n + 64 < 2 ^ 64
    → n ≤ h.size b
    → (bs' : List ℕ) × Taken h bs b n (split h b n) bs'
split-Taken h bs b n v here taken small le =
    let i = Chain-in h.size h.start h.limit b bs v.tiles here in
    let e = split-cut h b n (omega (arith, i, v.fits)) small in
    elim (Bool-cases (leb (n + header_size + 16) (h.size b))) [
      | inl room ↦
          let fit : n + header_size + 16 ≤ h.size b = ground arith in
          let new = next_new h bs b n v here fit in
          rw (e, room)
            (
              insert b (b + header_size + n) bs,
              record {
                valid = cut-IsValid h bs b n v here fit;
                block = ground (arith, listed-insert b (b + header_size + n) b bs here);
                others =
                    λ a l ne. ground (arith, listed-insert b (b + header_size + n) a bs here, new);
              },
            )
      | inr tight ↦
          rw (e, tight)
            (
              bs,
              record { valid = v; block = (here, taken, le); others = λ a l ne. (l, refl, refl) },
            )
    ]
