-- ===== src/Mem/Heap/Chain.antt =====
-- Blocks that lie one behind the other.
use hvos.Common.{
  ℕ, ◌+◌, ◌≤◌, ◌≡◌, sym, subst, ◌≢◌, ◌⊎◌, inl, inr, true, ◌||◌, List, [], ◌∷◌, ◌++◌, arith, ◌==◌,
  if◌then◌else◌, Bool-cases, listed,
}
use hvos.Mem.Heap.{header_size}

-- The blocks `bs` fill the addresses from `a` to `z`.
abbrev pub Chain : (ℕ → ℕ) → ℕ → ℕ → List ℕ → Type 0
Chain size a z [] = a ≡ z
Chain size a z (b ∷ bs) = (b ≡ a) × Chain size (b + header_size + size b) z bs

pub Chain-le : (size : ℕ → ℕ) (a z : ℕ) (bs : List ℕ) → Chain size a z bs → a ≤ z
Chain-le size a z [] c = omega arith
Chain-le size a z (b ∷ bs) c = omega (arith, Chain-le size (b + header_size + size b) z bs c.1)

pub Chain-in :
    (size : ℕ → ℕ) (a z x : ℕ) (bs : List ℕ)
    → Chain size a z bs
    → listed bs x ≡ true
    → (a ≤ x) × (x + header_size + size x ≤ z)
Chain-in size a z x [] c h = cc
Chain-in size a z x (b ∷ bs) c h = elim (Bool-cases (b == x)) [
  | inl here ↦ ground (arith, c.0, Chain-le size (b + header_size + size b) z bs c.1)
  | inr later ↦
      let i = Chain-in size (b + header_size + size b) z x bs c.1 (ground arith) in
      omega (arith, i, c.0)
]

-- Two blocks of a chain do not overlap.
pub Chain-apart :
    (size : ℕ → ℕ) (a z x y : ℕ) (bs : List ℕ)
    → Chain size a z bs
    → listed bs x ≡ true
    → listed bs y ≡ true
    → x ≢ y
    → (x + header_size + size x ≤ y) ⊎ (y + header_size + size y ≤ x)
Chain-apart size a z x y [] c hx hy ne = cc
Chain-apart size a z x y (b ∷ bs) c hx hy ne = ground (
  arith,
  Chain-in size (b + header_size + size b) z x bs c.1,
  Chain-in size (b + header_size + size b) z y bs c.1,
  Chain-apart size (b + header_size + size b) z x y bs c.1,
)

pub Chain-same :
    (s t : ℕ → ℕ) (a z : ℕ) (bs : List ℕ)
    → ((x : ℕ) → listed bs x ≡ true → t x ≡ s x)
    → Chain s a z bs
    → Chain t a z bs
Chain-same s t a z [] e c = c
Chain-same s t a z (b ∷ bs) e c = (
  c.0,
  subst (λ k. Chain t (b + header_size + k) z bs) (sym (e b (ground arith)))
      (Chain-same s t (b + header_size + s b) z bs (λ x h. e x (ground arith)) c.1),
)

pub Chain-append :
    (size : ℕ → ℕ) (a z y : ℕ) (bs : List ℕ)
    → Chain size a z bs
    → z + header_size + size z ≡ y
    → Chain size a y (bs ++ z ∷ [])
Chain-append size a z y [] c e = (sym c, e)
Chain-append size a z y (b ∷ bs) c e =
    (c.0, Chain-append size (b + header_size + size b) z y bs c.1 e)

-- Where a new block begins behind the first `n` bytes of the block `x`.
abbrev pub insert : ℕ → ℕ → List ℕ → List ℕ
insert x y [] = []
insert x y (b ∷ bs) = if b == x then b ∷ y ∷ bs else b ∷ insert x y bs

pub listed-insert :
    (x y a : ℕ) (bs : List ℕ)
    → listed bs x ≡ true
    → listed (insert x y bs) a ≡ (y == a || listed bs a)
listed-insert x y a [] h = cc
listed-insert x y a (b ∷ bs) h = ground (arith, listed-insert x y a bs)

pub Chain-insert :
    (s t : ℕ → ℕ) (a z x y : ℕ) (bs : List ℕ)
    → Chain s a z bs
    → listed bs x ≡ true
    → y ≡ x + header_size + t x
    → y + header_size + t y ≡ x + header_size + s x
    → ((b : ℕ) → b ≢ x → b ≢ y → t b ≡ s b)
    → Chain t a z (insert x y bs)
Chain-insert s t a z x y [] c h ey es e = cc
Chain-insert s t a z x y (b ∷ bs) c h ey es e = elim (Bool-cases (b == x)) [
  | inl here ↦
      let b=x : b ≡ x = ground arith in
      let behind : (u : ℕ) → listed bs u ≡ true → t u ≡ s u = λ u hu.
        let i = Chain-in s (b + header_size + s b) z u bs c.1 hu in
        let gap : b + header_size + s b ≡ y + header_size + t y = rw b=x (sym es) in
        e u (λ q. omega arith) (λ q. omega arith) in
      let tail = Chain-same s t (b + header_size + s b) z bs behind c.1 in
      rw here (c.0, (rw b=x ey, subst (λ k. Chain t k z bs) (rw b=x (sym es)) tail))
  | inr later ↦
      let i = Chain-in s (b + header_size + s b) z x bs c.1 (ground arith) in
      let kept : t b ≡ s b = e b (λ q. omega arith) (λ q. omega arith) in
      rw later (
        c.0,
        subst (λ k. Chain t (b + header_size + k) z (insert x y bs)) (sym kept)
            (Chain-insert s t (b + header_size + s b) z x y bs c.1 (ground arith) ey es e),
      )
]
