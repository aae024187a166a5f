-- ===== src/Linked/Chain.antt =====
-- The chain of nodes from an address, and what links and unlinks one.
use hvos.Common.{
  ℕ, zero, suc, ◌<◌, ◌≡◌, refl, ◌∙◌, ◌≢◌, inl, inr, true, false, some, List, [], ◌∷◌, ◌++◌, arith,
  ◌==◌, Bool-cases, ==→eq, ==-ne, ==_refl, length, take, drop, listed, get_or,
}
use hvos.Linked.{Store, LinkedList, load, follow, null}

-- Address and data of each node.
abbrev pub Cells : Type 0
Cells = List (ℕ × ℕ)

abbrev pub nodes : Cells → List ℕ
nodes [] = []
nodes ((a, d) ∷ xs) = a ∷ nodes xs

abbrev pub payloads : Cells → List ℕ
payloads [] = []
payloads ((a, d) ∷ xs) = d ∷ payloads xs

-- From `p` the `next` fields lead through the nodes `xs`, all of them different, to NULL.
pub data Chain (s : Store) : ℕ → Cells → Type 0 where
  nil : {p : ℕ} → p ≡ null → Chain s p []
  cons :
      {p q d : ℕ} {xs : Cells}
      → p ≢ null
      → s.node p ≡ some (record { payload = d; next = q })
      → listed (nodes xs) p ≡ false
      → Chain s q xs
      → Chain s p ((p, d) ∷ xs)

pub record IsList (s : Store) (l : LinkedList) (xs : Cells) : Type 0 where
  pub chain : Chain s l.head xs
  pub counts : l.count ≡ length xs

pub Chain-frame :
    {s t : Store} {p : ℕ} {xs : Cells}
    → Chain s p xs
    → ((a : ℕ) → listed (nodes xs) a ≡ true → t.node a ≡ s.node a)
    → Chain t p xs
Chain-frame (nil e) same = nil e
Chain-frame (cons {p} ne e out c) same =
    cons ne (same p (rw (==_refl p) refl) ∙ e) out (Chain-frame c (λ a h. same a (ground arith)))

pub listed-drop :
    (k : ℕ) (xs : Cells) (a : ℕ)
    → listed (nodes xs) a ≡ false
    → listed (nodes (drop k xs)) a ≡ false
listed-drop zero xs a h = h
listed-drop (suc k) [] a h = refl
listed-drop (suc k) (x ∷ xs) a h = listed-drop k xs a (ground arith)

pub listed-take :
    (k : ℕ) (xs : Cells) (a : ℕ)
    → listed (nodes xs) a ≡ false
    → listed (nodes (take k xs)) a ≡ false
listed-take zero xs a h = refl
listed-take (suc k) [] a h = refl
listed-take (suc k) (x ∷ xs) a h = ground (arith, listed-take k xs a)

listed-append :
    (xs ys : Cells) (a : ℕ)
    → listed (nodes xs) a ≡ false
    → listed (nodes ys) a ≡ false
    → listed (nodes (xs ++ ys)) a ≡ false
listed-append [] ys a h h' = h'
listed-append (x ∷ xs) ys a h h' = ground (arith, listed-append xs ys a)

module _ {s : Store} where
  pub follow-Chain :
      (k : ℕ) {p : ℕ} {xs : Cells} → Chain s p xs → follow s k p ≡ some (get_or (nodes xs) k null)
  unfolding follow
  follow-Chain zero (nil e) = rw e refl
  follow-Chain zero (cons ne e out c) = refl
  follow-Chain (suc k) (nil e) = rw e refl
  follow-Chain (suc k) (cons {p} ne e out c) = rw (==-ne p null ne, e, load) (follow-Chain k c)

  pub load-Chain :
      (k : ℕ) {p : ℕ} {xs : Cells}
      → Chain s p xs
      → k < length xs
      → (get_or (nodes xs) k null ≢ null)
        × (s.node (get_or (nodes xs) k null)
            ≡ some (record {
              payload = get_or (payloads xs) k null;
              next = get_or (nodes xs) (suc k) null;
            }))
  load-Chain zero (nil e) lt = absurd (omega arith)
  load-Chain zero (cons ne e out (nil z)) lt = (ne, ground (arith, e, z))
  load-Chain zero (cons ne e out (cons n' e' o' c)) lt = (ne, e)
  load-Chain (suc k) (nil e) lt = absurd (omega arith)
  load-Chain (suc k) (cons ne e out c) lt = load-Chain k c (omega arith)

  pub drop-Chain :
      (k : ℕ) {p : ℕ} {xs : Cells} → Chain s p xs → Chain s (get_or (nodes xs) k null) (drop k xs)
  drop-Chain zero (nil e) = nil refl
  drop-Chain zero (cons ne e out c) = cons ne e out c
  drop-Chain (suc k) (nil e) = nil refl
  drop-Chain (suc k) (cons ne e out c) = drop-Chain k c

  pub take-apart :
      (k : ℕ) {p : ℕ} {xs : Cells}
      → Chain s p xs
      → (a : ℕ) → listed (nodes (take k xs)) a ≡ true
      → listed (nodes (drop k xs)) a ≡ false
  take-apart zero (nil e) a h = cc
  take-apart zero (cons ne e out c) a h = cc
  take-apart (suc k) (nil e) a h = cc
  take-apart (suc k) (cons {p} {xs = xs} ne e out c) a h = elim (Bool-cases (p == a)) [
    | inl same ↦ rw (← ==→eq p a same) (listed-drop k xs p out)
    | inr other ↦ take-apart k c a (ground arith)
  ]

-- The node at `k` is the first behind `take k` and the last of `take (suc k)`.
pub first_dropped :
    (k : ℕ) (xs : Cells)
    → k < length xs
    → listed (nodes (drop k xs)) (get_or (nodes xs) k null) ≡ true
first_dropped zero [] lt = absurd (omega arith)
first_dropped zero (x ∷ xs) lt = rw (==_refl (x.0)) refl
first_dropped (suc k) [] lt = absurd (omega arith)
first_dropped (suc k) (x ∷ xs) lt = first_dropped k xs (omega arith)

last_taken :
    (k : ℕ) (xs : Cells)
    → k < length xs
    → listed (nodes (take (suc k) xs)) (get_or (nodes xs) k null) ≡ true
last_taken zero [] lt = absurd (omega arith)
last_taken zero (x ∷ xs) lt = rw (==_refl (x.0)) refl
last_taken (suc k) [] lt = absurd (omega arith)
last_taken (suc k) (x ∷ xs) lt = ground (arith, last_taken k xs)

pub listed_node :
    (k : ℕ) (xs : Cells) → k < length xs → listed (nodes xs) (get_or (nodes xs) k null) ≡ true
listed_node zero [] lt = absurd (omega arith)
listed_node zero (x ∷ xs) lt = rw (==_refl (x.0)) refl
listed_node (suc k) [] lt = absurd (omega arith)
listed_node (suc k) (x ∷ xs) lt = ground (arith, listed_node k xs)

-- No node before or behind it has its address.
pub node-apart :
    (k : ℕ) {s : Store} {p : ℕ} {xs : Cells}
    → Chain s p xs
    → k < length xs
    → (listed (nodes (take k xs)) (get_or (nodes xs) k null) ≡ false)
      × (listed (nodes (drop (suc k) xs)) (get_or (nodes xs) k null) ≡ false)
node-apart k {s} {p} {xs} c lt =
    let at = get_or (nodes xs) k null in
    (
      elim (Bool-cases (listed (nodes (take k xs)) at)) [
        | inr out ↦ out
        | inl there ↦ absurd (ground (arith, take-apart k c at there, first_dropped k xs lt))
      ],
      take-apart (suc k) c at (last_taken k xs lt),
    )

-- A node is linked to another chain, which shares none with those up to it.
pub relink :
    (k : ℕ) {s t : Store} {p q : ℕ} {xs ys : Cells}
    → Chain s p xs
    → k < length xs
    → t.node (get_or (nodes xs) k null)
      ≡ some (record { payload = get_or (payloads xs) k null; next = q })
    → ((a : ℕ) → listed (nodes (take k xs)) a ≡ true → t.node a ≡ s.node a)
    → Chain t q ys
    → ((a : ℕ) → listed (nodes (take (suc k) xs)) a ≡ true → listed (nodes ys) a ≡ false)
    → Chain t p (take (suc k) xs ++ ys)
relink zero (nil e) lt at same d apart = absurd (omega arith)
relink zero (cons {p} ne e out c) lt at same d apart = cons ne at (apart p (rw (==_refl p) refl)) d
relink (suc k) (nil e) lt at same d apart = absurd (omega arith)
relink (suc k) {s} {t} {p} {q} {xs} {ys} (cons {xs = zs} ne e out c) lt at same d apart =
    cons ne (same p (rw (==_refl p) refl) ∙ e)
      (listed-append (take (suc k) zs) ys p (listed-take (suc k) zs p out)
        (apart p (rw (==_refl p) refl)))
      (relink k c (omega arith) at (λ a h. same a (ground arith)) d (λ a h. apart a (ground arith)))
