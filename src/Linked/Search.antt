-- ===== src/Linked/Search.antt =====
-- Searching a list.
use hvos.Common.{
  ℕ, zero, suc, ◌+◌, ◌<◌, ◌≡◌, refl, Bool, some, List, [], ◌∷◌, arith, if◌then◌else◌, ==-ne, length,
}
use hvos.Linked.{Store, LinkedList, null, match_from, get_first_match}
use hvos.Linked.Chain.{Cells, payloads, Chain, nil, cons, IsList}

-- The first that the callback takes, NULL if it takes none.
abbrev pub first_of : (ℕ → Bool) → List ℕ → ℕ
first_of callback [] = null
first_of callback (d ∷ ds) = let rest = first_of callback ds in if callback d then d else rest

match_from-Chain :
    (rounds : ℕ) (callback : ℕ → Bool) {s : Store} {p : ℕ} {xs : Cells}
    → Chain s p xs
    → length xs < rounds
    → match_from rounds callback s p ≡ some (first_of callback (payloads xs))
unfolding match_from
match_from-Chain zero callback (nil e) lt = absurd (omega arith)
match_from-Chain zero callback (cons ne e out c) lt = absurd (omega arith)
match_from-Chain (suc rounds) callback (nil e) lt = rw e refl
match_from-Chain (suc rounds) callback (cons {p} {d = d} ne e out c) lt =
    rw (==-ne p null ne, e) (ground (arith, match_from-Chain rounds callback c (omega arith)))

-- On a list, `get_first_match` returns the data of the first node whose data the callback takes,
-- NULL if there is none.
pub get_first_match_lem :
    {s : Store} {l : LinkedList} {xs : Cells} (callback : ℕ → Bool)
    → IsList s l xs
    → get_first_match s l callback ≡ some (first_of callback (payloads xs))
unfolding get_first_match
get_first_match_lem {xs = []} callback is = rw (is.counts) refl
get_first_match_lem {l = l} {xs = x ∷ xs} callback is =
    rw (==-ne l.count 0 (λ e. omega (arith, is.counts, e)))
      (match_from-Chain (l.count + 1) callback is.chain (omega (arith, is.counts)))
