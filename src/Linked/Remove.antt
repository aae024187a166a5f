-- ===== src/Linked/Remove.antt =====
-- Taking a node out of a list.
use hvos.Common.{
  ℕ, zero, suc, ◌-◌, ◌≤◌, ◌<◌, ◌≡◌, refl, ap, ◌≢◌, false, none, some, [], ◌∷◌, ◌++◌, arith, ==-ne,
  ==_refl, length, take, drop, listed, get_or, length-append,
}
use hvos.Linked.{Store, LinkedList, null, write, set_next, free_data, remove_behind, list_remove_at}
use hvos.Linked.Chain.{
  Cells, nodes, payloads, Chain, IsList, Chain-frame, follow-Chain, load-Chain, drop-Chain,
  take-apart, first_dropped, node-apart, relink,
}
use hvos.Linked.Change.{length-take-drop}

length-take : (n : ℕ) (xs : Cells) → n ≤ length xs → length (take n xs) ≡ n
length-take zero xs h = refl
length-take (suc n) [] h = absurd (omega arith)
length-take (suc n) (x ∷ xs) h = omega (arith, length-take n xs)

drop_shrinks :
    (n : ℕ) (xs : Cells) (a : ℕ)
    → listed (nodes (drop n xs)) a ≡ false
    → listed (nodes (drop (suc n) xs)) a ≡ false
drop_shrinks zero [] a h = refl
drop_shrinks zero (x ∷ xs) a h = ground arith
drop_shrinks (suc n) [] a h = refl
drop_shrinks (suc n) (x ∷ xs) a h = drop_shrinks n xs a h

victim_other :
    (k : ℕ) {s : Store} {p : ℕ} {xs : Cells}
    → Chain s p xs
    → suc k < length xs
    → get_or (nodes xs) (suc k) null ≢ get_or (nodes xs) k null
victim_other k {s} {p} {xs} c lt e = ground (
  arith,
  node-apart k c (omega arith),
  first_dropped (suc k) xs lt,
  ap (listed (nodes (drop (suc k) xs))) e,
)

-- On a list, `list_remove_at` takes out the node at an index other than the first, frees its data,
-- which is not NULL, twice, and leaves its node allocated.
pub list_remove_at_lem :
    {s : Store} {l : LinkedList} {xs : Cells} (k : ℕ)
    → IsList s l xs
    → suc k < length xs
    → get_or (payloads xs) (suc k) null ≢ null
    → let d = get_or (payloads xs) (suc k) null in
      let a = get_or (nodes xs) (suc k) null in
      (t : Store) × (list_remove_at s l (suc k) ≡ some (t, record l { count = l.count - 1 }))
      × IsList t (record l { count = l.count - 1 }) (take (suc k) xs ++ drop (suc (suc k)) xs)
      × (t.freed ≡ d ∷ d ∷ s.freed)
      × (t.node a ≡ s.node a)
      × (t.node a ≢ none)
unfolding list_remove_at remove_behind set_next
list_remove_at_lem {s} {l} {xs} k is lt full =
    let apart : get_or (nodes xs) (suc k) null ≢ get_or (nodes xs) k null =
      victim_other k is.chain lt in
    let d = get_or (payloads xs) (suc k) null in
    let (ne, node) = load-Chain k is.chain (omega arith) in
    let (ne', node') = load-Chain (suc k) is.chain lt in
    let at = get_or (nodes xs) k null in
    let one : suc k - 1 ≡ k = omega arith in
    let cut : Store = write s at (
      some (record {
        payload = get_or (payloads xs) k null;
        next = get_or (nodes xs) (suc (suc k)) null;
      })) in
    (
      free_data (free_data cut d) d,
      rw
          (
            ==-ne l.count 0 (λ e. omega (arith, is.counts, e)),
            ==-ne (suc k) 0 (λ e. omega (arith, e)),
            one,
            follow-Chain k is.chain,
          )
          (ground (arith, ne, ne', node, node', full)),
      record {
        chain =
            relink k is.chain (omega arith) (rw (==_refl at) refl)
              (λ b h. ground (arith, node-apart k is.chain (omega arith)))
              (Chain-frame (drop-Chain (suc (suc k)) is.chain) (λ b h.
                ground (arith, node-apart k is.chain (omega arith), drop_shrinks (suc k) xs b)))
              (λ b h. drop_shrinks (suc k) xs b (take-apart (suc k) is.chain b h));
        counts = omega (
          arith,
          is.counts,
          length-append {0} (take (suc k) xs) (drop (suc (suc k)) xs),
          length-take (suc k) xs,
          length-take (suc (suc k)) xs,
          length-take-drop (suc (suc k)) xs,
        );
      },
      refl,
      rw (==-ne (get_or (nodes xs) (suc k) null) at apart) refl,
      rw (==-ne (get_or (nodes xs) (suc k) null) at apart) (λ e. ground (arith, node', e)),
    )
