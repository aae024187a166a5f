-- ===== src/Linked/Change.antt =====
-- The operations that change a list.
use hvos.Common.{
  ℕ, zero, suc, ◌+◌, ◌-◌, ◌≤◌, ◌<◌, ◌≡◌, refl, sym, ap, ◌∙◌, ◌≢◌, inl, inr, true, false, none, some,
  [], ◌∷◌, ◌++◌, arith, leb, ◌==◌, Bool-cases, ==-ne, ==_refl, length, take, drop, listed, get_or,
  length-append,
}
use hvos.Linked.{
  Store, LinkedList, null, write, set_next, free_data, new_node, list_get_node_at, list_get_at,
  list_append, list_push, list_pop, insert_behind, list_insert_at,
}
use hvos.Linked.Chain.{
  Cells, nodes, payloads, cons, IsList, Chain-frame, follow-Chain, load-Chain, drop-Chain,
  take-apart, listed-drop, listed-take, node-apart, listed_node, relink,
}

pub length-take-drop : (n : ℕ) (xs : Cells) → length (take n xs) + length (drop n xs) ≡ length xs
length-take-drop zero xs = omega arith
length-take-drop (suc n) [] = omega arith
length-take-drop (suc n) (x ∷ xs) = omega (arith, length-take-drop n xs)

payloads_past : (xs : Cells) (at : ℕ) → length xs ≤ at → get_or (payloads xs) at null ≡ null
payloads_past [] at h = refl
payloads_past (x ∷ xs) zero h = absurd (omega arith)
payloads_past (x ∷ xs) (suc at) h = payloads_past xs at (omega arith)

payload_inserted :
    (k : ℕ) (xs : Cells) (a d : ℕ)
    → k ≤ length xs
    → get_or (payloads (take k xs ++ (a, d) ∷ drop k xs)) k null ≡ d
payload_inserted zero xs a d h = refl
payload_inserted (suc k) [] a d h = absurd (omega arith)
payload_inserted (suc k) (x ∷ xs) a d h = payload_inserted k xs a d (omega arith)

-- `list_get_at` returns the data at an index, and NULL past the end.
list_get_at_lem :
    {s : Store} {l : LinkedList} {xs : Cells} (at : ℕ)
    → IsList s l xs
    → list_get_at s l at ≡ some (get_or (payloads xs) at null)
unfolding list_get_at list_get_node_at
list_get_at_lem {s} {l} {xs} at is = elim (Bool-cases (leb l.count at)) [
  | inl past ↦ rw past (ground (arith, payloads_past xs at, is.counts))
  | inr inside ↦
      let (ne, node) = load-Chain at is.chain (ground (arith, is.counts)) in
      rw (inside, follow-Chain at is.chain) (ground (arith, node, ne))
]

module _ {s : Store} {l : LinkedList} {xs : Cells} (fresh d : ℕ) (is : IsList s l xs)
    (got : fresh ≢ null) (new : listed (nodes xs) fresh ≡ false) where
  -- The list with a node in front.
  pub list_push-IsList :
      IsList (list_push s l fresh d).0 (list_push s l fresh d).1 ((fresh, d) ∷ xs)
  unfolding list_push new_node
  list_push-IsList = record {
    chain = cons got (ground arith) new (Chain-frame is.chain (λ a h. ground arith));
    counts = omega (arith, is.counts);
  }

  node_other : (k : ℕ) → k < length xs → get_or (nodes xs) k null ≢ fresh
  node_other k lt e = ground (arith, listed_node k xs, ap (listed (nodes xs)) e)

  -- What `list_insert_at` leaves behind node `k`.
  inserted : ℕ → Store
  inserted k =
      write (write s fresh (some (record { payload = d; next = get_or (nodes xs) (suc k) null })))
        (get_or (nodes xs) k null)
        (some (record { payload = get_or (payloads xs) k null; next = fresh }))

  insert-runs :
      (k : ℕ)
      → suc k < length xs
      → list_insert_at s l fresh (suc k) d ≡ some (inserted k, record l { count = l.count + 1 })
  unfolding list_insert_at list_get_node_at insert_behind set_next new_node inserted
  insert-runs k lt =
      let (ne, node) = load-Chain k is.chain (omega arith) in
      let prev = get_or (nodes xs) k null in
      let other : fresh ≢ prev = λ e. node_other k (omega arith) (sym e) in
      let one : suc k - 1 ≡ k = omega arith in
      let inside : leb l.count k ≡ false = ground (arith, is.counts) in
      rw
        (
          ==-ne (suc k) l.count (omega (arith, is.counts)),
          ==-ne (suc k) 0 (omega arith),
          one,
          inside,
        )
        (rw (follow-Chain k is.chain) (ground (arith, node, ne, other, is.counts)))

  inserted-IsList :
      (k : ℕ)
      → suc k < length xs
      → IsList
          (inserted k)
          (record l { count = l.count + 1 })
          (take (suc k) xs ++ (fresh, d) ∷ drop (suc k) xs)
  unfolding inserted
  inserted-IsList k lt = record {
    chain =
        relink k is.chain (omega arith) (rw (==_refl (get_or (nodes xs) k null)) refl)
          (λ a h. same a h)
          (cons got
            (rw
              (
                ==-ne fresh (get_or (nodes xs) k null) (λ e. node_other k (omega arith) (sym e)),
                ==_refl fresh,
              )
              refl)
            (listed-drop (suc k) xs fresh new)
            (Chain-frame (drop-Chain (suc k) is.chain) (λ a h. behind a h)))
          apart;
    counts = omega (
      arith,
      is.counts,
      length-append {0} (take (suc k) xs) ((fresh, d) ∷ drop (suc k) xs),
      length-take-drop (suc k) xs,
    );
  }
    where
      same : (a : ℕ) → listed (nodes (take k xs)) a ≡ true → (inserted k).node a ≡ s.node a
      same a h = ground (arith, node-apart k is.chain (omega arith), listed-take k xs fresh new)

      behind : (a : ℕ) → listed (nodes (drop (suc k) xs)) a ≡ true → (inserted k).node a ≡ s.node a
      behind a h =
          ground (arith, node-apart k is.chain (omega arith), listed-drop (suc k) xs fresh new)

      apart :
          (a : ℕ)
          → listed (nodes (take (suc k) xs)) a ≡ true
          → listed (nodes ((fresh, d) ∷ drop (suc k) xs)) a ≡ false
      apart a h = ground (arith, take-apart (suc k) is.chain a h, listed-take (suc k) xs fresh new)

  insert_front :
      0 < length xs
      → list_insert_at s l fresh 0 d ≡ some ((list_push s l fresh d).0, (list_push s l fresh d).1)
  unfolding list_insert_at list_push
  insert_front lt = rw (==-ne 0 l.count (λ e. omega (arith, is.counts, e))) refl

  insert_end : (at : ℕ) → at ≡ length xs → list_insert_at s l fresh at d ≡ some (s, l)
  unfolding list_insert_at list_append
  insert_end at e = let here : at == l.count ≡ true = ground (arith, is.counts) in rw here refl

  insert_past : (at : ℕ) → length xs < at → list_insert_at s l fresh at d ≡ none
  unfolding list_insert_at list_get_node_at insert_behind
  insert_past at lt =
      let past : leb l.count (at - 1) ≡ true = ground (arith, is.counts) in
      rw
        (
          ==-ne at l.count (λ e. omega (arith, is.counts, e)),
          ==-ne at 0 (λ e. omega (arith, e)),
          past,
        )
        refl

  -- On a list, with memory for a node: `list_insert_at` of an index inside of the list puts the
  -- data there, in front of what follows, and `list_get_at` finds it at that index; an index at the
  -- end of the list changes nothing; and an index past the end is a write through NULL.
  pub list_insert_at_lem :
      (at : ℕ)
      → (at < length xs
          → (t : Store) × (l' : LinkedList) × (list_insert_at s l fresh at d ≡ some (t, l'))
            × IsList t l' (take at xs ++ (fresh, d) ∷ drop at xs)
            × (list_get_at t l' at ≡ some d))
        × (at ≡ length xs → list_insert_at s l fresh at d ≡ some (s, l))
        × (length xs < at → list_insert_at s l fresh at d ≡ none)
  list_insert_at_lem zero = (
    λ lt. (
      (list_push s l fresh d).0,
      (list_push s l fresh d).1,
      insert_front lt,
      list_push-IsList,
      list_get_at_lem 0 list_push-IsList,
    ),
    insert_end 0,
    insert_past 0,
  )
  list_insert_at_lem (suc k) = (
    λ lt. (
      inserted k,
      record l { count = l.count + 1 },
      insert-runs k lt,
      inserted-IsList k lt,
      list_get_at_lem (suc k) (inserted-IsList k lt)
          ∙ ap some (payload_inserted (suc k) xs fresh d (omega arith)),
    ),
    insert_end (suc k),
    insert_past (suc k),
  )

  -- On a list, with memory for a node: popping what was pushed, which is not NULL, gives back the
  -- list and its nodes, and frees the data.
  pub list_pop-list_push :
      s.node fresh ≡ none
      → d ≢ null
      → (t : Store) × (list_pop (list_push s l fresh d).0 (list_push s l fresh d).1 ≡ some (t, l))
        × ((a : ℕ) → t.node a ≡ s.node a)
        × (t.freed ≡ d ∷ s.freed)
        × IsList t l xs
  unfolding list_pop list_push new_node
  list_pop-list_push unused full =
      let back : l.count + 1 - 1 ≡ l.count = omega arith in
      (
        write (free_data (write s fresh (some (record { payload = d; next = l.head }))) d) fresh
            none,
        rw
            (
              ==-ne (l.count + 1) 0 (λ e. omega (arith, e)),
              ==-ne fresh null got,
              ==_refl fresh,
              ==-ne d null full,
              back,
            )
            refl,
        λ a. ground (arith, unused),
        refl,
        record { chain = Chain-frame is.chain (λ a h. ground arith); counts = is.counts },
      )
