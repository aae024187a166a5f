-- ===== src/Linked/Examples.antt =====
-- A list of three nodes.
use hvos.Common.{
  ℕ, ◌<◌, ◌≡◌, refl, ◌≢◌, Option, none, some, List, [], ◌∷◌, arith, ltb, ◌==◌, if◌then◌else◌,
  length,
}
use hvos.Linked.{
  Node, Store, LinkedList, follow, new_node, list_get_node_at, list_get_at, list_push, list_pop,
  list_insert_at, list_remove_at, get_first_match, match_from, filter_from, list_filter,
}
use hvos.Linked.Chain.{Cells, nil, cons, IsList}
use hvos.Linked.Change.{list_insert_at_lem, list_pop-list_push}
use hvos.Linked.Remove.{list_remove_at_lem}

abbrev memory : ℕ → Option Node
memory a =
    if a == 10
    then some (record { payload = 100; next = 20 })
    else if a == 20
    then some (record { payload = 200; next = 30 })
    else if a == 30
    then some (record { payload = 300; next = 0 })
    else none

abbrev store : Store
store = record { node = memory; freed = [] }

abbrev three : LinkedList
three = record { count = 3; head = 10 }

abbrev cells : Cells
cells = (10, 100) ∷ (20, 200) ∷ (30, 300) ∷ []

three-IsList : IsList store three cells
three-IsList = record {
  chain =
      cons (λ e. omega (arith, e)) refl refl
        (cons (λ e. omega (arith, e)) refl refl
          (cons (λ e. omega (arith, e)) refl refl (nil refl)));
  counts = refl;
}

list_insert_at_lem_example :
    (2 < 3
      → (t : Store) × (l' : LinkedList) × (list_insert_at store three 40 2 400 ≡ some (t, l'))
        × IsList t l' ((10, 100) ∷ (20, 200) ∷ (40, 400) ∷ (30, 300) ∷ [])
        × (list_get_at t l' 2 ≡ some 400))
    × (2 ≡ length cells → list_insert_at store three 40 2 400 ≡ some (store, three))
    × (length cells < 2 → list_insert_at store three 40 2 400 ≡ none)
list_insert_at_lem_example = list_insert_at_lem 40 400 three-IsList (λ e. omega (arith, e)) refl 2

list_pop-list_push_example :
    (t : Store) × (list_pop (list_push store three 40 400).0 (list_push store three 40 400).1
      ≡ some (t, three))
    × ((a : ℕ) → t.node a ≡ store.node a)
    × (t.freed ≡ 400 ∷ [])
    × IsList t three cells
list_pop-list_push_example =
    list_pop-list_push 40 400 three-IsList (λ e. omega (arith, e)) refl refl (λ e. omega (arith, e))

list_remove_at_lem_example :
    (t : Store) × (list_remove_at store three 1 ≡ some (t, record three { count = 2 }))
    × IsList t (record three { count = 2 }) ((10, 100) ∷ (30, 300) ∷ [])
    × (t.freed ≡ 200 ∷ 200 ∷ [])
    × (t.node 20 ≡ store.node 20)
    × (t.node 20 ≢ none)
list_remove_at_lem_example = list_remove_at_lem 0 three-IsList (omega arith) (λ e. omega (arith, e))

finds : get_first_match store three (λ d. ltb 150 d) ≡ some 200
unfolding get_first_match match_from
finds = refl

-- The filtered list is in reverse order.
abbrev kept : Option (Option (Store × LinkedList)) → List ℕ
kept none = []
kept (some none) = []
kept (some (some (t, l))) = elim (list_get_at t l 0) [
  | none ↦ []
  | some a ↦ elim (list_get_at t l 1) [ none ↦ a ∷ [] | some b ↦ a ∷ b ∷ [] ]
]

filters : kept (list_filter store three (λ d. ltb 150 d) (50 ∷ 60 ∷ [])) ≡ 300 ∷ 200 ∷ []
unfolding list_filter filter_from list_push new_node list_get_at list_get_node_at follow
filters = refl
