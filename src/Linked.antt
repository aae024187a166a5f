-- ===== src/Linked.antt =====
-- src/kernel/data/list.c: singly linked lists of pointers, over a store of nodes.
pub mod Chain
pub mod Change
pub mod Remove
pub mod Search
mod Examples
use hvos.Common.{
  ℕ, zero, suc, ◌+◌, ◌-◌, ◌*◌, ◌/◌, ◌%◌, ◌^◌, ◌≤◌, ◌<◌, bit_and, bit_or, ◌≡◌, refl, sym, ap, subst,
  ◌∙◌, ◌≢◌, ◌↔◌, ◌⊎◌, inl, inr, Bool, true, false, not, ◌&&◌, ◌||◌, Option, none, some, List, [],
  ◌∷◌, ◌++◌, map, append_assoc, append-nil, arith, ltb, leb, ◌==◌, if◌then◌else◌, Bool-cases,
  Option-cases, every, every-lem, ltb→lt, lt→ltb, le→ltb, ==→eq, ==-ne, ==_refl, u8, u16, u32, u64,
  sub64, ◌<<<◌, ◌>>>◌, length, assign, replicate, take, drop, listed, get_elem?, get_or, set, All,
  length-set, get_or-set_self, get_or-set_ne, length-append, length-replicate, All-replicate,
  get_or-replicate, All-set, All-get_or,
}
use hvos.Common.Loops.{each_from, each_from-keeps}

-- `list_node_t`
pub record Node : Type 0 where
  pub payload : ℕ
  pub next : ℕ

-- The nodes by address, `none` where no node is allocated, and the addresses of data that were
-- passed to `kfree`, the last one first.
pub record Store : Type 0 where
  pub node : ℕ → Option Node
  pub freed : List ℕ

-- `list_t`, whose own memory the callers hold.
pub record LinkedList : Type 0 where
  pub count : ℕ
  pub head : ℕ

-- `none` is a fault: a read or write through NULL or where no node is.
infixl 5 ◌>>=◌
abbrev pub ◌>>=◌ {ℓ κ} : {A : Type ℓ} {B : Type κ} → Option A → (A → Option B) → Option B
none >>= f = none
some a >>= f = f a

abbrev pub null : ℕ
null = 0

abbrev pub load : Store → ℕ → Option Node
load s p = if p == null then none else s.node p

abbrev pub write : Store → ℕ → Option Node → Store
write s p c = record s { node = λ q. if q == p then c else s.node q }

-- `p->next = q`
unfoldable pub set_next : Store → ℕ → ℕ → Option Store
set_next s p q = load s p >>= λ (n : Node). some (write s p (some (record n { next = q })))

abbrev pub free_data : Store → ℕ → Store
free_data s p = record s { freed = p ∷ s.freed }

-- A node at `fresh`, which is what `kzalloc` returns, NULL without memory.
unfoldable pub new_node : Store → ℕ → ℕ → ℕ → Store
new_node s fresh payload next =
    if fresh == null then s else write s fresh (some (record { payload = payload; next = next }))

abbrev pub init_list : LinkedList
init_list = record { count = 0; head = null }

-- `for (i = 1; i <= at && current != NULL; i++) current = current->next`
unfoldable pub follow : Store → ℕ → ℕ → Option ℕ
follow s zero current = some current
follow s (suc at) current =
    let rest = load s current >>= λ (n : Node). follow s at n.next in
    if current == null then some null else rest

unfoldable pub list_get_node_at : Store → LinkedList → ℕ → Option ℕ
list_get_node_at s list at = if leb list.count at then some null else follow s at list.head

unfoldable pub list_get_at : Store → LinkedList → ℕ → Option ℕ
list_get_at s list at = list_get_node_at s list at >>= λ (p : ℕ).
    if p == null then some null else (load s p >>= λ (n : Node). some n.payload)

-- The body of `list_append` behind its test, for the node that the test has let through. `last` is
-- what `list_get_at` returns, the data of the last node and not the node.
unfoldable pub append_node : Store → LinkedList → ℕ → ℕ → ℕ → Option (Store × LinkedList)
append_node s list fresh payload node =
    if list.count == 0
    then some (s, record list { head = node; count = list.count + 1 })
    else (list_get_at s list (list.count - 1) >>= λ (last : ℕ).
        set_next (new_node s fresh payload null) last fresh >>= λ (t : Store).
        some (t, record list { count = list.count + 1 }))

-- The node that is tested was set to NULL the line before, so nothing is ever appended.
unfoldable pub list_append : Store → LinkedList → ℕ → ℕ → Option (Store × LinkedList)
list_append s list fresh payload =
    let node : ℕ = null in
    if node == null then some (s, list) else append_node s list fresh payload node

-- The head is `fresh` also where that is NULL.
unfoldable pub list_push : Store → LinkedList → ℕ → ℕ → Store × LinkedList
list_push s list fresh payload =
    (new_node s fresh payload list.head, record { count = list.count + 1; head = fresh })

unfoldable pub insert_behind : Store → LinkedList → ℕ → ℕ → ℕ → Option (Store × LinkedList)
insert_behind s list fresh payload prev = load s prev >>= λ (n : Node).
    set_next (new_node s fresh payload n.next) prev fresh >>= λ (t : Store).
    some (t, record list { count = list.count + 1 })

unfoldable pub list_insert_at : Store → LinkedList → ℕ → ℕ → ℕ → Option (Store × LinkedList)
list_insert_at s list fresh at payload =
    if at == list.count
    then list_append s list fresh payload
    else if at == 0
    then some (list_push s list fresh payload)
    else (list_get_node_at s list (at - 1) >>= insert_behind s list fresh payload)

unfoldable pub list_pop : Store → LinkedList → Option (Store × LinkedList)
list_pop s list =
    if list.count == 0
    then some (s, list)
    else (load s list.head >>= λ (n : Node).
        let t = if n.payload == null then s else free_data s n.payload in
        some (write t list.head none, record { count = list.count - 1; head = n.next }))

-- The node behind `current` is taken out of the list; its data is freed twice and the node never.
unfoldable pub remove_behind : Store → LinkedList → ℕ → Option (Store × LinkedList)
remove_behind s list current = load s current >>= λ (n : Node). load s n.next >>= λ (temp : Node).
    set_next s current temp.next >>= λ (t : Store).
    let t' = if temp.payload == null then t else free_data t temp.payload in
    some (free_data t' temp.payload, record list { count = list.count - 1 })

unfoldable pub list_remove_at : Store → LinkedList → ℕ → Option (Store × LinkedList)
list_remove_at s list at =
    if list.count == 0
    then some (s, list)
    else if at == 0
    then list_pop s list
    else (follow s (at - 1) list.head >>= remove_behind s list)

-- The loop of `list_filter` from `p` on, with rounds to go; `fresh` holds what `kzalloc` will
-- return. Without rounds it is stuck, as on a list that runs in a circle.
unfoldable pub filter_from :
    ℕ → (ℕ → Bool) → Store → ℕ → List ℕ → LinkedList → Option (Store × LinkedList)
filter_from zero callback s p fresh res = none
filter_from (suc rounds) callback s p fresh res =
    if p == null
    then some (s, res)
    else (load s p >>= λ (n : Node).
        if callback n.payload
        then (let (t, res') = list_push s res (get_or fresh 0 null) n.payload in
            filter_from rounds callback t n.next (drop 1 fresh) res')
        else filter_from rounds callback s n.next fresh res)

-- `none` is NULL here, `some none` a fault. The new `list_t` is taken to be there.
unfoldable pub list_filter :
    Store → LinkedList → (ℕ → Bool) → List ℕ → Option (Option (Store × LinkedList))
list_filter s list callback fresh =
    if list.count == 0
    then none
    else some (filter_from (list.count + 1) callback s list.head fresh init_list)

unfoldable pub match_from : ℕ → (ℕ → Bool) → Store → ℕ → Option ℕ
match_from zero callback s p = none
match_from (suc rounds) callback s p =
    if p == null
    then some null
    else (load s p >>= λ (n : Node).
        if callback n.payload then some n.payload else match_from rounds callback s n.next)

-- The callback with its argument is one function here.
unfoldable pub get_first_match : Store → LinkedList → (ℕ → Bool) → Option ℕ
get_first_match s list callback =
    if list.count == 0 then some null else match_from (list.count + 1) callback s list.head
