-- ===== src/Mem/Paging/Map.antt =====
-- `map_page` maps its page, and no other, whatever tables it has to make on the way.
use hvos.Common.{
  ℕ, ◌+◌, ◌%◌, ◌^◌, bit_and, ◌≡◌, refl, ap, subst, ◌∙◌, ◌≢◌, inl, inr, Bool, true, false, not, ◌&&◌,
  Option, none, some, List, [], ◌∷◌, arith, ◌==◌, Bool-cases, ◌>>>◌, length,
}
use mathlib.Core.List.{reverse_aux}
use hvos.Mem.Paging.{
  Entry, Tables, indices, set_entry, next_table, set_leaf, map_page, pte_user, ◌>>=◌,
}
use hvos.Mem.Paging.Walk.{
  restrict, walk, translate, allows, allows-both, both, writes, serves_user, IsTree,
}
use hvos.Mem.Paging.Grow.{link, next_table-Next}

pub >>=-eq-some {ℓ κ} :
    {A : Type ℓ} {B : Type κ} (m : Option A) (f : A → Option B) {b : B}
    → (m >>= f) ≡ some b
    → (a : A) × (m ≡ some a) × (f a ≡ some b)
>>=-eq-some none f h = cc
>>=-eq-some (some a) f h = (a, refl, h)

abbrev pub for_user : ℕ → Bool
for_user flags = not (bit_and flags pte_user == 0)

-- A page that is present, with these rights.
abbrev pub IsMappedWith : ℕ → Bool → Bool → Option Entry → Type 0
IsMappedWith paddr writable user none = ⊥
IsMappedWith paddr writable user (some e) =
    (e.present ≡ true) × (e.rw ≡ writable) × (e.us ≡ user) × (e.address ≡ paddr >>> 12 % 2 ^ 40)

abbrev pub IsMapped : ℕ → ℕ → Option Entry → Type 0
IsMapped paddr flags o = IsMappedWith paddr true (for_user flags) o

restrict-IsMappedWith :
    (paddr : ℕ) (writable user : Bool) (e : Entry) (o : Option Entry)
    → IsMappedWith paddr writable user o
    → IsMappedWith paddr (e.rw && writable) (e.us && user) (restrict e o)
restrict-IsMappedWith paddr writable user e none h = h
restrict-IsMappedWith paddr writable user e (some l) h =
    (h.0, ap (λ b. e.rw && b) h.1, ap (λ b. e.us && b) h.2, h.3)

module _ {s : Tables} {root t : ℕ} {place : ℕ → Option (List ℕ)} {p : List ℕ} (i paddr flags : ℕ)
    (tree : IsTree s root place) (at : place t ≡ some p) (last : length p ≡ 3) where
  abbrev written : Tables
  written = set_leaf s t i paddr flags

  set_leaf-IsTree : IsTree written root place
  unfolding set_leaf set_entry
  set_leaf-IsTree = record {
    top = tree.top;
    valid = tree.valid;
    small = tree.small;
    held = tree.held;
    child = λ u j q h short pr. ground (arith, tree.child u j q);
  }

  -- A walk to another place than the written entry reads what it read.
  set_leaf-other :
      (is : List ℕ) (u : ℕ) (q : List ℕ)
      → place u ≡ some q
      → length q + length is ≡ 4
      → reverse_aux q is ≢ reverse_aux p (i ∷ [])
      → walk written u is ≡ walk s u is
  unfolding set_leaf set_entry
  set_leaf-other [] u q h e ne = refl
  set_leaf-other (j ∷ []) u q h e ne = elim (Bool-cases (u == t && j == i)) [
    | inl here ↦
        let q=p : q ≡ p = ground arith in
        let j=i : j ≡ i = ground arith in absurd (ne (rw (q=p, j=i)))
    | inr other ↦ rw other
  ]
  set_leaf-other (j ∷ k ∷ ks) u q h e ne = elim (Bool-cases (u == t && j == i)) [
    | inl here ↦ absurd (ground arith)
    | inr other ↦
        let here : written.entry u j ≡ s.entry u j = rw other in
        elim (Bool-cases (s.entry u j).present) [
          | inl pr ↦ ground (
            arith,
            here,
            set_leaf-other (k ∷ ks) (s.entry u j).address (j ∷ q)
                (tree.child u j q h (omega arith) pr) (omega arith) ne,
          )
          | inr ab ↦ ground (arith, here)
        ]
  ]

  set_leaf-same : (u j : ℕ) → u ≢ t → written.entry u j ≡ s.entry u j
  unfolding set_leaf set_entry
  set_leaf-same u j ne = ground arith

  set_leaf-here : IsMapped paddr flags (walk written t (i ∷ []))
  unfolding set_leaf set_entry
  set_leaf-here = ground arith

  set_leaf-allows :
      (right : Entry → Bool) (is : List ℕ) (u : ℕ) (q : List ℕ)
      → place u ≡ some q
      → length q + length is ≡ 4
      → allows right written u is ≡ allows right s u is
  set_leaf-allows right [] u q h e = refl
  set_leaf-allows right (j ∷ []) u q h e = refl
  set_leaf-allows right (j ∷ k ∷ ks) u q h e =
      let same = set_leaf-same u j (λ u=t. ground arith) in
      elim (Bool-cases (s.entry u j).present) [
        | inr off ↦ rw (same, off) refl
        | inl on ↦
            let rest =
              set_leaf-allows right (k ∷ ks) (s.entry u j).address (j ∷ q)
                (tree.child u j q h (omega arith) on) (omega arith) in
            rw (same, on, rest) refl
      ]

-- The three tables on the way are there, and no walk has changed.
record Way (s s' : Tables) (root i₁ i₂ i₃ f flags : ℕ) : Type 0 where
  place' : ℕ → Option (List ℕ)
  tree : IsTree s' root place'
  placed : place' f ≡ some (i₃ ∷ i₂ ∷ i₁ ∷ [])
  t₁ : ℕ
  t₂ : ℕ
  placed₁ : place' t₁ ≡ some (i₁ ∷ [])
  placed₂ : place' t₂ ≡ some (i₂ ∷ i₁ ∷ [])
  leads₁ : ((s'.entry root i₁).present ≡ true) × ((s'.entry root i₁).address ≡ t₁)
  leads₂ : ((s'.entry t₁ i₂).present ≡ true) × ((s'.entry t₁ i₂).address ≡ t₂)
  leads₃ : ((s'.entry t₂ i₃).present ≡ true) × ((s'.entry t₂ i₃).address ≡ f)
  walks : (is : List ℕ) → length is ≡ 4 → walk s' root is ≡ walk s root is
  allowed :
      (right : Entry → Bool) (is : List ℕ)
      → ((e : Entry) (k : ℕ) → right (link e k flags) ≡ true)
      → length is ≡ 4
      → allows right s' root is ≡ allows right s root is

down :
    {s : Tables} {place : ℕ → Option (List ℕ)} {root : ℕ} {a b c : ℕ × Tables} (i₁ i₂ i₃ flags : ℕ)
    → IsTree s root place
    → next_table s root i₁ flags ≡ some a
    → next_table a.1 a.0 i₂ flags ≡ some b
    → next_table b.1 b.0 i₃ flags ≡ some c
    → Way s c.1 root i₁ i₂ i₃ c.0 flags
down {root} {a} {b} {c} i₁ i₂ i₃ flags tree e₁ e₂ e₃ =
    let n₁ = next_table-Next i₁ flags tree tree.top (omega arith) e₁ in
    let n₂ = next_table-Next i₂ flags n₁.tree n₁.placed (omega arith) e₂ in
    let n₃ = next_table-Next i₃ flags n₂.tree n₂.placed (omega arith) e₃ in
    let s₂ = n₂.stays root i₁ [] n₁.tree.top n₁.leads.0 in
    let s₃ = n₃.stays root i₁ [] n₂.tree.top (rw s₂ n₁.leads.0) in
    let s₄ = n₃.stays a.0 i₂ (i₁ ∷ []) (n₂.keeps a.0 (i₁ ∷ []) n₁.placed) n₂.leads.0 in
    record {
      place' = n₃.place';
      tree = n₃.tree;
      placed = n₃.placed;
      t₁ = a.0;
      t₂ = b.0;
      placed₁ = n₃.keeps a.0 (i₁ ∷ []) (n₂.keeps a.0 (i₁ ∷ []) n₁.placed);
      placed₂ = n₃.keeps b.0 (i₂ ∷ i₁ ∷ []) n₂.placed;
      leads₁ = rw (s₃, s₂) n₁.leads;
      leads₂ = rw s₄ n₂.leads;
      leads₃ = n₃.leads;
      walks = λ is e.
          n₃.walks is root [] n₂.tree.top (omega arith)
          ∙ n₂.walks is root [] n₁.tree.top (omega arith)
          ∙ n₁.walks is root [] tree.top (omega arith);
      allowed = λ right is gives e.
          n₃.allowed right is root [] gives n₂.tree.top (omega arith)
          ∙ n₂.allowed right is root [] gives n₁.tree.top (omega arith)
          ∙ n₁.allowed right is root [] gives tree.top (omega arith);
    }

and_assoc : (a b c d : Bool) → (a && (b && (c && d))) ≡ ((a && (b && (c && true))) && d)
and_assoc false b c d = refl
and_assoc true false c d = refl
and_assoc true true false d = refl
and_assoc true true true d = refl

Way-IsMapped :
    {s s' : Tables} {root i₁ i₂ i₃ f : ℕ} (i paddr flags : ℕ)
    → Way s s' root i₁ i₂ i₃ f flags
    → IsMappedWith paddr
        (allows writes s' root (i₁ ∷ i₂ ∷ i₃ ∷ i ∷ []))
        (allows serves_user s' root (i₁ ∷ i₂ ∷ i₃ ∷ i ∷ []) && for_user flags)
        (walk (set_leaf s' f i paddr flags) root (i₁ ∷ i₂ ∷ i₃ ∷ i ∷ []))
Way-IsMapped {s'} {root} {i₁} {i₂} {i₃} {f} i paddr flags w =
    let r₁ = set_leaf-same i paddr flags w.tree w.placed refl root i₁ (λ e. ground arith) in
    let r₂ = set_leaf-same i paddr flags w.tree w.placed refl w.t₁ i₂ (λ e. ground arith) in
    let r₃ = set_leaf-same i paddr flags w.tree w.placed refl w.t₂ i₃ (λ e. ground arith) in
    let leaf = set_leaf-here i paddr flags w.tree w.placed refl in
    let found = restrict-IsMappedWith paddr _ _ (s'.entry root i₁) _ (
      restrict-IsMappedWith paddr _ _ (s'.entry w.t₁ i₂) _
        (restrict-IsMappedWith paddr _ _ (s'.entry w.t₂ i₃) _ leaf)) in
    rw (r₁, w.leads₁.0, w.leads₁.1, r₂, w.leads₂.0, w.leads₂.1, r₃, w.leads₃.0, w.leads₃.1)
      (subst
        (λ b.
          IsMappedWith paddr
            ((s'.entry root i₁).rw && ((s'.entry w.t₁ i₂).rw && ((s'.entry w.t₂ i₃).rw && true))) b
            (restrict (s'.entry root i₁) (
              restrict (s'.entry w.t₁ i₂)
                (restrict (s'.entry w.t₂ i₃) (walk (set_leaf s' f i paddr flags) f (i ∷ []))))))
        (and_assoc (s'.entry root i₁).us (s'.entry w.t₁ i₂).us (s'.entry w.t₂ i₃).us
          (for_user flags))
        found)

-- The rights on the way are those of the tables that were there.
Way-rights :
    {s s' : Tables} {root i₁ i₂ i₃ f : ℕ} (flags : ℕ) (is : List ℕ)
    → Way s s' root i₁ i₂ i₃ f flags
    → length is ≡ 4
    → (allows writes s' root is ≡ allows writes s root is)
      × ((allows serves_user s' root is && for_user flags)
          ≡ (allows serves_user s root is && for_user flags))
Way-rights {s} {s'} {root} flags is w four = elim (Bool-cases (for_user flags)) [
  | inl user ↦ (
    w.allowed writes is (λ e k. refl) four,
    ap (λ b. b && for_user flags) (w.allowed serves_user is (λ e k. user) four),
  )
  | inr kernel ↦ (w.allowed writes is (λ e k. refl) four, ground arith)
]

-- The way that `map_page` makes, and what it writes then.
map_page-Way :
    {s s' : Tables} {place : ℕ → Option (List ℕ)} (root va paddr flags : ℕ)
    → IsTree s root place
    → map_page s root va paddr flags ≡ some s'
    → (t : Tables) × (f : ℕ) × Way s t root
        (va >>> 39 % 512)
        (va >>> 30 % 512)
        (va >>> 21 % 512)
        f
        flags
      × (set_leaf t f (va >>> 12 % 512) paddr flags ≡ s')
unfolding map_page
map_page-Way {s} {s'} root va paddr flags tree h =
    let (a, e₁, h₁) = >>=-eq-some (next_table s root (va >>> 39 % 512) flags) _ h in
    let (b, e₂, h₂) = >>=-eq-some (next_table a.1 a.0 (va >>> 30 % 512) flags) _ h₁ in
    let (c, e₃, h₃) = >>=-eq-some (next_table b.1 b.0 (va >>> 21 % 512) flags) _ h₂ in
    let w = down (va >>> 39 % 512) (va >>> 30 % 512) (va >>> 21 % 512) flags tree e₁ e₂ e₃ in
    (c.1, c.0, w, ground arith)

-- Let the tables below `root` form a tree. If `map_page` does not halt for want of memory, they
-- form a tree again; the page of `va` translates to the frame of `paddr`, writable exactly if the upper
-- entries that were present on its way are, and for user code exactly if the flags say so and
-- those entries do; and every address in another page translates as before, with the same rights.
pub map_page_lem :
    {s s' : Tables} {place : ℕ → Option (List ℕ)} (root va paddr flags : ℕ)
    → IsTree s root place
    → map_page s root va paddr flags ≡ some s'
    → (place' : ℕ → Option (List ℕ)) × IsTree s' root place'
      × IsMappedWith paddr
          (allows writes s root (indices va))
          (allows serves_user s root (indices va) && for_user flags)
          (translate s' root va)
      × ((w : ℕ) → indices w ≢ indices va → translate s' root w ≡ translate s root w)
map_page_lem {s} {s'} root va paddr flags tree h =
    let (t, f, w, same) = map_page-Way root va paddr flags tree h in
    let (writable, user) = Way-rights flags (indices va) w refl in
    rw (← same) (
      w.place',
      set_leaf-IsTree (va >>> 12 % 512) paddr flags w.tree w.placed refl,
      subst
          (λ b.
            IsMappedWith paddr b (allows serves_user s root (indices va) && for_user flags)
              (translate (set_leaf t f (va >>> 12 % 512) paddr flags) root va))
          writable
          (subst
            (λ b.
              IsMappedWith paddr (allows writes t root (indices va)) b
                (translate (set_leaf t f (va >>> 12 % 512) paddr flags) root va))
            user (Way-IsMapped (va >>> 12 % 512) paddr flags w)),
      λ x ne.
          set_leaf-other (va >>> 12 % 512) paddr flags w.tree w.placed refl (indices x) root []
            w.tree.top (omega arith) ne
          ∙ w.walks (indices x) (omega arith),
    )

-- Where the tables on the way of a page serve user code and can be written, so does the page.
pub map_page-user :
    {s s' : Tables} {place : ℕ → Option (List ℕ)} (root va paddr flags : ℕ)
    → IsTree s root place
    → map_page s root va paddr flags ≡ some s'
    → allows both s root (indices va) ≡ true
    → IsMapped paddr flags (translate s' root va)
map_page-user {s} {s'} root va paddr flags tree h opens =
    let (writable, user) = allows-both s (indices va) root opens in
    let (_, _, is, _) = map_page_lem root va paddr flags tree h in
    subst (λ b. IsMappedWith paddr b (for_user flags) (translate s' root va)) writable
      (subst
        (λ b.
          IsMappedWith paddr (allows writes s root (indices va)) (b && for_user flags)
            (translate s' root va))
        user is)

-- A page for user code leaves the rights of every way as they are.
pub map_page-allows :
    {s s' : Tables} {place : ℕ → Option (List ℕ)} (root va paddr flags x : ℕ)
    → IsTree s root place
    → map_page s root va paddr flags ≡ some s'
    → for_user flags ≡ true
    → allows both s' root (indices x) ≡ allows both s root (indices x)
map_page-allows {s} {s'} root va paddr flags x tree h user =
    let (t, f, w, same) = map_page-Way root va paddr flags tree h in
    rw (← same) (
      set_leaf-allows (va >>> 12 % 512) paddr flags w.tree w.placed refl both (indices x) root []
        w.tree.top (omega arith)
      ∙ w.allowed both (indices x) (λ e k. user) refl)
