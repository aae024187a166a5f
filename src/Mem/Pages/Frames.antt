-- ===== src/Mem/Pages/Frames.antt =====
-- A frame in use stays in use while pages are mapped, so each new page has a frame of its own.
use hvos.Common.{
  ℕ, ◌*◌, ◌%◌, ◌≤◌, ◌<◌, ◌≡◌, refl, sym, ap, subst, ◌∙◌, ◌≢◌, ◌⊎◌, inl, inr, true, false, Option,
  some, List, arith, ◌==◌, Bool-cases, ==_refl, ◌>>>◌,
}
use hvos.Mem.Pmm.{Pmm, pmm_alloc}
use hvos.Mem.Pmm.Alloc.{IsValid, used, pmm_alloc_lem, pmm_alloc-IsValid}
use hvos.Mem.Paging.{
  Tables, map_page, next_table, alloc_page_table, zero_table, set_entry, set_leaf, ◌>>=◌, indices,
}
use hvos.Mem.Paging.Walk.{translate, allows, both, IsTree}
use hvos.Mem.Paging.Map.{IsMapped, map_page_lem, map_page-user, map_page-allows, >>=-eq-some}
use hvos.Mem.Pages.{page_size, user_flags, map_frame, map_fresh}

-- An allocator later on: what was in use still is.
pub record Later (p p' : Pmm) : Type 0 where
  pub valid : IsValid p'
  pub same_total : p'.total_pages ≡ p.total_pages
  pub still : (q : ℕ) → q < p.total_pages → used p q ≡ true → used p' q ≡ true

pub Later-refl : {p : Pmm} → IsValid p → Later p p
Later-refl v = record { valid = v; same_total = refl; still = λ q h u. u }

pub Later-trans : {p q r : Pmm} → Later p q → Later q r → Later p r
Later-trans a b = record {
  valid = b.valid;
  same_total = b.same_total ∙ a.same_total;
  still = λ q h u. b.still q (omega (arith, a.same_total)) (a.still q h u);
}

pub pmm_alloc-Later : (p : Pmm) → IsValid p → Later p (pmm_alloc p).1
pmm_alloc-Later p v = elim (pmm_alloc_lem p v) [
  | inl (n, takes) ↦ record {
    valid = pmm_alloc-IsValid p v;
    same_total = takes.same_total;
    still = λ q h u. takes.marks q (omega (arith, v.covers)) ∙ ground arith;
  }
  | inr (full, e) ↦ subst (λ r. Later p r.1) (sym e) (Later-refl v)
]

next_table-pmm :
    (s s' : Tables) (t i flags a : ℕ)
    → next_table s t i flags ≡ some (a, s')
    → (s'.pmm ≡ s.pmm) ⊎ (s'.pmm ≡ (pmm_alloc s.pmm).1)
unfolding next_table alloc_page_table zero_table set_entry
next_table-pmm s s' t i flags a e = ground arith

next_table-Later :
    (s s' : Tables) (t i flags a : ℕ)
    → IsValid s.pmm
    → next_table s t i flags ≡ some (a, s')
    → Later s.pmm s'.pmm
next_table-Later s s' t i flags a v e = elim (next_table-pmm s s' t i flags a e) [
  | inl same ↦ subst (Later s.pmm) (sym same) (Later-refl v)
  | inr more ↦ subst (Later s.pmm) (sym more) (pmm_alloc-Later s.pmm v)
]

pub map_page-Later :
    (s s' : Tables) (root va paddr flags : ℕ)
    → IsValid s.pmm
    → map_page s root va paddr flags ≡ some s'
    → Later s.pmm s'.pmm
unfolding map_page set_leaf set_entry
map_page-Later s s' root va paddr flags v h =
    let (a, e₁, h₁) = >>=-eq-some (next_table s root (va >>> 39 % 512) flags) _ h in
    let (b, e₂, h₂) = >>=-eq-some (next_table a.1 a.0 (va >>> 30 % 512) flags) _ h₁ in
    let (c, e₃, h₃) = >>=-eq-some (next_table b.1 b.0 (va >>> 21 % 512) flags) _ h₂ in
    let la = next_table-Later s a.1 root (va >>> 39 % 512) flags a.0 v e₁ in
    let lb = next_table-Later a.1 b.1 a.0 (va >>> 30 % 512) flags b.0 la.valid e₂ in
    let lc = next_table-Later b.1 c.1 b.0 (va >>> 21 % 512) flags c.0 lb.valid e₃ in
    let same : c.1.pmm ≡ s'.pmm = ground arith in
    subst (Later s.pmm) same (Later-trans la (Later-trans lb lc))

-- Frames are taken without a change to the tables.
taken-IsTree :
    {s : Tables} {root : ℕ} {place : ℕ → Option (List ℕ)} (p : Pmm)
    → IsTree s root place
    → Later s.pmm p
    → IsTree (record s { pmm = p }) root place
taken-IsTree p tree later = record {
  top = tree.top;
  valid = later.valid;
  small = omega (arith, tree.small, later.same_total);
  held = λ t q at.
      let (in_range, u) = tree.held t q at in
      (omega (arith, in_range, later.same_total), later.still t in_range u);
  child = tree.child;
}

-- What a page that was mapped has: a frame that was free.
pub record Mapped (s t : Tables) (root va : ℕ) : Type 0 where
  pub frame : ℕ
  pub place' : ℕ → Option (List ℕ)
  pub address : (pmm_alloc s.pmm).0 ≡ frame * page_size
  pub tree : IsTree t root place'
  pub was_free : used s.pmm frame ≡ false
  pub in_range : (1 ≤ frame) × (frame < s.pmm.total_pages)
  pub now_used : used t.pmm frame ≡ true
  pub later : Later s.pmm t.pmm
  pub translates : IsMapped (frame * page_size) user_flags (translate t root va)
  pub others : (w : ℕ) → indices w ≢ indices va → translate t root w ≡ translate s root w
  pub rights : (w : ℕ) → allows both t root (indices w) ≡ allows both s root (indices w)

map_frame-some :
    (root va phys : ℕ) (s t : Tables)
    → map_frame root va (phys, s) ≡ some (true, t)
    → map_page s root va phys user_flags ≡ some t
unfolding map_frame
map_frame-some root va phys s t h = elim (Bool-cases (phys == 0)) [
  | inl null ↦ absurd (ground arith)
  | inr there ↦
      let bound : (map_page s root va phys user_flags >>= λ u. some (true, u)) ≡ some (true, t) =
        rw there at h in
      let (u, e, same) =
        >>=-eq-some (map_page s root va phys user_flags) (λ u. some (true, u)) bound in
      let last : u ≡ t = ground arith in e ∙ ap some last
]

pub map_fresh_lem :
    {s t : Tables} {root : ℕ} {place : ℕ → Option (List ℕ)} (va : ℕ)
    → IsTree s root place
    → map_fresh s root va ≡ some (true, t)
    → allows both s root (indices va) ≡ true
    → Mapped s t root va
unfolding map_fresh map_frame
map_fresh_lem {s} {t} {root} {place} va tree h opens = elim (pmm_alloc_lem s.pmm tree.valid) [
  | inr (full, e) ↦ absurd (ground (arith, e))
  | inl (k, takes) ↦
      let pmm = (pmm_alloc s.pmm).1 in
      let s1 : Tables = record s { pmm = pmm } in
      let later = pmm_alloc-Later s.pmm tree.valid in
      let tree1 = taken-IsTree pmm tree later in
      let maps : map_page s1 root va (k * page_size) user_flags ≡ some t =
        subst (λ a. map_page s1 root va a user_flags ≡ some t) takes.address
          (map_frame-some root va (pmm_alloc s.pmm).0 s1 t h) in
      let (place', tree', _, others) = map_page_lem root va (k * page_size) user_flags tree1 maps in
      let later' = map_page-Later s1 t root va (k * page_size) user_flags later.valid maps in
      record {
        frame = k;
        place' = place';
        address = takes.address;
        tree = tree';
        was_free = takes.was_free;
        in_range = takes.in_range;
        now_used = later'.still k (omega (arith, takes.in_range, later.same_total)) (
            takes.marks k (omega (arith, takes.in_range, tree.valid.covers)) ∙ rw (==_refl k) refl);
        later = Later-trans later later';
        translates = map_page-user root va (k * page_size) user_flags tree1 maps opens;
        others = others;
        rights = λ w. map_page-allows root va (k * page_size) user_flags w tree1 maps refl;
      }
]
