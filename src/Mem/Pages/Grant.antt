-- ===== src/Mem/Pages/Grant.antt =====
-- The pages that `sys_alloc_pages` grants to a process.
use hvos.Common.{
  ℕ, zero, suc, ◌+◌, ◌*◌, ◌/◌, ◌%◌, ◌^◌, ◌≤◌, ◌<◌, ◌≡◌, sym, subst, ◌≢◌, inl, inr, true, Option,
  some, List, arith, ◌==◌, Bool-cases, ◌>>>◌,
}
use hvos.Mem.Paging.{Tables, indices}
use hvos.Mem.Paging.Walk.{allows, both, IsTree}
use hvos.Mem.Paging.Map.{>>=-eq-some}
use hvos.Mem.Pages.{page_size, map_fresh, map_pages, sys_alloc_pages}
use hvos.Mem.Pages.Granted.{IsOpen, IsOpen-later, Granted, Granted-none, Granted-cons}
use mathlib.Core.Path.{fun_ext}
use hvos.Mem.Pages.Frames.{Mapped, map_fresh_lem}

digits :
    (a b : ℕ)
    → a < 2 ^ 48
    → b < 2 ^ 48
    → a >>> 39 % 512 ≡ b >>> 39 % 512
    → a >>> 30 % 512 ≡ b >>> 30 % 512
    → a >>> 21 % 512 ≡ b >>> 21 % 512
    → a >>> 12 % 512 ≡ b >>> 12 % 512
    → a / page_size ≡ b / page_size
digits a b ha hb e1 e2 e3 e4 = omega arith

pub indices_page :
    (a b : ℕ) → a < 2 ^ 48 → b < 2 ^ 48 → indices a ≡ indices b → a / page_size ≡ b / page_size
indices_page a b ha hb e =
    let e1 : a >>> 39 % 512 ≡ b >>> 39 % 512 = ground arith in
    let e2 : a >>> 30 % 512 ≡ b >>> 30 % 512 = ground arith in
    let e3 : a >>> 21 % 512 ≡ b >>> 21 % 512 = ground arith in
    let e4 : a >>> 12 % 512 ≡ b >>> 12 % 512 = ground arith in digits a b ha hb e1 e2 e3 e4

abbrev pub stretch : ℕ → ℕ → ℕ
stretch va k = va + k * page_size

-- Pages of one stretch below 2 ^ 48 have different indices.
stretch_ne :
    (va j k : ℕ)
    → va + j * page_size < 2 ^ 48
    → va + k * page_size < 2 ^ 48
    → j ≢ k
    → indices (va + j * page_size) ≢ indices (va + k * page_size)
stretch_ne va j k h h' ne e =
    ne (omega (arith, indices_page (va + j * page_size) (va + k * page_size) h h' e))

map_pages_lem :
    (n : ℕ) {s t : Tables} {root : ℕ} {place : ℕ → Option (List ℕ)} (va : ℕ)
    → IsTree s root place
    → va + n * page_size ≤ 2 ^ 48
    → IsOpen s root (stretch va) n
    → map_pages n root va s ≡ some (true, t)
    → Granted s t root (stretch va) n
unfolding map_pages
map_pages_lem zero {s} {t} {root} va tree room opens h =
    let same : s ≡ t = ground arith in
    subst (λ u. Granted s u root (stretch va) 0) same (Granted-none tree)
map_pages_lem (suc n) {s} {t} {root} va tree room opens h =
    let (r, e, rest) = >>=-eq-some (map_fresh s root va) _ h in
    elim (Bool-cases r.0) [
      | inr none_ ↦ absurd (ground arith)
      | inl got ↦
          let first : map_fresh s root va ≡ some (true, r.1) = ground arith in
          let at_first : va + 0 * page_size ≡ va = omega arith in
          let m =
            map_fresh_lem va tree first (
              subst (λ a. allows both s root (indices a) ≡ true) at_first
                (opens 0 (omega arith))) in
          let more : map_pages n root (va + page_size) r.1 ≡ some (true, t) = rw got at rest in
          let here : stretch va 0 ≡ va = omega arith in
          let behind : stretch (va + page_size) ≡ (λ k. stretch va (suc k)) =
            fun_ext (λ k. omega arith) in
          Granted-cons {at = stretch va}
            (λ k lt. stretch_ne va 0 (suc k) (omega arith) (omega arith) (λ z. omega (arith, z)))
            (subst (Mapped s r.1 root) (sym here) m)
            (subst (λ at. Granted r.1 t root at n) behind
              (map_pages_lem n (va + page_size) m.tree (omega arith)
                (subst (λ at. IsOpen r.1 root at n) (sym behind)
                  (IsOpen-later s r.1 root n (stretch va) opens m.rights))
                more))
    ]

-- Let the tables below a process's `cr3` form a tree, those that are there on the way of the pages
-- asked for be writable and for user code, and these pages lie below 2 ^ 48 and be fewer than 2 ^
-- 20. If `sys_alloc_pages` returns an address, not NULL, it is the old end of the heap, and the end
-- moves by that many pages. Each of these pages is then mapped for user code, writable, to a frame
-- of its own that was free before and is in use now, so no two of them share one and none is shared
-- with anything that was in use; the tables form a tree again, and every other address translates
-- as before.
pub sys_alloc_pages_lem :
    {s t : Tables} {root : ℕ} {place : ℕ → Option (List ℕ)} (heap_end pages addr heap_end' : ℕ)
    → IsTree s root place
    → pages < 2 ^ 20
    → heap_end + pages * page_size ≤ 2 ^ 48
    → IsOpen s root (stretch heap_end) pages
    → sys_alloc_pages s root heap_end pages ≡ some (addr, heap_end', t)
    → addr ≢ 0
    → (addr ≡ heap_end)
      × (heap_end' ≡ heap_end + pages * page_size)
      × Granted s t root (stretch heap_end) pages
unfolding sys_alloc_pages
sys_alloc_pages_lem {s} {t} {root} heap_end pages addr heap_end' tree few room opens h ne =
    elim (Bool-cases (pages == 0)) [
      | inl zero_ ↦ absurd (ne (ground arith))
      | inr some_ ↦
          let bound = rw some_ at h in
          let (r, e, rest) = >>=-eq-some (map_pages pages root heap_end s) _ bound in
          elim (Bool-cases r.0) [
            | inr failed ↦ absurd (ne (ground arith))
            | inl got ↦
                let got_all : map_pages pages root heap_end s ≡ some (true, r.1) = ground arith in
                let last : r.1 ≡ t = ground arith in
                (
                  ground arith,
                  ground arith,
                  subst (λ u. Granted s u root (stretch heap_end) pages) last
                      (map_pages_lem pages heap_end tree room opens got_all),
                )
          ]
    ]
