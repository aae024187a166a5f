-- ===== src/Elf/Start/Stack.antt =====
-- The pages of the user's stack.
use hvos.Common.{
  ℕ, zero, suc, ◌+◌, ◌-◌, ◌*◌, ◌^◌, ◌≤◌, ◌≡◌, sym, subst, ◌≢◌, inl, inr, true, Option, some, List,
  arith, Bool-cases,
}
use mathlib.Core.Path.{fun_ext}
use hvos.Mem.Paging.{Tables, indices}
use hvos.Mem.Paging.Walk.{allows, both, IsTree}
use hvos.Mem.Paging.Map.{>>=-eq-some}
use hvos.Mem.Pages.{page_size, map_fresh}
use hvos.Mem.Pages.Granted.{IsOpen, IsOpen-later, Granted, Granted-none, Granted-cons}
use hvos.Mem.Pages.Grant.{indices_page}
use hvos.Mem.Pages.Frames.{Mapped, map_fresh_lem}
use hvos.Proc.{usr_stack_base}
use hvos.Elf.Start.{user_stack}

-- The page of round `i + k`.
abbrev pub stack_page : ℕ → ℕ → ℕ
stack_page i k = usr_stack_base - (i + k) * page_size

stack_page_ne :
    (i k : ℕ) → i + suc k ≤ 2 ^ 34 → indices (stack_page i 0) ≢ indices (stack_page i (suc k))
stack_page_ne i k room e = absurd (
    omega
      (arith, indices_page (stack_page i 0) (stack_page i (suc k)) (omega arith) (omega arith) e))

pub user_stack_lem :
    (n i : ℕ) {s t : Tables} {root : ℕ} {place : ℕ → Option (List ℕ)}
    → IsTree s root place
    → i + n ≤ 2 ^ 34
    → IsOpen s root (stack_page i) n
    → user_stack n root i s ≡ some (true, t)
    → Granted s t root (stack_page i) n
unfolding user_stack
user_stack_lem zero i {s} {t} {root} tree room opens h =
    let same : s ≡ t = ground arith in
    subst (λ u. Granted s u root (stack_page i) 0) same (Granted-none tree)
user_stack_lem (suc n) i {s} {t} {root} tree room opens h =
    let (r, e, rest) = >>=-eq-some (map_fresh s root (usr_stack_base - i * page_size)) _ h in
    elim (Bool-cases r.0) [
      | inr none_ ↦ absurd (ground arith)
      | inl got ↦
          let first : map_fresh s root (usr_stack_base - i * page_size) ≡ some (true, r.1) =
            ground arith in
          let at_first : stack_page i 0 ≡ usr_stack_base - i * page_size = omega arith in
          let m =
            map_fresh_lem (usr_stack_base - i * page_size) tree first (
              subst (λ a. allows both s root (indices a) ≡ true) at_first
                (opens 0 (omega arith))) in
          let more : user_stack n root (suc i) r.1 ≡ some (true, t) = rw got at rest in
          let here : stack_page i 0 ≡ usr_stack_base - i * page_size = omega arith in
          let behind : stack_page (suc i) ≡ (λ k. stack_page i (suc k)) =
            fun_ext (λ k. omega arith) in
          Granted-cons {at = stack_page i} (λ k lt. stack_page_ne i k (omega arith))
            (subst (Mapped s r.1 root) (sym here) m)
            (subst (λ at. Granted r.1 t root at n) behind
              (user_stack_lem n (suc i) m.tree (omega arith)
                (subst (λ at. IsOpen r.1 root at n) (sym behind)
                  (IsOpen-later s r.1 root n (stack_page i) opens m.rights))
                more))
    ]
