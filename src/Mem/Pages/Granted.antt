-- ===== src/Mem/Pages/Granted.antt =====
-- Pages that are mapped one after the other.
use hvos.Common.{
  true, ℕ, zero, suc, ◌*◌, ◌≤◌, ◌<◌, ◌≡◌, refl, sym, ap, subst, ◌∙◌, ◌≢◌, inl, inr, false, Option,
  List, arith, Bool-cases,
}
use hvos.Mem.Pmm.Alloc.{used}
use hvos.Mem.Paging.{Tables, indices}
use hvos.Mem.Paging.Walk.{translate, allows, both, IsTree}
use hvos.Mem.Paging.Map.{IsMapped}
use hvos.Mem.Pages.{page_size, user_flags}
use hvos.Mem.Pages.Frames.{Later, Later-refl, Later-trans, Mapped}

-- The tables that are there on the way of the pages can be written and serve user code.
abbrev pub IsOpen : Tables → ℕ → (ℕ → ℕ) → ℕ → Type 0
IsOpen s root at n = (k : ℕ) → k < n → allows both s root (indices (at k)) ≡ true

pub IsOpen-later :
    (s t : Tables) (root n : ℕ) (at : ℕ → ℕ)
    → IsOpen s root at (suc n)
    → ((w : ℕ) → allows both t root (indices w) ≡ allows both s root (indices w))
    → IsOpen t root (λ k. at (suc k)) n
IsOpen-later s t root n at opens rights k lt = rights (at (suc k)) ∙ opens (suc k) (omega arith)

-- `n` pages, the `k`-th at the address `at k`, are mapped to frames that were free, each to its own.
pub record Granted (s t : Tables) (root : ℕ) (at : ℕ → ℕ) (n : ℕ) : Type 0 where
  pub frame : ℕ → ℕ
  pub place' : ℕ → Option (List ℕ)
  pub tree : IsTree t root place'
  pub later : Later s.pmm t.pmm
  pub was_free : (k : ℕ) → k < n → used s.pmm (frame k) ≡ false
  pub now_used : (k : ℕ) → k < n → used t.pmm (frame k) ≡ true
  pub in_range : (k : ℕ) → k < n → (1 ≤ frame k) × (frame k < s.pmm.total_pages)
  pub apart : (j k : ℕ) → j < k → k < n → frame j ≢ frame k
  pub translates :
      (k : ℕ) → k < n → IsMapped (frame k * page_size) user_flags (translate t root (at k))
  pub others :
      (w : ℕ)
      → ((k : ℕ) → k < n → indices w ≢ indices (at k))
      → translate t root w ≡ translate s root w
  pub rights : (w : ℕ) → allows both t root (indices w) ≡ allows both s root (indices w)

-- The frame of the first page, and those of the others.
abbrev first_then : ℕ → (ℕ → ℕ) → ℕ → ℕ
first_then f g zero = f
first_then f g (suc k) = g k

pub Granted-none :
    {s : Tables} {root : ℕ} {at : ℕ → ℕ} {place : ℕ → Option (List ℕ)}
    → IsTree s root place
    → Granted s s root at 0
Granted-none {s} {root} {at} {place} tree = record {
  frame = λ k. 0;
  place' = place;
  tree = tree;
  later = Later-refl tree.valid;
  was_free = λ k h. absurd (omega arith);
  now_used = λ k h. absurd (omega arith);
  in_range = λ k h. absurd (omega arith);
  apart = λ j k h h'. absurd (omega arith);
  translates = λ k h. absurd (omega arith);
  others = λ w h. refl;
  rights = λ w. refl;
}

-- One page and the pages behind it.
pub Granted-cons :
    {s u t : Tables} {root n : ℕ} {at : ℕ → ℕ}
    → ((k : ℕ) → k < n → indices (at 0) ≢ indices (at (suc k)))
    → Mapped s u root (at 0)
    → Granted u t root (λ k. at (suc k)) n
    → Granted s t root at (suc n)
Granted-cons {s} {u} {t} {root} {n} {at} differ m g = record {
  frame = first_then m.frame g.frame;
  place' = g.place';
  tree = g.tree;
  later = Later-trans m.later g.later;
  was_free = free;
  now_used = in_use;
  in_range = ranges;
  apart = distinct;
  translates = maps;
  others = λ w h. g.others w (λ k lt. h (suc k) (omega arith)) ∙ m.others w (h 0 (omega arith));
  rights = λ w. g.rights w ∙ m.rights w;
}
  where
    frames : ℕ → ℕ
    frames = first_then m.frame g.frame

    free : (k : ℕ) → k < suc n → used s.pmm (frames k) ≡ false
    free zero h = m.was_free
    free (suc k) h = elim (Bool-cases (used s.pmm (g.frame k))) [
      | inr no_use ↦ no_use
      | inl in_use ↦ absurd (
          ground (
            arith,
            m.later.still (g.frame k)
                (omega (arith, (g.in_range k (omega arith)).1, m.later.same_total)) in_use,
            g.was_free k (omega arith),
          ))
    ]

    in_use : (k : ℕ) → k < suc n → used t.pmm (frames k) ≡ true
    in_use zero h = g.later.still m.frame (omega (arith, m.in_range, m.later.same_total)) m.now_used
    in_use (suc k) h = g.now_used k (omega arith)

    ranges : (k : ℕ) → k < suc n → (1 ≤ frames k) × (frames k < s.pmm.total_pages)
    ranges zero h = m.in_range
    ranges (suc k) h =
        let (lo, hi) = g.in_range k (omega arith) in (lo, omega (arith, hi, m.later.same_total))

    distinct : (j k : ℕ) → j < k → k < suc n → frames j ≢ frames k
    distinct j zero h h' = absurd (omega arith)
    distinct zero (suc k) h h' =
        λ e. absurd (ground (arith, ap (used u.pmm) e, m.now_used, g.was_free k (omega arith)))
    distinct (suc j) (suc k) h h' = g.apart j k (omega arith) (omega arith)

    maps :
        (k : ℕ) → k < suc n → IsMapped (frames k * page_size) user_flags (translate t root (at k))
    maps zero h =
        subst (λ e. IsMapped (m.frame * page_size) user_flags e) (sym (g.others (at 0) differ))
          m.translates
    maps (suc k) h = g.translates k (omega arith)
