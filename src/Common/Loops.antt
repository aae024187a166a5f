-- ===== src/Common/Loops.antt =====
-- A counting loop, `for (k = first; k < first + n; k++)`, as a function on the state of its body.
use Prim.Native.Nat.{ℕ, zero, suc, ◌+◌, ◌≤◌, ◌<◌}
use mathlib.Core.Path.{◌≡◌, subst}
use native.Mathlib.Omega.{arith}

module _ {ℓ} {S : Type ℓ} where
  unfoldable pub each_from : ℕ → ℕ → (ℕ → S → S) → S → S
  each_from zero first round s = s
  each_from (suc n) first round s = each_from n (suc first) round (round first s)

  -- What the rounds keep, from one index to the next, holds after the last of them if it did
  -- before the first.
  pub each_from-keeps {κ} :
      (P : ℕ → S → Type κ) (round : ℕ → S → S) (n first last : ℕ) (s : S)
      → first + n ≡ last
      → ((k : ℕ) (t : S) → first ≤ k → k < last → P k t → P (k + 1) (round k t))
      → P first s
      → P last (each_from n first round s)
  unfolding each_from
  each_from-keeps P round zero first last s e step now = subst (λ k. P k s) (omega arith) now
  each_from-keeps P round (suc n) first last s e step now =
      let after = step first s (omega arith) (omega arith) now in
      each_from-keeps P round n (suc first) last (round first s) (omega arith)
        (λ k t lo. step k t (omega arith)) (subst (λ k. P k (round first s)) (omega arith) after)
