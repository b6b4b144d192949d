-- ===== src/Base/Iterate.antt =====
-- Loops as a step that is repeated, with fuel, and the rule that proves them right and ending.
use Prim.Native.Nat.{ℕ, zero, suc, ◌<◌}
use mathlib.Core.Path.{◌≡◌, refl, sym, ◌∙◌, subst}
use mathlib.Core.Logic.{◌⊎◌, inl, inr}
use mathlib.Core.Option.{Option, none, some}
use native.Mathlib.Omega.{arith}

pub data Step {ℓ κ} (S : Type ℓ) (R : Type κ) : Type (ℓ ⊔ κ) where
  again : S → Step S R
  finish : R → Step S R

module _ {ℓ κ} {S : Type ℓ} {R : Type κ} (step : S → Step S R) where
  -- `none`: the loop is still running.
  unfoldable pub iterate : ℕ → S → Option R
  iterate zero s = none
  iterate (suc fuel) s = elim (step s) [ again t ↦ iterate fuel t | finish r ↦ some r ]

  -- Each round keeps the invariant and lowers the measure, or ends with a right result.
  pub iterate_total {μ ν} :
      (Inv : S → Type μ) (measure : S → ℕ) (Post : R → Type ν)
      → ((s : S)
          → Inv s
          → ((t : S) × (step s ≡ again t) × Inv t × (measure t < measure s))
            ⊎ ((r : R) × (step s ≡ finish r) × Post r))
      → (fuel : ℕ) (s : S) → measure s < fuel
      → Inv s
      → (r : R) × (iterate fuel s ≡ some r) × Post r
  unfolding iterate
  iterate_total Inv measure Post round zero s h inv = absurd (omega arith)
  iterate_total Inv measure Post round (suc fuel) s h inv = elim (round s inv) [
    | inl (t, e, kept, less) ↦
        let (r, ran, right) = iterate_total Inv measure Post round fuel t (omega arith) kept in
        (r, rw (iterate, e) ran, right)
    | inr (r, e, right) ↦ (r, rw (iterate, e) refl, right)
  ]

  -- Whatever the loop ends with is right, where each round keeps the invariant or ends rightly.
  pub iterate_sound {μ ν} :
      (Inv : S → Type μ) (Post : R → Type ν)
      → ((s : S)
          → Inv s
          → ((t : S) × (step s ≡ again t) × Inv t) ⊎ ((r : R) × (step s ≡ finish r) × Post r))
      → (fuel : ℕ) (s : S) → Inv s
      → {r : R} → iterate fuel s ≡ some r
      → Post r
  unfolding iterate
  iterate_sound Inv Post round zero s inv e = absurd (cc e)
  iterate_sound Inv Post round (suc fuel) s inv {r} e = elim (round s inv) [
    | inl (t, stepped, kept) ↦
        iterate_sound Inv Post round fuel t kept (sym (rw (iterate, stepped) refl) ∙ e)
    | inr (r', stepped, right) ↦
        subst Post (some_injective (sym (rw (iterate, stepped) refl) ∙ e)) right
  ]
    where
      some_injective : {a b : R} → some a ≡ some b → a ≡ b
      some_injective h = cc
