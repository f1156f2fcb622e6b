-- ===== src/Signals/Divergence/Apart.antt =====
-- The turning points that live_trading/signals/divergence_engine.py compares.
use scalping.Prelude.{
  ℕ, zero, suc, ◌+◌, ◌-◌, ◌≤◌, ◌<◌, ◌≡◌, Bool, false, not, ◌&&◌, Option, none, some, List, [], ◌∷◌,
  length, ltb, arith, Bool-cases, inl, inr,
}
use scalping.Float.{Float}
use scalping.Signals.Smc.{get_elem?}
use scalping.Signals.Divergence.{holds_of, is_pivot, pivots_from, pivots}

-- Each index is below the end, and `gap` past the one before it at least.
abbrev pub Apart : (gap end : ℕ) → (last : Option ℕ) → List ℕ → Type 0
Apart gap end last [] = Unit
Apart gap end none (p ∷ ps) = (p < end) × Apart gap end (some p) ps
Apart gap end (some q) (p ∷ ps) = (q + gap ≤ p) × (p < end) × Apart gap end (some p) ps

-- The last pivot lies before an index.
abbrev IsBefore : (last : Option ℕ) → ℕ → Type 0
IsBefore none i = Unit
IsBefore (some p) i = p < i

IsBefore-suc : (last : Option ℕ) (i : ℕ) → IsBefore last i → IsBefore last (i + 1)
IsBefore-suc none i h = tt
IsBefore-suc (some p) i h = omega (arith, h)

Apart-cons :
    (gap end : ℕ) (last : Option ℕ) (p : ℕ) (ps : List ℕ)
    → IsBefore last p
    → holds_of (λ q. ltb (p - q) gap) last ≡ false
    → p < end
    → Apart gap end (some p) ps
    → Apart gap end last (p ∷ ps)
Apart-cons gap end none p ps h e lt rest = (lt, rest)
Apart-cons gap end (some q) p ps h e lt rest = (ground (arith, h), lt, rest)

module _ {ℓ} {W : Type ℓ} ⦃f : Float W⦄ where
  pivots_from-Apart :
      (behind : W → W → Bool) (gap : ℕ) (values : List W) (last : Option ℕ) (i n end : ℕ)
      → IsBefore last i
      → i + n ≤ end
      → Apart gap end last (pivots_from behind gap values last i n)
  unfolding pivots_from
  pivots_from-Apart behind gap values last i zero end h le = tt
  pivots_from-Apart behind gap values last i (suc n) end h le =
      let found = holds_of (is_pivot behind values i gap) (get_elem? values i) in
      let close = holds_of (λ p. ltb (i - p) gap) last in
      elim (Bool-cases (found && not close)) [
        | inl e ↦ rw e (
            Apart-cons gap end last i _ h (ground arith) (omega arith) (
              pivots_from-Apart behind gap values (some i) (i + 1) n end (omega arith)
                (omega arith)))
        | inr e ↦ rw e (
            pivots_from-Apart behind gap values last (i + 1) n end (IsBefore-suc last i h)
              (omega arith))
      ]

  -- The pivots of any values are `gap` bars apart at least, and each has `gap` bars after it.
  pub pivots-Apart :
      (behind : W → W → Bool) (values : List W) (gap : ℕ)
      → gap + gap ≤ length values
      → Apart gap (length values - gap) none (pivots behind values gap)
  unfolding pivots
  pivots-Apart behind values gap h =
      pivots_from-Apart behind gap values none gap (length values - gap - gap) (length values - gap)
        tt (omega arith)
