-- ===== src/Signals/Smc/Levels/Covered.antt =====
-- The groups of `_detect_equal_levels`: their points lie together, and none stands in two levels
-- (live_trading/signals/smc_engine.py).
use scalping.Prelude.{ℕ, ◌+◌, ◌≡◌, List, [], ◌∷◌, All, map, ◌==◌, if◌then◌else◌}
use scalping.Float.{Float, ◌⊖◌, ◌≼◌}
use scalping.Signals.Smc.{Swing, member}
use scalping.Signals.Smc.Levels.{EqualLevel, level_of}

-- How often a number stands in a list.
abbrev pub occurrences : (k : ℕ) → List ℕ → ℕ
occurrences k [] = 0
occurrences k (x ∷ xs) = (if x == k then 1 else 0) + occurrences k xs

module _ {ℓ} {W : Type ℓ} where
  abbrev pub bars : List (Swing W) → List ℕ
  bars ss = map (λ s. s.bar_index) ss

  -- How often a bar stands in the levels.
  abbrev pub in_levels : (k : ℕ) → List (EqualLevel W) → ℕ
  in_levels k [] = 0
  in_levels k (l ∷ ls) = occurrences k l.bar_indices + in_levels k ls

module _ {ℓ} {W : Type ℓ} ⦃f : Float W⦄ where
  -- Points whose price differs by at most the tolerance from that of a first one.
  abbrev pub AreNear : (tol base : W) → List (Swing W) → Type 0
  AreNear tol base ss = All (λ s. f.abs (s.level ⊖ base) ≼ tol) ss

  -- A level is made of a first point and one at least that is near it.
  pub record IsGroup (tol : W) (l : EqualLevel W) : Type ℓ where
    pub first : Swing W
    pub second : Swing W
    pub more : List (Swing W)
    pub near : AreNear tol first.level (second ∷ more)
    pub level : l ≡ level_of (first ∷ second ∷ more)

  -- How often a bar stands among the points that are not processed.
  abbrev available : (k : ℕ) (p : List ℕ) → List (ℕ × Swing W) → ℕ
  available k p [] = 0
  available k p ((j, s) ∷ ss) =
      (if member j p then 0 else if s.bar_index == k then 1 else 0) + available k p ss
