-- ===== src/Signals/Smc/Levels.antt =====
-- live_trading/signals/smc_engine.py: `_detect_equal_levels`. A swing point is given with its position
-- in the list, which the code marks as processed.
use scalping.Prelude.{ℕ, ◌+◌, Bool, not, ◌&&◌, List, [], ◌∷◌, map, length, leb, if◌then◌else◌}
use scalping.Float.{Float, ◌⊖◌, ◌⊘◌, ◌≤?◌, nought, sum_from}
use scalping.Signals.Smc.{SmcConfig, Swing, member}
pub mod Covered

pub record EqualLevel {ℓ} (W : Type ℓ) : Type ℓ where
  pub price : W
  pub bar_indices : List ℕ

module _ {ℓ} {W : Type ℓ} ⦃f : Float W⦄ where
  -- Within the tolerance of the base price.
  abbrev pub is_equal : (tol base : W) → Swing W → Bool
  is_equal tol base s = f.abs (s.level ⊖ base) ≤? tol

  -- `for j`: the points of the group after its first, and what is processed then.
  pub gather : (tol base : W) (processed : List ℕ) → List (ℕ × Swing W) → List (Swing W) × List ℕ
  gather tol base processed [] = ([], processed)
  gather tol base processed ((j, s) ∷ ss) =
      let taken = gather tol base (j ∷ processed) ss in
      let passed = gather tol base processed ss in
      if not (member j processed) && is_equal tol base s then (s ∷ taken.0, taken.1) else passed

  pub mean : List (Swing W) → W
  unfolding sum_from
  mean group = sum_from nought (map (λ s. s.level) group) ⊘ f.dec (length group) 0

  abbrev pub level_of : List (Swing W) → EqualLevel W
  level_of group = record {
    price = f.round (mean group) 2;
    bar_indices = map (λ s. s.bar_index) group;
  }

  -- `for i`.
  pub group_levels : (tol : W) (processed : List ℕ) → List (ℕ × Swing W) → List (EqualLevel W)
  unfolding gather
  group_levels tol processed [] = []
  group_levels tol processed ((i, s) ∷ ss) =
      let gathered = gather tol s.level processed ss in
      let passed = group_levels tol processed ss in
      let rest = group_levels tol (i ∷ gathered.1) ss in
      let group = s ∷ gathered.0 in
      if member i processed
      then passed
      else if leb 2 (length group)
      then level_of group ∷ rest
      else rest

  pub positions_from : ℕ → List (Swing W) → List (ℕ × Swing W)
  positions_from i [] = []
  positions_from i (s ∷ ss) = (i, s) ∷ positions_from (i + 1) ss

  pub detect_equal_levels : List (Swing W) → SmcConfig W → List (EqualLevel W)
  unfolding positions_from
  detect_equal_levels ss cfg = group_levels cfg.equal_level_tolerance [] (positions_from 0 ss)
