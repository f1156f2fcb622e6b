-- ===== src/Risk/Trailing/Ratchet.antt =====
-- The trailing stop only moves in the trade's favour (live_trading/risk/trailing_stop.py and
-- `_manage_trailing_stop` of live_trading/trading/live_loop.py).
use scalping.Prelude.{
  ◌≡◌, Bool, true, false, Option, none, some, List, [], ◌∷◌, Bool-cases, inl, inr,
}
use scalping.Float.{Float, ◌≼◌, nought, IsNumber}
use scalping.Float.Laws.{IsOrdered, IsRounded}
use scalping.Market.{Direction, buy, sell, neutral}
use scalping.Risk.Trailing.{
  TrailingConfig, NoWorse, Quote, Baseline, compute_staircase_sl, should_apply, trail, trail_all,
  apply_candidate,
}

module _ {ℓ} {W : Type ℓ} ⦃f : Float W⦄ (laws : IsOrdered W) (rounding : IsRounded W) where
  open laws use {refl_of_le, le_trans}
  open rounding use {le_of_sub}

  NoWorse-refl : (d : Direction) (sl : W) → IsNumber sl → NoWorse d sl sl
  NoWorse-refl buy sl num = num
  NoWorse-refl sell sl num = num
  NoWorse-refl neutral sl num = num

  NoWorse-trans : (d : Direction) (x y z : W) → NoWorse d x y → NoWorse d y z → NoWorse d x z
  NoWorse-trans buy x y z p q = le_trans x y z p q
  NoWorse-trans sell x y z p q = le_trans z y x q p
  NoWorse-trans neutral x y z p q = le_trans z y x q p

  NoWorse-IsNumber : (d : Direction) (x y : W) → NoWorse d x y → IsNumber y
  NoWorse-IsNumber buy x y h = (refl_of_le x y h).1
  NoWorse-IsNumber sell x y h = (refl_of_le y x h).0
  NoWorse-IsNumber neutral x y h = (refl_of_le y x h).0

  pub should_apply-NoWorse :
      (d : Direction) (sl candidate step : W)
      → nought ≼ step
      → should_apply d sl (some candidate) step ≡ true
      → NoWorse d sl candidate
  unfolding should_apply
  should_apply-NoWorse buy sl c step h e = le_of_sub c sl (le_trans _ _ _ h e)
  should_apply-NoWorse sell sl c step h e = le_of_sub sl c (le_trans _ _ _ h e)
  should_apply-NoWorse neutral sl c step h e = le_of_sub sl c (le_trans _ _ _ h e)

  apply_candidate-NoWorse :
      (d : Direction) (o : Option W) (accepted : Bool) (sl step : W)
      → nought ≼ step
      → IsNumber sl
      → NoWorse d sl (apply_candidate (should_apply d sl o step) accepted o sl)
  unfolding apply_candidate
  apply_candidate-NoWorse d none a sl step h num = unfold should_apply in NoWorse-refl d sl num
  apply_candidate-NoWorse d (some c) true sl step h num =
      elim (Bool-cases (should_apply d sl (some c) step)) [
        | inl e ↦ rw e (should_apply-NoWorse d sl c step h e)
        | inr e ↦ rw e (NoWorse-refl d sl num)
      ]
  apply_candidate-NoWorse d (some c) false sl step h num =
      elim (Bool-cases (should_apply d sl (some c) step)) [
        | inl e ↦ rw e (NoWorse-refl d sl num)
        | inr e ↦ rw e (NoWorse-refl d sl num)
      ]

  trail-NoWorse :
      (cfg : TrailingConfig W) (b : Baseline W) (q : Quote W) (sl : W)
      → nought ≼ cfg.min_step_price
      → IsNumber sl
      → NoWorse b.direction sl (trail cfg b q sl)
  unfolding trail
  trail-NoWorse cfg b q sl h num =
      apply_candidate-NoWorse b.direction
        (compute_staircase_sl b.direction b.entry b.risk_distance q.price q.atr cfg) q.accepted sl
        cfg.min_step_price h num

  -- In floats that are ordered and rounded as IEEE doubles are, for a least step that is not negative
  -- and a first stop that is not NaN: over any run of prices, ATRs (NaN included) and broker answers,
  -- no stop is ever moved against the trade.
  pub trail_all-NoWorse :
      (cfg : TrailingConfig W) (b : Baseline W) (qs : List (Quote W)) (sl : W)
      → nought ≼ cfg.min_step_price
      → IsNumber sl
      → NoWorse b.direction sl (trail_all cfg b qs sl)
  unfolding trail_all
  trail_all-NoWorse cfg b [] sl h num = NoWorse-refl b.direction sl num
  trail_all-NoWorse cfg b (q ∷ qs) sl h num =
      let p = trail-NoWorse cfg b q sl h num in
      NoWorse-trans b.direction sl (trail cfg b q sl) _ p
        (trail_all-NoWorse cfg b qs (trail cfg b q sl) h (NoWorse-IsNumber b.direction sl _ p))
