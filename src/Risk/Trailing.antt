-- ===== src/Risk/Trailing.antt =====
-- live_trading/risk/trailing_stop.py: the staircase trailing stop. A direction other than "BUY" is
-- treated as a sale, as the code does.
use scalping.Prelude.{
  ℕ, Bool, true, false, not, ◌||◌, Option, none, some, List, [], ◌∷◌, if◌then◌else◌,
}
use scalping.Float.{Float, ◌⊕◌, ◌⊖◌, ◌⊗◌, ◌⊘◌, ◌<?◌, ◌≤?◌, ◌≼◌, nought, max_of, min_of}
use scalping.Market.{Direction, is_buy}
pub mod Gap
pub mod Ratchet
mod Tests

pub record TrailingConfig {ℓ} (W : Type ℓ) : Type ℓ where
  pub enabled : Bool
  pub activation_r : W
  pub step_r : W
  pub lock_buffer_r : W
  pub atr_gap_mult : W
  pub min_step_price : W

module _ {ℓ} {W : Type ℓ} ⦃f : Float W⦄ where
  -- `sl'` is `sl`, or better for the trade.
  abbrev pub NoWorse : Direction → W → W → Type 0
  NoWorse d sl sl' = if is_buy d then sl ≼ sl' else sl' ≼ sl

  -- The price less the gap for a purchase, plus the gap for a sale.
  pub gap_limit : Direction → (current_price atr : W) → TrailingConfig W → W
  gap_limit d current_price atr cfg =
      if is_buy d
      then current_price ⊖ atr ⊗ cfg.atr_gap_mult
      else current_price ⊕ atr ⊗ cfg.atr_gap_mult

  -- How far the price has gone in the trade's favour.
  pub profit_distance : Direction → (entry current_price : W) → W
  profit_distance d entry current_price =
      if is_buy d then current_price ⊖ entry else entry ⊖ current_price

  -- The staircase's level before the floor of the ATR gap.
  pub stair_level : Direction → (entry risk_distance current_price : W) → TrailingConfig W → W
  unfolding profit_distance
  stair_level d entry risk current_price cfg =
      let r_multiple = profit_distance d entry current_price ⊘ risk in
      let steps = f.floor ((r_multiple ⊖ cfg.activation_r) ⊘ cfg.step_r) in
      let locked_dist = (steps ⊗ cfg.step_r ⊕ cfg.lock_buffer_r) ⊗ risk in
      if is_buy d then entry ⊕ locked_dist else entry ⊖ locked_dist

  -- Never closer to the price than the gap, where an ATR is known.
  pub gap_floor : Direction → (candidate current_price atr : W) → TrailingConfig W → W
  unfolding min_of max_of
  gap_floor d candidate current_price atr cfg =
      if nought <? atr
      then if is_buy d
        then min_of candidate (gap_limit d current_price atr cfg)
        else max_of candidate (gap_limit d current_price atr cfg)
      else candidate

  -- The trade has run far enough for the staircase.
  pub engaged : Direction → (entry risk_distance current_price : W) → TrailingConfig W → Bool
  unfolding profit_distance
  engaged d entry risk current_price cfg =
      if not cfg.enabled || risk ≤? nought || cfg.step_r ≤? nought
      then false
      else if profit_distance d entry current_price ≤? nought
      then false
      else not (profit_distance d entry current_price ⊘ risk <? cfg.activation_r)

  pub compute_staircase_sl :
      Direction → (entry risk_distance current_price atr : W) → TrailingConfig W → Option W
  unfolding engaged
  compute_staircase_sl d entry risk current_price atr cfg =
      if engaged d entry risk current_price cfg
      then some (
          f.round (gap_floor d (stair_level d entry risk current_price cfg) current_price atr cfg)
            2)
      else none

  pub should_apply : Direction → (current_sl : W) → Option W → (min_step_price : W) → Bool
  should_apply d current_sl none min_step = false
  should_apply d current_sl (some candidate) min_step =
      if is_buy d then min_step ≤? candidate ⊖ current_sl else min_step ≤? current_sl ⊖ candidate

  pub r_multiple_of : Direction → (entry risk_distance current_price : W) → W
  unfolding profit_distance
  r_multiple_of d entry risk current_price =
      if risk ≤? nought then nought else f.round (profit_distance d entry current_price ⊘ risk) 3

-- A tick as the loop of `_manage_trailing_stop` sees it for one position: the price on the closing
-- side, the last ATR, and whether the broker takes the change.
pub record Quote {ℓ} (W : Type ℓ) : Type ℓ where
  pub price : W
  pub atr : W
  pub accepted : Bool

-- The baseline that is kept for a position: never changed while it is open.
pub record Baseline {ℓ} (W : Type ℓ) : Type ℓ where
  pub direction : Direction
  pub entry : W
  pub risk_distance : W

module _ {ℓ} {W : Type ℓ} ⦃f : Float W⦄ where
  apply_candidate : Bool → Bool → Option W → W → W
  apply_candidate true true (some candidate) sl = candidate
  apply_candidate _ _ _ sl = sl

  -- One pass of `_manage_trailing_stop` over one position: its stop afterwards.
  pub trail : TrailingConfig W → Baseline W → Quote W → W → W
  unfolding apply_candidate
  trail cfg b q sl =
      let candidate = compute_staircase_sl b.direction b.entry b.risk_distance q.price q.atr cfg in
      apply_candidate (should_apply b.direction sl candidate cfg.min_step_price) q.accepted
        candidate sl

  pub trail_all : TrailingConfig W → Baseline W → List (Quote W) → W → W
  trail_all cfg b [] sl = sl
  trail_all cfg b (q ∷ qs) sl = trail_all cfg b qs (trail cfg b q sl)
