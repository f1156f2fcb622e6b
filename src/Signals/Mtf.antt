-- ===== src/Signals/Mtf.antt =====
-- live_trading/signals/mtf_filter.py: the bias of the higher timeframe and its gate. The texts that
-- explain a bias are left out; the gate's reason keeps which test failed.
use scalping.Prelude.{ℕ, Bool, true, false, not, ◌&&◌, ◌||◌, Option, none, some, ltb, if◌then◌else◌}
use scalping.Float.{Float, ◌<?◌}
use scalping.Market.{
  Direction, Trend, Strength, Regime, buy, neutral, flat, weak, range, same_direction, is_neutral,
  is_range, vote_of, same_trend,
}
pub mod Gate
mod Tests

pub record MtfBias : Type 0 where
  pub direction : Direction
  pub trend : Trend
  pub smc_signal : Direction
  pub regime : Regime
  pub strength : Strength

-- What the engines say of the higher timeframe.
pub record HtfAnalysis : Type 0 where
  pub trend : Trend
  pub strength : Strength
  pub smc_signal : Direction
  pub regime : Regime

-- `_neutral`.
abbrev neutral_bias : MtfBias
neutral_bias = record {
  direction = neutral;
  trend = flat;
  smc_signal = neutral;
  regime = range;
  strength = weak;
}

unfoldable pub combine : HtfAnalysis → MtfBias
combine a =
    let vote = vote_of a.trend in
    let confirmed = is_neutral a.smc_signal || same_direction a.smc_signal vote in
    let directional = not (is_neutral vote) && confirmed in
    record {
      direction = if directional then vote else neutral;
      trend = a.trend;
      smc_signal = a.smc_signal;
      regime = a.regime;
      strength = if directional then a.strength else weak;
    }

-- From the number of candles and the engines' result, which is `none` where one of them raised.
unfoldable pub compute_mtf_bias : ℕ → Option HtfAnalysis → MtfBias
unfolding combine
compute_mtf_bias candles none = neutral_bias
compute_mtf_bias candles (some a) = if ltb candles 50 then neutral_bias else combine a

pub data MtfReason : Type 0 where
  approved range_accepted bias_unavailable entry_neutral htf_neutral trend_neutral : MtfReason
  regime_blocked misaligned no_confidence low_confidence few_timeframes : MtfReason

-- The arguments of `mtf_allows_trade` beside the bias.
pub record Entry {ℓ} (W : Type ℓ) : Type ℓ where
  pub m5_direction : Direction
  pub confidence : Option W
  pub confirmed_timeframes : ℕ
  pub min_confidence : W
  pub min_timeframes : ℕ
  pub allow_range_regime : Bool

module _ {ℓ} {W : Type ℓ} ⦃f : Float W⦄ where
  -- The tests on confidence and timeframes, which both ways end with.
  unfoldable pub confidence_gate : Entry W → Option W → MtfReason → Bool × MtfReason
  confidence_gate e none success = (false, no_confidence)
  confidence_gate e (some c) success =
      if c <? e.min_confidence
      then (false, low_confidence)
      else if ltb e.confirmed_timeframes e.min_timeframes
      then (false, few_timeframes)
      else (true, success)

  unfoldable pub gate : MtfBias → Entry W → Bool × MtfReason
  unfolding confidence_gate
  gate b e =
      if is_neutral e.m5_direction
      then (false, entry_neutral)
      else if e.allow_range_regime && is_range b.regime
      then confidence_gate e e.confidence range_accepted
      else if is_neutral b.direction
      then (false, htf_neutral)
      else if same_trend b.trend flat
      then (false, trend_neutral)
      else if is_range b.regime
      then (false, regime_blocked)
      else if not (same_direction e.m5_direction b.direction)
      then (false, misaligned)
      else confidence_gate e e.confidence approved

  unfoldable pub mtf_allows_trade : Option MtfBias → Entry W → Bool × MtfReason
  unfolding gate
  mtf_allows_trade none e = (false, bias_unavailable)
  mtf_allows_trade (some b) e = gate b e
