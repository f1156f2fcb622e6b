-- ===== src/Signals/PriceAction.antt =====
-- live_trading/signals/price_action_engine.py: the patterns of the last candles.
-- PriceAction/Levels has the levels and zones, PriceAction/Score the vote.
use scalping.Prelude.{
  ℕ, ◌+◌, ◌-◌, Bool, true, false, ◌&&◌, ◌||◌, List, [], ◌∷◌, length, last_n, but_last, get_last?,
  if◌then◌else◌,
}
use scalping.Float.{Float, ◌⊕◌, ◌⊖◌, ◌⊗◌, ◌⊘◌, ◌<?◌, ◌≤?◌, nought, max_of, min_of, sum_from}
use scalping.Market.{Candle}
use scalping.Signals.Indicators.{true_ranges}
pub mod Levels
pub mod Breakout
pub mod Score
pub mod Analyze
pub mod Sides
mod Tests

pub record PaConfig {ℓ} (W : Type ℓ) : Type ℓ where
  pub pin_bar_wick_ratio : W
  pub pin_bar_body_max_ratio : W
  pub strong_body_ratio : W
  pub strong_body_atr_mult : W
  pub engulf_body_ratio : W
  pub level_lookback : ℕ
  pub level_tolerance : W
  pub min_level_touches : ℕ
  pub breakout_min_body : W
  pub breakout_body_ratio : W
  pub fake_retrace_bars : ℕ
  pub pullback_zone_pct : W
  pub atr_period : ℕ

-- What `_detect_patterns` returns.
pub record CandlePatterns : Type 0 where
  pub bullish_engulf : Bool
  pub bearish_engulf : Bool
  pub bullish_pin_bar : Bool
  pub bearish_pin_bar : Bool
  pub strong_bullish : Bool
  pub strong_bearish : Bool

module _ {ℓ} {W : Type ℓ} ⦃f : Float W⦄ where
  -- CFG_M5.
  abbrev pub cfg_m5 : PaConfig W
  cfg_m5 = record {
    pin_bar_wick_ratio = f.dec 20 1;
    pin_bar_body_max_ratio = f.dec 30 2;
    strong_body_ratio = f.dec 60 2;
    strong_body_atr_mult = f.dec 40 2;
    engulf_body_ratio = f.dec 105 2;
    level_lookback = 30;
    level_tolerance = f.dec 35 2;
    min_level_touches = 2;
    breakout_min_body = f.dec 20 2;
    breakout_body_ratio = f.dec 50 2;
    fake_retrace_bars = 3;
    pullback_zone_pct = f.dec 15 4;
    atr_period = 10;
  }

  unfoldable pub calc_atr : List (Candle W) → (period : ℕ) → W
  unfolding sum_from
  calc_atr candles period =
      sum_from nought (true_ranges (last_n (period + 1) candles)) ⊘ f.dec period 0

  abbrev pub body : Candle W → W
  body c = f.abs (c.close ⊖ c.open_price)

  abbrev pub range : Candle W → W
  range c = c.high ⊖ c.low

  abbrev pub body_ratio : Candle W → W
  body_ratio c = if nought <? range c then body c ⊘ range c else nought

  abbrev pub is_bull : Candle W → Bool
  is_bull c = c.open_price <? c.close

  abbrev pub is_bear : Candle W → Bool
  is_bear c = c.close <? c.open_price

  abbrev pub upper_wick : Candle W → W
  upper_wick c = c.high ⊖ max_of c.open_price c.close

  abbrev pub lower_wick : Candle W → W
  lower_wick c = min_of c.open_price c.close ⊖ c.low

  -- Of the last candle, c0, and the one before it.
  pub detect_patterns : (c0 c1 : Candle W) (cfg : PaConfig W) (atr : W) → CandlePatterns
  unfolding max_of min_of
  detect_patterns c0 c1 cfg atr =
      let big = body c1 ⊗ cfg.engulf_body_ratio ≤? body c0 in
      let r0 = range c0 in
      let pin = (atr ⊗ f.dec 25 2 ≤? r0) && (body_ratio c0 ≤? cfg.pin_bar_body_max_ratio) in
      let wick = body c0 ⊗ cfg.pin_bar_wick_ratio in
      let strong =
        (cfg.strong_body_ratio ≤? body_ratio c0) && (atr ⊗ cfg.strong_body_atr_mult ≤? body c0) in
      record {
        bullish_engulf =
            is_bull c0
            && is_bear c1
            && (c0.open_price ≤? c1.close)
            && (c1.open_price ≤? c0.close)
            && big;
        bearish_engulf =
            is_bear c0
            && is_bull c1
            && (c1.close ≤? c0.open_price)
            && (c0.close ≤? c1.open_price)
            && big;
        bullish_pin_bar =
            pin && (wick ≤? lower_wick c0) && (upper_wick c0 ≤? lower_wick c0 ⊗ f.dec 4 1);
        bearish_pin_bar =
            pin && (wick ≤? upper_wick c0) && (lower_wick c0 ≤? upper_wick c0 ⊗ f.dec 4 1);
        strong_bullish = is_bull c0 && strong && (c0.low ⊕ r0 ⊗ f.dec 80 2 ≤? c0.close);
        strong_bearish = is_bear c0 && strong && (c0.close ≤? c0.low ⊕ r0 ⊗ f.dec 20 2);
      }
