-- ===== src/Signals/PriceAction/Analyze.antt =====
-- live_trading/signals/price_action_engine.py: `analyze_price_action`, and what the scores and gates
-- read of its result.
use scalping.Prelude.{
  ◌+◌, Bool, false, ◌||◌, Option, none, some, List, length, get_last?, but_last, ltb, if◌then◌else◌,
}
use scalping.Float.{Float, ◌≤?◌, nought}
use scalping.Market.{Candle, Direction, neutral, is_buy}
use scalping.Signals.PriceAction.{CandlePatterns, PaConfig, cfg_m5, calc_atr, detect_patterns}
use scalping.Signals.PriceAction.Levels.{detect_sr_levels, detect_supply_demand}
use scalping.Signals.PriceAction.Breakout.{
  Breakouts, near_level, near_zone, detect_breakout_pullback,
}
use scalping.Signals.PriceAction.Score.{Evidence, compute_pa_signal}
use scalping.Signals.Range.{Reversals}
use scalping.Signals.Confidence.{Patterns}

-- What the last candle is near.
pub record Nearness : Type 0 where
  pub demand_zone : Bool
  pub supply_zone : Bool
  pub support : Bool
  pub resistance : Bool

-- `PriceActionResult`.
pub record PriceActionResult {ℓ} (W : Type ℓ) : Type ℓ where
  pub patterns : CandlePatterns
  pub near : Nearness
  pub breakouts : Breakouts
  pub pa_signal : Direction
  pub pa_score : W

abbrev bull_evidence : CandlePatterns → Nearness → Breakouts → Evidence
bull_evidence p n b = record {
  engulf = p.bullish_engulf;
  pin = p.bullish_pin_bar;
  strong = p.strong_bullish;
  valid = b.valid_bull;
  pullback = b.bull_pullback;
  near = n.demand_zone || n.support;
  fake = b.fake_bull;
}

abbrev bear_evidence : CandlePatterns → Nearness → Breakouts → Evidence
bear_evidence p n b = record {
  engulf = p.bearish_engulf;
  pin = p.bearish_pin_bar;
  strong = p.strong_bearish;
  valid = b.valid_bear;
  pullback = b.bear_pullback;
  near = n.supply_zone || n.resistance;
  fake = b.fake_bear;
}

abbrev no_patterns : CandlePatterns
no_patterns = record {
  bullish_engulf = false;
  bearish_engulf = false;
  bullish_pin_bar = false;
  bearish_pin_bar = false;
  strong_bullish = false;
  strong_bearish = false;
}

abbrev near_nothing : Nearness
near_nothing = record {
  demand_zone = false;
  supply_zone = false;
  support = false;
  resistance = false;
}

abbrev no_breakouts : Breakouts
no_breakouts = record {
  valid_bull = false;
  valid_bear = false;
  fake_bull = false;
  fake_bear = false;
  bull_pullback = false;
  bear_pullback = false;
}

module _ {ℓ} {W : Type ℓ} ⦃f : Float W⦄ where
  -- `_NEUTRAL_PA`.
  abbrev neutral_pa : PriceActionResult W
  neutral_pa = record {
    patterns = no_patterns;
    near = near_nothing;
    breakouts = no_breakouts;
    pa_signal = neutral;
    pa_score = nought;
  }

  unfoldable pub analyze_last :
      List (Candle W) → (cfg : PaConfig W) (c0 c1 : Candle W) (atr : W) → PriceActionResult W
  analyze_last candles cfg c0 c1 atr =
      let patterns = detect_patterns c0 c1 cfg atr in
      let (support, resistance) = detect_sr_levels candles cfg in
      let (demand, supply) = detect_supply_demand candles cfg atr in
      let tol = cfg.level_tolerance in
      let near : Nearness = record {
        demand_zone = near_zone c0.close tol demand;
        supply_zone = near_zone c0.close tol supply;
        support = near_level c0.close tol support;
        resistance = near_level c0.close tol resistance;
      } in
      let breakouts = detect_breakout_pullback candles c0 support resistance demand supply cfg in
      let (signal, score) =
        compute_pa_signal (bull_evidence patterns near breakouts)
          (bear_evidence patterns near breakouts) in
      record {
        patterns = patterns;
        near = near;
        breakouts = breakouts;
        pa_signal = signal;
        pa_score = score;
      }

  -- The last two candles are there, if there are enough.
  unfoldable pub analyze_from :
      List (Candle W) → (cfg : PaConfig W) (c0 c1 : Option (Candle W)) → PriceActionResult W
  unfolding analyze_last
  analyze_from candles cfg (some c0) (some c1) =
      let atr = calc_atr candles cfg.atr_period in
      if atr ≤? nought then neutral_pa else analyze_last candles cfg c0 c1 atr
  analyze_from candles cfg (some c0) none = neutral_pa
  analyze_from candles cfg none c1 = neutral_pa

  unfoldable pub analyze_price_action : List (Candle W) → PriceActionResult W
  unfolding analyze_from
  analyze_price_action candles =
      let cfg : PaConfig W = cfg_m5 in
      if ltb (length candles) (cfg.level_lookback + cfg.atr_period + 5)
      then neutral_pa
      else analyze_from candles cfg (get_last? candles) (get_last? (but_last candles))

module _ {ℓ} {W : Type ℓ} where
  -- The fields that the range gate reads.
  abbrev pub reversals_of : PriceActionResult W → Reversals
  reversals_of pa = record {
    bullish_engulf = pa.patterns.bullish_engulf;
    bullish_pin_bar = pa.patterns.bullish_pin_bar;
    strong_bullish = pa.patterns.strong_bullish;
    bearish_engulf = pa.patterns.bearish_engulf;
    bearish_pin_bar = pa.patterns.bearish_pin_bar;
    strong_bearish = pa.patterns.strong_bearish;
  }

  -- The fields of the candidate's side that `_calc_pa_score` reads.
  abbrev pub patterns_of : PriceActionResult W → Direction → Patterns
  patterns_of pa d =
      let p = pa.patterns in
      let b = pa.breakouts in
      let n = pa.near in
      if is_buy d
      then record {
        engulf = p.bullish_engulf;
        pin_bar = p.bullish_pin_bar;
        strong_candle = p.strong_bullish;
        valid_breakout = b.valid_bull;
        pullback = b.bull_pullback;
        near_zone = n.demand_zone;
        near_level = n.support;
        fake_breakout = b.fake_bull;
      }
      else record {
        engulf = p.bearish_engulf;
        pin_bar = p.bearish_pin_bar;
        strong_candle = p.strong_bearish;
        valid_breakout = b.valid_bear;
        pullback = b.bear_pullback;
        near_zone = n.supply_zone;
        near_level = n.resistance;
        fake_breakout = b.fake_bear;
      }
