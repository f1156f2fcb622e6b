-- ===== src/Signals/Engine/Tests.antt =====
-- Runs of live_trading/signals/decision_engine.py on candles.
use scalping.Prelude.{◌≡◌, refl, true, false, Option, none, some, List, [], ◌∷◌}
use scalping.Float.{max_of, sum_from}
use scalping.Float.Fixed.{Fixed, fixed_float, Fixed-IsOrdered, Fixed-IsRounded}
use scalping.Market.{Candle, Direction, is_range}
use scalping.Risk.Capital.{CapitalOutput}
use scalping.Signals.Decision.{EngineRules}
use scalping.Signals.Decision.Accepted.{trade_of}
use scalping.Signals.Trend.{analyze_trend}
use scalping.Signals.Wyckoff.{analyze_wyckoff}
use scalping.Signals.Regime.{detect_market_regime, detect_pullback}
use scalping.Signals.Engine.{Settings, unranged, analyse, decide}
use scalping.Signals.Engine.Accepted.{IsBacked, decide-IsBacked, decide-range}
use scalping.Signals.Samples.{dollars, rules, candles_of, wave}

abbrev settings : Settings Fixed
settings = record {
  thresholds = record { normal_min_confidence = dollars 55; range_min_confidence = dollars 47 };
  quality = record {
    quality_adx_min = dollars 15;
    conf_hard_min = dollars 40;
    structure_max_age_bars = 20;
  };
  calibrated = none;
  use_atr_high_vol = true;
  range_edge_atr_distance = dollars 1;
}

is_ranging : is_range (analyse settings rules (some 9) wave).regime ≡ true
unfolding analyse unranged analyze_trend analyze_wyckoff detect_market_regime detect_pullback max_of
    sum_from
is_ranging = refl

-- A climb in three legs, the last candle the strongest, under settings that let ranges be traded.
abbrev climb : List (Candle Fixed)
climb = candles_of (
    200 ∷ 204 ∷ 208 ∷ 212 ∷ 216 ∷ 220 ∷ 224 ∷ 221 ∷ 218 ∷ 215 ∷ 212 ∷ 209 ∷ 213 ∷ 217 ∷ 221 ∷ 225
    ∷ 229 ∷ 233 ∷ 237 ∷ 241 ∷ 238 ∷ 235 ∷ 232 ∷ 229 ∷ 226 ∷ 230 ∷ 234 ∷ 238 ∷ 242 ∷ 246 ∷ 251 ∷ [])

abbrev lax : Settings Fixed
lax = record settings {
  thresholds = record { normal_min_confidence = dollars 55; range_min_confidence = dollars 30 };
  quality = record {
    quality_adx_min = dollars 15;
    conf_hard_min = dollars 30;
    structure_max_age_bars = 20;
  };
}

abbrev unfiltered : EngineRules Fixed
unfiltered = record rules {
  range_entry_filters_enabled = false;
  range_min_rr = dollars 1;
  conf_hard_min = dollars 30;
}

-- Accepted: a purchase at 251 with a confidence of 35, as the normal form of this shows.
abbrev climb_trade : Option (Direction × Fixed × CapitalOutput Fixed)
climb_trade = trade_of (decide lax unfiltered (some 9) climb)

decide-IsBacked_example :
    IsBacked (analyse lax unfiltered (some 9) climb) unfiltered (some 9) climb climb_trade
decide-IsBacked_example =
    decide-IsBacked Fixed-IsOrdered Fixed-IsRounded lax unfiltered (some 9) climb

decide-range_example : trade_of (decide settings rules (some 9) wave) ≡ none
decide-range_example =
    decide-range Fixed-IsOrdered Fixed-IsRounded settings rules (some 9) wave refl is_ranging
