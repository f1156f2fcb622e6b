-- ===== src/Signals/Range/Tests.antt =====
-- Runs of live_trading/signals/range_strategy.py.
use scalping.Prelude.{true, false, List, [], ◌∷◌, ◌++◌}
use scalping.Prelude.Int.{pos}
use scalping.Float.Fixed.{Fixed, fixed_float}
use scalping.Market.{Candle, bullish}
use scalping.Signals.Indicators.{replicate}
use scalping.Signals.Smc.Sweeps.{Sweep}
use scalping.Signals.Range.{RangeRules, Reversals}
use scalping.Signals.Samples.{candle_of, dollars}

abbrev candles : List (Candle Fixed)
candles = replicate 20 (candle_of 104 106) ++ candle_of 103 105 ∷ []

abbrev sweep : Sweep Fixed
sweep = record {
  type = bullish;
  swept_level = dollars 104;
  wick_extreme = dollars 103;
  bar_index = 20;
}

abbrev pin_bar : Reversals
pin_bar = record {
  bullish_engulf = false;
  bullish_pin_bar = true;
  strong_bullish = false;
  bearish_engulf = false;
  bearish_pin_bar = false;
  strong_bearish = false;
}

abbrev strict : RangeRules Fixed
strict = record {
  min_confirmations = 2;
  lookback = 20;
  edge_atr_distance = pos 2500;
  strict_filters = true;
}
