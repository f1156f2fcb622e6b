-- ===== src/Signals/Samples.antt =====
-- What the engines make of a rising market with three votes, in fixed-point numbers, for tests.
use scalping.Prelude.{ℕ, ◌+◌, ◌-◌, ◌*◌, max, min, List, Bool, true, false, none, [], ◌∷◌}
use scalping.Prelude.Int.{pos}
use scalping.Float.Fixed.{Fixed, fixed_float}
use scalping.Market.{Candle, Direction, buy, sell, neutral, bullish, strong, strong_trend_bull}
use scalping.Signals.Trend.{TrendResult}
use scalping.Signals.Decision.{Event, SmcResult, RangeContext, Analysis, EngineRules}

abbrev pub dollars : ℕ → Fixed
dollars n = pos (n * 10000)

abbrev pub broken_low : Event Fixed
broken_low = record { type = sell; price = dollars 1994; bar_index = 280; is_choch = false }

abbrev pub turn : Event Fixed
turn = record { type = buy; price = dollars 1998; bar_index = 280; is_choch = true }

abbrev pub structure : SmcResult Fixed
structure = record {
  trend = bullish;
  bos_signals = broken_low ∷ [];
  choch_signals = turn ∷ [];
  order_blocks = [];
  equal_highs = [];
  equal_lows = [];
}

abbrev pub no_range : Direction → ℕ → RangeContext Fixed
no_range d n = record { valid = false; support = dollars 1990; resistance = dollars 2010 }

abbrev pub sixty : Direction → Fixed
sixty d = dollars 60

abbrev pub good : Direction → Fixed → Bool
good d c = true

abbrev pub no_fake : Direction → Bool
no_fake d = false

abbrev pub analysis : Analysis Fixed
analysis = record {
  smc = structure;
  ema_trend = bullish;
  pa_signal = buy;
  wyckoff_signal = neutral;
  regime = strong_trend_bull;
  rules = record {
    min_confidence = dollars 55;
    min_rr = dollars 1;
    allow_long = true;
    allow_short = false;
  };
  atr = dollars 4;
  close = dollars 2000;
  range_entry = no_range;
  confidence = sixty;
  quality = good;
  fake_breakout = no_fake;
}

abbrev pub rules : EngineRules Fixed
rules = record {
  account_balance = dollars 1000;
  risk_percent = dollars 1;
  min_confirmations = 3;
  default_range_min_confirmations = 2;
  require_price_action = false;
  require_smc_price_action_wyckoff = false;
  range_trading_enabled = true;
  range_min_confirmations = 2;
  range_min_rr = pos 15000;
  range_risk_percent = none;
  range_entry_filters_enabled = true;
  conf_hard_min = dollars 47;
  fixed_tp_rr = dollars 2;
}

abbrev pub rising : TrendResult Fixed
rising = record {
  ema50 = dollars 105;
  ema100 = dollars 104;
  ema200 = dollars 103;
  trend = bullish;
  strength = strong;
}

-- The candle between two prices, with a wick of a dollar at its end.
abbrev pub candle_of : (from to : ℕ) → Candle Fixed
candle_of from to = record {
  open_price = dollars from;
  high = dollars (max from (to + 1));
  low = dollars (min from (to - 1));
  close = dollars to;
  volume = dollars 1;
}

abbrev pub candles_of : List ℕ → List (Candle Fixed)
candles_of [] = []
candles_of (p ∷ []) = []
candles_of (p ∷ q ∷ qs) = candle_of p q ∷ candles_of (q ∷ qs)

-- Up to 108, down to 100, up to 114.
abbrev pub wave : List (Candle Fixed)
wave = candles_of (
    102 ∷ 103 ∷ 104 ∷ 105 ∷ 106 ∷ 107 ∷ 108 ∷ 106 ∷ 105 ∷ 104 ∷ 103 ∷ 102 ∷ 100 ∷ 102 ∷ 103 ∷ 104
    ∷ 105 ∷ 106 ∷ 108 ∷ 110 ∷ 112 ∷ 114 ∷ [])
