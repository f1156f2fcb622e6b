-- ===== src/Signals/Mtf/Tests.antt =====
-- A purchase on a rising hour chart, in fixed-point numbers.
use scalping.Prelude.{◌≡◌, ◌≢◌, ◌⊎◌, refl, true, false, some}
use scalping.Prelude.Int.{pos}
use scalping.Float.Fixed.{Fixed, fixed_float}
use scalping.Market.{buy, neutral, bullish, strong, strong_trend_bull, range}
use scalping.Signals.Mtf.{MtfBias, HtfAnalysis, Entry, compute_mtf_bias, mtf_allows_trade}
use scalping.Signals.Mtf.Gate.{IsConfirmed, IsAligned, mtf_allows_trade_sound}

abbrev rising : HtfAnalysis
rising = record {
  trend = bullish;
  strength = strong;
  smc_signal = neutral;
  regime = strong_trend_bull;
}

abbrev bias : MtfBias
bias = record {
  direction = buy;
  trend = bullish;
  smc_signal = neutral;
  regime = strong_trend_bull;
  strength = strong;
}

rising-bias : compute_mtf_bias 300 (some rising) ≡ bias
unfolding compute_mtf_bias
rising-bias = refl

abbrev entry : Entry Fixed
entry = record {
  m5_direction = buy;
  confidence = some (pos 600000);
  confirmed_timeframes = 2;
  min_confidence = pos 470000;
  min_timeframes = 2;
  allow_range_regime = false;
}

abbrev range_entry : Entry Fixed
range_entry = record entry { allow_range_regime = true }

entry-allowed : (mtf_allows_trade (some bias) entry).0 ≡ true
unfolding mtf_allows_trade
entry-allowed = refl

mtf_allows_trade_sound_example :
    (b : MtfBias) × (some bias ≡ some b)
    × (entry.m5_direction ≢ neutral)
    × IsConfirmed entry
    × (IsAligned b entry ⊎ ((entry.allow_range_regime ≡ true) × (b.regime ≡ range)))
mtf_allows_trade_sound_example = mtf_allows_trade_sound (some bias) entry entry-allowed
