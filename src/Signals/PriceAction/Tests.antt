-- ===== src/Signals/PriceAction/Tests.antt =====
-- Runs of live_trading/signals/price_action_engine.py.
use scalping.Prelude.{◌≡◌, refl, true, false, List, [], ◌∷◌, ◌++◌}
use scalping.Float.{max_of, min_of, sum_from}
use scalping.Float.Fixed.{Fixed, fixed_float}
use scalping.Market.{Candle, buy, neutral}
use scalping.Signals.Indicators.{replicate}
use scalping.Signals.PriceAction.{cfg_m5, calc_atr, detect_patterns}
use scalping.Signals.PriceAction.Score.{Evidence, side_score, signal_of, compute_pa_signal}
use scalping.Signals.Samples.{candle_of, dollars}

engulfs :
    (detect_patterns (candle_of 104 107) (candle_of 106 105) cfg_m5 (dollars 2)).bullish_engulf
    ≡ true
unfolding detect_patterns max_of min_of
engulfs = refl

no_engulf :
    (detect_patterns (candle_of 104 105) (candle_of 107 104) cfg_m5 (dollars 2)).bullish_engulf
    ≡ false
unfolding detect_patterns max_of min_of
no_engulf = refl

average_range : calc_atr (replicate 11 (candle_of 104 106)) 10 ≡ dollars 3
unfolding calc_atr max_of sum_from
average_range = refl

abbrev silent : Evidence
silent = record {
  engulf = false;
  pin = false;
  strong = false;
  valid = false;
  pullback = false;
  near = true;
  fake = true;
}

abbrev loud : Evidence
loud = record silent { engulf = true; strong = true; fake = false }

fake_costs : (compute_pa_signal {W = Fixed} silent silent).0 ≡ neutral
unfolding compute_pa_signal side_score signal_of max_of min_of
fake_costs = refl

votes : (compute_pa_signal {W = Fixed} loud silent).0 ≡ buy
unfolding compute_pa_signal side_score signal_of max_of min_of
votes = refl

abbrev rally : List (Candle Fixed)
rally = replicate 44 (candle_of 106 105) ++ candle_of 105 108 ∷ []
