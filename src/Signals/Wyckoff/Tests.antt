-- ===== src/Signals/Wyckoff/Tests.antt =====
-- Runs of live_trading/signals/wyckoff_engine.py.
use scalping.Prelude.{◌≡◌, refl, true, false, List, [], ◌∷◌, ◌++◌}
use scalping.Prelude.Int.{pos}
use scalping.Float.{max_of, min_of, max_list, min_list, sum_from}
use scalping.Float.Fixed.{Fixed, fixed_float}
use scalping.Market.{Candle, neutral}
use scalping.Signals.Indicators.{replicate}
use scalping.Signals.Regime.{accumulating, distributing}
use scalping.Signals.Wyckoff.{
  cfg_m5, detect_phase, detect_spring, avg, highest, lowest, has_range, has_touches, phase_of,
  phase_after, springs, result_of,
}
use scalping.Signals.Samples.{candle_of, candles_of, dollars}

abbrev spring_candle : Candle Fixed
spring_candle = record {
  open_price = dollars 2001;
  high = dollars 2002;
  low = pos 19999000;
  close = dollars 2002;
  volume = dollars 5;
}

abbrev falling : List (Candle Fixed)
falling =
    candles_of (
      2012 ∷ 2011 ∷ 2010 ∷ 2009 ∷ 2008 ∷ 2007 ∷ 2006 ∷ 2005 ∷ 2004 ∷ 2003 ∷ 2002 ∷ 2001 ∷ 2000 ∷ [])

-- A fall, a range, and a spring in its last candle.
abbrev accumulation : List (Candle Fixed)
accumulation = falling ++ replicate 19 (candle_of 2000 2002) ++ spring_candle ∷ []

is_accumulation : detect_phase accumulation cfg_m5 ≡ (accumulating, 12)
unfolding detect_phase highest lowest has_range has_touches phase_of phase_after max_list min_list
    max_of min_of
is_accumulation = refl

is_spring : detect_spring accumulation 12 cfg_m5 ≡ true
unfolding detect_spring lowest avg springs min_list sum_from min_of
is_spring = refl

contradiction : (result_of {W = Fixed} distributing true false true).wyckoff_signal ≡ neutral
unfolding result_of
contradiction = refl
