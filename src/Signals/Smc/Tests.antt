-- ===== src/Signals/Smc/Tests.antt =====
-- Runs of live_trading/signals/smc_engine.py.
use scalping.Prelude.{◌≡◌, false, ◌+◌, ◌≤◌, refl, List, [], ◌∷◌}
use scalping.Float.Fixed.{Fixed, fixed_float, Fixed-IsOrdered, Fixed-IsRounded}
use scalping.Market.{Candle, buy}
use scalping.Signals.Decision.{Event}
use scalping.Signals.Smc.{
  SmcConfig, cfg_m5, Swing, stands_out, swings_from, detect_swing_highs, detect_swing_lows,
}
use scalping.Signals.Smc.Structure.{detect_bos_and_choch}
use scalping.Signals.Smc.Structure.Once.{events_at, detect_bos_and_choch_once}
use scalping.Signals.Smc.Sweeps.{detect_liquidity_sweeps}
use scalping.Signals.Smc.Sweeps.Silent.{detect_liquidity_sweeps-nil}
use scalping.Signals.Samples.{wave, dollars}

abbrev cfg : SmcConfig Fixed
cfg = cfg_m5

abbrev peak : Swing Fixed
peak = record { bar_index = 5; level = dollars 109 }

abbrev trough : Swing Fixed
trough = record { bar_index = 11; level = dollars 99 }

-- The break of the peak.
abbrev break : Event Fixed
break = record { type = buy; price = dollars 109; bar_index = 18; is_choch = false }

highs : detect_swing_highs wave 5 ≡ peak ∷ []
unfolding detect_swing_highs swings_from stands_out
highs = refl

lows : detect_swing_lows wave 5 ≡ trough ∷ []
unfolding detect_swing_lows swings_from stands_out
lows = refl

detect_bos_and_choch_once_example :
    let r = detect_bos_and_choch wave (peak ∷ []) (trough ∷ []) cfg in
    events_at 18 r.0 + events_at 18 r.1 ≤ 1
detect_bos_and_choch_once_example = detect_bos_and_choch_once wave (peak ∷ []) (trough ∷ []) cfg 18

abbrev jump : List (Candle Fixed)
jump =
    record {
      open_price = dollars 10;
      high = dollars 11;
      low = dollars 9;
      close = dollars 10;
      volume = dollars 1;
    }
    ∷ record {
      open_price = dollars 10;
      high = dollars 14;
      low = dollars 10;
      close = dollars 14;
      volume = dollars 1;
    }
    ∷ record {
      open_price = dollars 14;
      high = dollars 16;
      low = dollars 13;
      close = dollars 15;
      volume = dollars 1;
    }
    ∷ []

detect_liquidity_sweeps-nil_example :
    detect_liquidity_sweeps wave (detect_swing_highs wave 5) (detect_swing_lows wave 5) cfg ≡ []
detect_liquidity_sweeps-nil_example =
    detect_liquidity_sweeps-nil Fixed-IsOrdered Fixed-IsRounded wave cfg refl

-- A peak as high as the first, after one that is far away.
abbrev three_peaks : List (Swing Fixed)
three_peaks =
    peak
    ∷ record { bar_index = 9; level = dollars 120 }
    ∷ record { bar_index = 13; level = dollars 109 }
    ∷ []
