-- ===== src/Signals/Smc/Structure/Tests.antt =====
-- Runs of `_detect_bos_and_choch` (live_trading/signals/smc_engine.py).
use scalping.Prelude.{◌≡◌, refl, true, false, [], ◌∷◌}
use scalping.Float.Fixed.{Fixed, fixed_float}
use scalping.Market.{buy, sell, bearish, flat}
use scalping.Signals.Smc.{Swing, cfg_m5, body_ratio}
use scalping.Signals.Smc.Structure.{
  no_breaks, latest_unbroken, min_body, break_up, try_down, try_up, scan_bar, scan_from,
  detect_bos_and_choch,
}
use scalping.Signals.Samples.{wave, dollars}

abbrev peak : Swing Fixed
peak = record { bar_index = 5; level = dollars 109 }

abbrev trough : Swing Fixed
trough = record { bar_index = 11; level = dollars 99 }

one_break :
    detect_bos_and_choch wave (peak ∷ []) (trough ∷ []) cfg_m5
    ≡ (record { type = buy; price = dollars 109; bar_index = 18; is_choch = false } ∷ [], [], flat)
unfolding detect_bos_and_choch scan_from scan_bar try_up try_down break_up min_body body_ratio
    latest_unbroken
one_break = refl

-- In a falling market the break upwards is a CHoCH, and ends the trend.
turn :
    break_up 18 0 peak
      (record no_breaks { local_trend = bearish; recent_bos_dir = sell ∷ sell ∷ [] })
    ≡ record no_breaks {
      choch_signals =
          record { type = buy; price = dollars 109; bar_index = 18; is_choch = true } ∷ [];
      used_highs = 0 ∷ [];
    }
unfolding break_up
turn = refl
