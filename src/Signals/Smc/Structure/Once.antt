-- ===== src/Signals/Smc/Structure/Once.antt =====
-- A bar breaks the structure at most once (live_trading/signals/smc_engine.py).
use scalping.Prelude.{
  last_start, ℕ, zero, suc, ◌+◌, ◌-◌, ◌≤◌, ◌≡◌, Option, none, some, List, [], ◌∷◌, ◌++◌, drop,
  length, leb, ◌==◌, if◌then◌else◌, true, false, arith,
}
use scalping.Float.{Float}
use scalping.Market.{Candle, buy, sell}
use scalping.Signals.Decision.{Event}
use scalping.Signals.Smc.{SmcConfig, Swing, get_elem?}
use scalping.Signals.Smc.Structure.{
  Scan, no_breaks, latest_unbroken, event, break_up, break_down, try_up, try_down, scan_bar,
  scan_from, detect_bos_and_choch,
}

module _ {ℓ} {W : Type ℓ} where
  -- How many of the events happen on bar j.
  abbrev pub events_at : (j : ℕ) → List (Event W) → ℕ
  events_at j [] = 0
  events_at j (e ∷ es) = (if e.bar_index == j then 1 else 0) + events_at j es

  events_at-append :
      (j : ℕ) (es ds : List (Event W)) → events_at j (es ++ ds) ≡ events_at j es + events_at j ds
  events_at-append j [] ds = omega arith
  events_at-append j (e ∷ es) ds = omega (arith, events_at-append j es ds)

  events_at-drop : (j n : ℕ) (es : List (Event W)) → events_at j (drop n es) ≤ events_at j es
  events_at-drop j zero es = omega arith
  events_at-drop j (suc n) [] = omega arith
  events_at-drop j (suc n) (e ∷ es) = omega (arith, events_at-drop j n es)

  abbrev breaks_at : (j : ℕ) → Scan W → ℕ
  breaks_at j st = events_at j st.bos_signals + events_at j st.choch_signals

module _ {ℓ} {W : Type ℓ} ⦃f : Float W⦄ where
  break_up-breaks_at :
      (j i k : ℕ) (s : Swing W) (st : Scan W)
      → breaks_at j (break_up i k s st) ≡ breaks_at j st + (if i == j then 1 else 0)
  unfolding break_up
  break_up-breaks_at j i k s st = ground (
    arith,
    events_at-append j st.bos_signals (event buy false i s ∷ []),
    events_at-append j st.choch_signals (event buy true i s ∷ []),
  )

  break_down-breaks_at :
      (j i k : ℕ) (s : Swing W) (st : Scan W)
      → breaks_at j (break_down i k s st) ≡ breaks_at j st + (if i == j then 1 else 0)
  unfolding break_down
  break_down-breaks_at j i k s st = ground (
    arith,
    events_at-append j st.bos_signals (event sell false i s ∷ []),
    events_at-append j st.choch_signals (event sell true i s ∷ []),
  )

  try_down-breaks_at :
      (cfg : SmcConfig W) (j i : ℕ) (c : Candle W) (low : Option (ℕ × Swing W)) (st : Scan W)
      → breaks_at j (try_down cfg i c low st) ≤ breaks_at j st + (if i == j then 1 else 0)
  unfolding try_down
  try_down-breaks_at cfg j i c none st = omega arith
  try_down-breaks_at cfg j i c (some (k, s)) st = ground (arith, break_down-breaks_at j i k s st)

  try_up-breaks_at :
      (cfg : SmcConfig W) (j i : ℕ) (c : Candle W) (high low : Option (ℕ × Swing W)) (st : Scan W)
      → breaks_at j (try_up cfg i c high low st) ≤ breaks_at j st + (if i == j then 1 else 0)
  unfolding try_up
  try_up-breaks_at cfg j i c none low st = try_down-breaks_at cfg j i c low st
  try_up-breaks_at cfg j i c (some (k, s)) low st =
      ground (arith, break_up-breaks_at j i k s st, try_down-breaks_at cfg j i c low st)

  scan_bar-breaks_at :
      (cfg : SmcConfig W) (highs lows : List (Swing W)) (j i : ℕ) (c : Option (Candle W))
      (st : Scan W)
      → breaks_at j (scan_bar cfg highs lows i c st) ≤ breaks_at j st + (if i == j then 1 else 0)
  unfolding scan_bar
  scan_bar-breaks_at cfg highs lows j i none st = omega arith
  scan_bar-breaks_at cfg highs lows j i (some c) st =
      try_up-breaks_at cfg j i c (latest_unbroken 0 st.used_highs i highs)
        (latest_unbroken 0 st.used_lows i lows) st

  -- Bar j is still to come and has no event, or it has one at most.
  scan_from-breaks_at :
      (cfg : SmcConfig W) (cs : List (Candle W)) (highs lows : List (Swing W)) (j i n : ℕ)
      (st : Scan W)
      → breaks_at j st + (if leb i j then 1 else 0) ≤ 1
      → breaks_at j (scan_from cfg cs highs lows i n st) ≤ 1
  unfolding scan_from
  scan_from-breaks_at cfg cs highs lows j i zero st h = omega arith
  scan_from-breaks_at cfg cs highs lows j i (suc n) st h =
      let c = get_elem? cs i in
      scan_from-breaks_at cfg cs highs lows j (i + 1) n (scan_bar cfg highs lows i c st)
        (ground (arith, scan_bar-breaks_at cfg highs lows j i c st))

  -- No bar has two of the structure breaks that are reported, BOS and CHoCH counted together.
  pub detect_bos_and_choch_once :
      (cs : List (Candle W)) (highs lows : List (Swing W)) (cfg : SmcConfig W) (j : ℕ)
      → let r = detect_bos_and_choch cs highs lows cfg in events_at j r.0 + events_at j r.1 ≤ 1
  unfolding detect_bos_and_choch
  detect_bos_and_choch_once cs highs lows cfg j =
      let i = cfg.swing_lookback in
      let st = scan_from cfg cs highs lows i (length cs - i) no_breaks in
      omega (
        arith,
        scan_from-breaks_at cfg cs highs lows j i (length cs - i) no_breaks (ground arith),
        events_at-drop j (last_start cfg.max_bos (length st.bos_signals)) st.bos_signals,
        events_at-drop j (last_start cfg.max_choch (length st.choch_signals)) st.choch_signals,
      )
