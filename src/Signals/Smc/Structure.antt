-- ===== src/Signals/Smc/Structure.antt =====
-- live_trading/signals/smc_engine.py: `_detect_bos_and_choch`.
use scalping.Prelude.{
  ℕ, zero, suc, ◌+◌, ◌-◌, Bool, true, false, not, ◌&&◌, Option, none, some, List, [], ◌∷◌, ◌++◌,
  all, last_n, length, leb, ltb, if◌then◌else◌,
}
use scalping.Float.{Float, ◌⊖◌, ◌⊗◌, ◌≤?◌}
use scalping.Market.{
  Candle, Direction, buy, sell, Trend, bullish, bearish, flat, same_direction, same_trend,
}
use scalping.Signals.Decision.{Event}
use scalping.Signals.Smc.{SmcConfig, Swing, get_elem?, member, body_ratio}
pub mod Once
mod Tests

-- The variables of the scan over the bars.
pub record Scan {ℓ} (W : Type ℓ) : Type ℓ where
  pub bos_signals : List (Event W)
  pub choch_signals : List (Event W)
  pub used_highs : List ℕ
  pub used_lows : List ℕ
  pub local_trend : Trend
  pub recent_bos_dir : List Direction

module _ {ℓ} {W : Type ℓ} where
  abbrev pub no_breaks : Scan W
  no_breaks = record {
    bos_signals = [];
    choch_signals = [];
    used_highs = [];
    used_lows = [];
    local_trend = flat;
    recent_bos_dir = [];
  }

  -- The last swing point before bar i that is not used, with its position, counted from k.
  latest_unbroken : (k : ℕ) (used : List ℕ) (i : ℕ) → List (Swing W) → Option (ℕ × Swing W)
  latest_unbroken k used i [] = none
  latest_unbroken k used i (s ∷ ss) = elim (latest_unbroken (suc k) used i ss) [
    | some r ↦ some r
    | none ↦ if ltb s.bar_index i && not (member k used) then some (k, s) else none
  ]

-- The last two breaks went in the direction.
abbrev two_last : Direction → List Direction → Bool
two_last d ds = leb 2 (length ds) && all (same_direction d) (last_n 2 ds)

module _ {ℓ} {W : Type ℓ} ⦃f : Float W⦄ where
  -- A body of this share of its candle breaks the structure; less is needed against the trend.
  min_body : SmcConfig W → (against : Trend) → Scan W → W
  min_body cfg against st =
      if same_trend st.local_trend against
      then cfg.min_bos_body_ratio ⊗ f.dec 8 1
      else cfg.min_bos_body_ratio

  abbrev event : Direction → Bool → (i : ℕ) → Swing W → Event W
  event d choch i s = record {
    type = d;
    price = f.round s.level 2;
    bar_index = i;
    is_choch = choch;
  }

  -- A CHoCH against the trend, which it ends, and a BOS otherwise. Two BOS make a trend.
  break_up : (i k : ℕ) → Swing W → Scan W → Scan W
  break_up i k s st =
      if same_trend st.local_trend bearish
      then record st {
        choch_signals = st.choch_signals ++ event buy true i s ∷ [];
        local_trend = flat;
        recent_bos_dir = [];
        used_highs = k ∷ st.used_highs;
      }
      else record st {
        bos_signals = st.bos_signals ++ event buy false i s ∷ [];
        recent_bos_dir = st.recent_bos_dir ++ buy ∷ [];
        local_trend =
            if two_last buy (st.recent_bos_dir ++ buy ∷ []) then bullish else st.local_trend;
        used_highs = k ∷ st.used_highs;
      }

  break_down : (i k : ℕ) → Swing W → Scan W → Scan W
  break_down i k s st =
      if same_trend st.local_trend bullish
      then record st {
        choch_signals = st.choch_signals ++ event sell true i s ∷ [];
        local_trend = flat;
        recent_bos_dir = [];
        used_lows = k ∷ st.used_lows;
      }
      else record st {
        bos_signals = st.bos_signals ++ event sell false i s ∷ [];
        recent_bos_dir = st.recent_bos_dir ++ sell ∷ [];
        local_trend =
            if two_last sell (st.recent_bos_dir ++ sell ∷ []) then bearish else st.local_trend;
        used_lows = k ∷ st.used_lows;
      }

  -- The bearish break is tried only where no bullish one has happened on the bar.
  try_down : SmcConfig W → (i : ℕ) → Candle W → Option (ℕ × Swing W) → Scan W → Scan W
  try_down cfg i c none st = st
  try_down cfg i c (some (k, s)) st =
      if (cfg.min_break_distance ≤? s.level ⊖ c.close) && (min_body cfg bullish st ≤? body_ratio c)
      then break_down i k s st
      else st

  try_up : SmcConfig W → (i : ℕ) → Candle W → (high low : Option (ℕ × Swing W)) → Scan W → Scan W
  try_up cfg i c none low st = try_down cfg i c low st
  try_up cfg i c (some (k, s)) low st =
      if (cfg.min_break_distance ≤? c.close ⊖ s.level) && (min_body cfg bearish st ≤? body_ratio c)
      then break_up i k s st
      else try_down cfg i c low st

  scan_bar :
      SmcConfig W → (highs lows : List (Swing W)) (i : ℕ) → Option (Candle W) → Scan W → Scan W
  scan_bar cfg highs lows i none st = st
  scan_bar cfg highs lows i (some c) st =
      try_up cfg i c (latest_unbroken 0 st.used_highs i highs)
        (latest_unbroken 0 st.used_lows i lows) st

  -- `for i in range(...)`, over n indices from i.
  scan_from :
      SmcConfig W → List (Candle W) → (highs lows : List (Swing W)) (i n : ℕ) → Scan W → Scan W
  scan_from cfg cs highs lows i zero st = st
  scan_from cfg cs highs lows i (suc n) st =
      scan_from cfg cs highs lows (i + 1) n (scan_bar cfg highs lows i (get_elem? cs i) st)

  -- The last BOS, the last CHoCH, and the trend.
  pub detect_bos_and_choch :
      List (Candle W)
      → (highs lows : List (Swing W)) → SmcConfig W
      → List (Event W) × List (Event W) × Trend
  detect_bos_and_choch cs highs lows cfg =
      let st =
        scan_from cfg cs highs lows cfg.swing_lookback (length cs - cfg.swing_lookback) no_breaks in
      (last_n cfg.max_bos st.bos_signals, last_n cfg.max_choch st.choch_signals, st.local_trend)
