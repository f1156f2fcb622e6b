-- ===== src/Signals/Smc/Sweeps.antt =====
-- live_trading/signals/smc_engine.py: `_detect_liquidity_sweeps`.
use scalping.Prelude.{
  ℕ, zero, suc, ◌+◌, ◌-◌, Bool, ◌&&◌, Option, none, some, List, [], ◌∷◌, ◌++◌, any, last_n, length,
  leb, ltb, if◌then◌else◌,
}
use scalping.Float.{Float, ◌⊖◌, ◌<?◌, ◌≤?◌}
use scalping.Market.{Candle, Trend, bullish, bearish, same_trend}
use scalping.Signals.Smc.{SmcConfig, Swing, get_elem?}
pub mod Silent

pub record Sweep {ℓ} (W : Type ℓ) : Type ℓ where
  pub type : Trend
  pub swept_level : W
  pub wick_extreme : W
  pub bar_index : ℕ

module _ {ℓ} {W : Type ℓ} where
  -- The last of the swing points in the lookback before bar i whose level is swept.
  swept : (takes : W → Bool) (lookback i : ℕ) → List (Swing W) → Option (Swing W)
  swept takes lookback i [] = none
  swept takes lookback i (s ∷ ss) = elim (swept takes lookback i ss) [
    | some r ↦ some r
    | none ↦
        if leb (i - lookback) s.bar_index && ltb s.bar_index i && takes s.level
        then some s
        else none
  ]

module _ {ℓ} {W : Type ℓ} ⦃f : Float W⦄ where
  -- A wick below the level, a close above it, and a rising candle; and the mirror image.
  abbrev pub sweeps_low : SmcConfig W → Candle W → W → Bool
  sweeps_low cfg c level =
      (cfg.liquidity_sweep_min ≤? level ⊖ c.low)
      && (cfg.min_sweep_close_margin ≤? c.close ⊖ level)
      && (c.open_price <? c.close)

  abbrev pub sweeps_high : SmcConfig W → Candle W → W → Bool
  sweeps_high cfg c level =
      (cfg.liquidity_sweep_min ≤? c.high ⊖ level)
      && (cfg.min_sweep_close_margin ≤? level ⊖ c.close)
      && (c.close <? c.open_price)

  add_sweep : Trend → (wick : W) (i : ℕ) → Option (Swing W) → List (Sweep W) → List (Sweep W)
  add_sweep t wick i none sweeps = sweeps
  add_sweep t wick i (some s) sweeps =
      if any (λ w. same_trend w.type t && (f.abs (w.swept_level ⊖ s.level) <? f.dec 5 2)) sweeps
      then sweeps
      else sweeps
        ++ record {
          type = t;
          swept_level = f.round s.level 2;
          wick_extreme = f.round wick 2;
          bar_index = i;
        }
          ∷ []

  sweeps_at :
      SmcConfig W
      → Candle W
      → (i : ℕ) (highs lows : List (Swing W)) → List (Sweep W)
      → List (Sweep W)
  unfolding add_sweep
  sweeps_at cfg c i highs lows sweeps =
      add_sweep bearish c.high i (swept (sweeps_high cfg c) cfg.swing_lookback i highs)
        (add_sweep bullish c.low i (swept (sweeps_low cfg c) cfg.swing_lookback i lows) sweeps)

  -- `for i in range(...)`, over n indices from i.
  sweeps_from :
      SmcConfig W
      → List (Candle W)
      → (highs lows : List (Swing W)) (i n : ℕ) → List (Sweep W)
      → List (Sweep W)
  sweeps_from cfg cs highs lows i zero sweeps = sweeps
  sweeps_from cfg cs highs lows i (suc n) sweeps =
      sweeps_from cfg cs highs lows (i + 1) n
        (elim (get_elem? cs i) [ none ↦ sweeps | some c ↦ sweeps_at cfg c i highs lows sweeps ])

  unfoldable pub detect_liquidity_sweeps :
      List (Candle W) → (highs lows : List (Swing W)) → SmcConfig W → List (Sweep W)
  unfolding swept sweeps_at sweeps_from
  detect_liquidity_sweeps cs highs lows cfg =
      last_n cfg.max_sweeps
        (sweeps_from cfg cs highs lows cfg.swing_lookback (length cs - cfg.swing_lookback) [])
