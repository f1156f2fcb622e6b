-- ===== src/Signals/Smc/Gaps.antt =====
-- live_trading/signals/smc_engine.py: `_detect_fvgs`.
use scalping.Prelude.{
  ℕ, suc, ◌+◌, Bool, true, false, ◌&&◌, ◌||◌, Option, none, some, List, [], ◌∷◌, ◌++◌, any, last_n,
  get_last?, if◌then◌else◌,
}
use scalping.Float.{Float, ◌⊖◌, ◌<?◌, ◌≤?◌}
use scalping.Market.{Candle, Trend, bullish, bearish}
use scalping.Signals.Smc.{SmcConfig}
pub mod Newest

pub record Fvg {ℓ} (W : Type ℓ) : Type ℓ where
  pub type : Trend
  pub top : W
  pub bottom : W
  pub bar_index : ℕ
  pub filled : Bool

module _ {ℓ} {W : Type ℓ} ⦃f : Float W⦄ where
  -- A candle reaches both edges of the gap from the low to the high one.
  abbrev pub reaches : (low high : W) → Candle W → Bool
  reaches low high c = (c.low ≤? high) && (low ≤? c.high)

  -- `filled`: a later candle reaches the gap, or the last candle of all does.
  abbrev is_filled : (low high : W) (later : List (Candle W)) (last : Candle W) → Bool
  is_filled low high later last = any (reaches low high) later || reaches low high last

  abbrev gap_of : Trend → (low high : W) (i : ℕ) (later : List (Candle W)) (last : Candle W) → Fvg W
  gap_of t low high i later last = record {
    type = t;
    top = f.round high 2;
    bottom = f.round low 2;
    bar_index = i;
    filled = is_filled low high later last;
  }

  -- The gaps between the first and the third of three candles, the middle one on bar i.
  gaps_at :
      SmcConfig W
      → (i : ℕ) (first third : Candle W) (later : List (Candle W)) (last : Candle W) → List (Fvg W)
  gaps_at cfg i c1 c3 later last =
      (if (c1.high <? c3.low) && (cfg.fvg_min_size ≤? c3.low ⊖ c1.high)
        then gap_of bullish c1.high c3.low i later last ∷ []
        else [])
      ++ (if (c3.high <? c1.low) && (cfg.fvg_min_size ≤? c1.low ⊖ c3.high)
          then gap_of bearish c3.high c1.low i later last ∷ []
          else [])

  -- The bars are counted from i, that of the second candle.
  gaps_from : SmcConfig W → (i : ℕ) → List (Candle W) → (last : Candle W) → List (Fvg W)
  gaps_from cfg i [] last = []
  gaps_from cfg i (c1 ∷ []) last = []
  gaps_from cfg i (c1 ∷ c2 ∷ []) last = []
  gaps_from cfg i (c1 ∷ c2 ∷ c3 ∷ later) last =
      gaps_at cfg i c1 c3 later last ++ gaps_from cfg (suc i) (c2 ∷ c3 ∷ later) last

  abbrev open_gaps : List (Fvg W) → List (Fvg W)
  open_gaps [] = []
  open_gaps (g ∷ gs) = if g.filled then open_gaps gs else g ∷ open_gaps gs

  all_gaps : SmcConfig W → List (Candle W) → Option (Candle W) → List (Fvg W)
  unfolding gaps_from
  all_gaps cfg cs none = []
  all_gaps cfg cs (some last) = gaps_from cfg 1 cs last

  pub detect_fvgs : List (Candle W) → SmcConfig W → List (Fvg W)
  unfolding all_gaps
  detect_fvgs cs cfg = last_n cfg.max_fvgs (open_gaps (all_gaps cfg cs (get_last? cs)))
