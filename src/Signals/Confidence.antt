-- ===== src/Signals/Confidence.antt =====
-- live_trading/signals/confidence_engine.py: the confidence of an entry. Scores that are whole numbers
-- are counted as such.
use scalping.Prelude.{
  ℕ, zero, suc, ◌+◌, ◌-◌, ◌*◌, min, Bool, true, false, not, ◌&&◌, ◌||◌, Option, none, some, List,
  [], ◌∷◌, any, length, get_last?, leb, ltb, ◌==◌, if◌then◌else◌,
}
use scalping.Float.{Float, ◌⊕◌, ◌⊖◌, ◌⊗◌, ◌⊘◌, ◌<?◌, ◌≤?◌, nought, max_of, min_of}
use scalping.Market.{
  Direction, buy, sell, neutral, Trend, bullish, bearish, flat, Strength, strong, is_buy, is_sell,
  same_direction, same_trend, trend_of,
}
use scalping.Signals.Decision.{Event}
use scalping.Signals.Smc.Blocks.{Block}
use scalping.Signals.Smc.Gaps.{Fvg}
use scalping.Signals.Smc.Sweeps.{Sweep}
use scalping.Signals.Smc.Analyze.{SmcStructure}
use scalping.Signals.Trend.{TrendResult}
use scalping.Signals.Range.{Reversals}
pub mod Bounds
mod Tests

-- What the score reads of `PriceActionResult`, the sides of the candidate only.
pub record Patterns : Type 0 where
  pub engulf : Bool
  pub pin_bar : Bool
  pub strong_candle : Bool
  pub valid_breakout : Bool
  pub pullback : Bool
  pub near_zone : Bool
  pub near_level : Bool
  pub fake_breakout : Bool

pub record Wyckoff {ℓ} (W : Type ℓ) : Type ℓ where
  pub signal : Direction
  pub score : W
  pub spring : Bool
  pub upthrust : Bool
  pub volume_confirmed : Bool

-- `get_session_quality`: "PRIME", "MODERATE" or "BLOCKED".
pub data Session : Type 0 where
  prime moderate_session blocked : Session

pub data Grade : Type 0 where
  prime_grade high marginal rejected : Grade

-- `ConfidenceComponents`.
pub record Components {ℓ} (W : Type ℓ) : Type ℓ where
  pub smc_score : W
  pub trend_score : W
  pub pa_score : W
  pub wyckoff_score : W
  pub liquidity_score : W
  pub volatility_score : W
  pub total : W
  pub divergence_score : W

-- Points if a test passes.
abbrev points : ℕ → Bool → ℕ
points n true = n
points n false = 0

-- How many pass, as the code distinguishes them.
abbrev tiers : (two one count : ℕ) → ℕ
tiers two one n = if leb 2 n then two else points one (n == 1)

module _ {ℓ} {W : Type ℓ} where
  abbrev events_of : Direction → List (Event W) → ℕ
  events_of d [] = 0
  events_of d (e ∷ es) = points 1 (same_direction e.type d) + events_of d es

  abbrev gaps_of : Trend → List (Fvg W) → ℕ
  gaps_of t [] = 0
  gaps_of t (g ∷ gs) = points 1 (same_trend g.type t) + gaps_of t gs

  abbrev last_event_is : Direction → Option (Event W) → Bool
  last_event_is d none = false
  last_event_is d (some e) = same_direction e.type d

  abbrev last_sweep_is : Trend → Option (Sweep W) → Bool
  last_sweep_is t none = false
  last_sweep_is t (some s) = same_trend s.type t

  abbrev sweeps_of : Trend → List (Sweep W) → Bool
  sweeps_of t ss = any (λ s. same_trend s.type t) ss

-- `_calc_pa_score`: what falls below zero is cut off at the end.
pub pa_points : Patterns → ℕ
pa_points pa =
    (if pa.engulf then 4 else if pa.pin_bar then 3 else points 2 pa.strong_candle)
    + points 2 pa.valid_breakout
    + points 1 pa.pullback
    + points 1 (pa.near_zone || pa.near_level)
    - points 6 pa.fake_breakout

module _ {ℓ} {W : Type ℓ} ⦃f : Float W⦄ where
  cap : (val max_val : W) → W
  unfolding max_of min_of
  cap val max_val = max_of nought (min_of max_val val)

  -- Up to two blocks of the side, four points for a block that is half body.
  block_points : Trend → (left : ℕ) → List (Block W) → ℕ
  unfolding max_of
  block_points t zero obs = 0
  block_points t (suc n) [] = 0
  block_points t (suc n) (ob ∷ obs) =
      let range = max_of (ob.high ⊖ ob.low) (f.dec 1 2) in
      let body = f.abs (ob.close ⊖ ob.open_price) in
      let hit = (if f.dec 5 1 ≤? body ⊘ range then 4 else 3) + block_points t n obs in
      let miss = block_points t (suc n) obs in if same_trend ob.type t then hit else miss

  pub smc_points : SmcStructure W → Direction → ℕ
  unfolding block_points
  smc_points smc d =
      let t = trend_of d in
      min 35 (
        points 4 (same_trend smc.trend t)
        + tiers 7 5 (events_of d smc.bos_signals)
        + points 8 (last_event_is d (get_last? smc.choch_signals))
        + min 8 (block_points t 2 smc.order_blocks)
        + tiers 4 2 (gaps_of t smc.fair_value_gaps)
        + points 4 (last_sweep_is t (get_last? smc.liquidity_sweeps)))

  pub trend_points : TrendResult W → Direction → ℕ
  trend_points t d =
      if same_trend t.trend (trend_of d)
      then (elim t.strength [ strong ↦ 20 | _ ↦ 14 ])
      else points 7 (same_trend t.trend flat)

  calc_wyckoff_score : Wyckoff W → Direction → W
  calc_wyckoff_score w d =
      if not (same_direction w.signal d)
      then nought
      else cap
          (w.score ⊗ f.dec 8 0
            ⊕ (if is_buy d && w.spring then f.dec 4 0 else nought)
            ⊕ (if is_sell d && w.upthrust then f.dec 4 0 else nought)
            ⊕ (if w.volume_confirmed then f.dec 3 0 else nought))
          (f.dec 15 0)

  -- In quarters of a point.
  pub liquidity_quarters : SmcStructure W → Direction → ℕ
  liquidity_quarters smc d =
      let swept = sweeps_of (trend_of d) smc.liquidity_sweeps in
      let levels = if is_buy d then length smc.equal_lows else length smc.equal_highs in
      min 20 (
        points 10 swept
        + tiers 6 3 levels
        + points 4 (swept && any (λ b. same_direction b.type d) smc.bos_signals))

  pub volatility_quarters : (adx atr_ratio : W) → Session → ℕ
  volatility_quarters adx ratio session = min 20 (
      (elim session [ prime ↦ 10 | moderate_session ↦ 4 | blocked ↦ 0 ])
      + (if f.dec 30 0 ≤? adx then 6 else points 3 (f.dec 20 0 ≤? adx))
      + (if (f.dec 8 1 ≤? ratio) && (ratio ≤? f.dec 15 1)
          then 4
          else points 2 (f.dec 15 1 <? ratio)))

  divergence_score : (divergence : Trend) → Direction → W
  divergence_score v d =
      if same_trend v flat
      then nought
      else if same_trend v (trend_of d)
      then f.dec 10 0
      else f.neg (f.dec 5 0)

  -- A number of quarters as a float.
  abbrev quarters : ℕ → W
  quarters n = f.dec (n * 25) 2

  pub calc_confidence :
      SmcStructure W
      → Wyckoff W
      → Patterns
      → TrendResult W
      → (adx atr_ratio : W) → Session
      → Direction
      → (divergence : Trend) → Components W
  unfolding calc_wyckoff_score divergence_score max_of min_of
  calc_confidence smc w pa t adx ratio session d v =
      let smc_s = f.dec (smc_points smc d) 0 in
      let tr_s = f.dec (trend_points t d) 0 in
      let pa_s = f.dec (min 20 (pa_points pa)) 0 in
      let wy_s = calc_wyckoff_score w d in
      let liq_s = quarters (liquidity_quarters smc d) in
      let vol_s = quarters (volatility_quarters adx ratio session) in
      let div_s = divergence_score v d in
      let raw_total = smc_s ⊕ tr_s ⊕ pa_s ⊕ wy_s ⊕ liq_s ⊕ vol_s ⊕ div_s in
      record {
        smc_score = smc_s;
        trend_score = tr_s;
        pa_score = pa_s;
        wyckoff_score = wy_s;
        liquidity_score = liq_s;
        volatility_score = vol_s;
        total = f.round (min_of (f.dec 100 0) (max_of nought raw_total)) 1;
        divergence_score = max_of nought div_s;
      }

  pub assign_grade : (confidence min_conf conf_hard_min : W) → Grade
  assign_grade c min_conf hard =
      if f.dec 90 0 ≤? c
      then prime_grade
      else if min_conf ≤? c
      then high
      else if hard ≤? c
      then marginal
      else rejected
