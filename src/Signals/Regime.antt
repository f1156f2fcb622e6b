-- ===== src/Signals/Regime.antt =====
-- live_trading/signals/market_regime.py: the regime of the market and the rules of entry in it.
use scalping.Prelude.{
  ℕ, ◌-◌, ◌*◌, min, Bool, true, false, ◌&&◌, Option, none, some, List, [], ◌∷◌, map, take, drop,
  last_n, length, get_last?, ltb, if◌then◌else◌,
}
use scalping.Float.{Float, ◌⊕◌, ◌⊖◌, ◌⊗◌, ◌⊘◌, ◌<?◌, ◌≤?◌, nought, sum_from}
use scalping.Market.{
  Candle, Direction, buy, sell, neutral, Trend, bullish, bearish, flat, Strength, strong, Regime,
  strong_trend_bull, strong_trend_bear, weak_trend_bull, weak_trend_bear, pullback_bull,
  pullback_bear, range, accumulation, distribution, high_volatility, low_volatility, same_trend,
}
use scalping.Signals.Decision.{RegimeEntryRules}
use scalping.Signals.Indicators.{true_range, true_ranges}
use scalping.Signals.Smc.{get_elem?}
use scalping.Signals.Trend.{TrendResult}
pub mod Sides
mod Tests

-- `phase` of `WyckoffResult`.
pub data Phase : Type 0 where
  accumulating distributing no_phase : Phase

-- NORMAL_MIN_CONFIDENCE and RANGE_MIN_CONFIDENCE of the configuration.
pub record Thresholds {ℓ} (W : Type ℓ) : Type ℓ where
  pub normal_min_confidence : W
  pub range_min_confidence : W

pub record RegimeResult {ℓ} (W : Type ℓ) : Type ℓ where
  pub regime : Regime
  pub rules : RegimeEntryRules W
  pub atr : W
  pub atr_mean : W
  pub atr_ratio : W
  pub adx : W

-- A true range with the directional moves up and down.
pub record Move {ℓ} (W : Type ℓ) : Type ℓ where
  pub tr : W
  pub dm_p : W
  pub dm_m : W

abbrev has_strength : Strength → Bool
has_strength strong = true
has_strength _ = false

abbrev falls_back : Direction → Option Direction → Bool
falls_back buy (some buy) = true
falls_back sell (some sell) = true
falls_back _ _ = false

abbrev of_phase : Phase → Regime
of_phase accumulating = accumulation
of_phase distributing = distribution
of_phase no_phase = range

module _ {ℓ} {W : Type ℓ} ⦃f : Float W⦄ where
  -- `REGIME_RULES`: the risk-reward ratio in tenths, and the sides allowed.
  abbrev rule : (min_confidence : W) (rr : ℕ) (long short : Bool) → RegimeEntryRules W
  rule conf rr long short = record {
    min_confidence = conf;
    min_rr = f.dec rr 1;
    allow_long = long;
    allow_short = short;
  }

  abbrev pub regime_rules : Thresholds W → Regime → RegimeEntryRules W
  regime_rules t strong_trend_bull = rule t.normal_min_confidence 15 true false
  regime_rules t strong_trend_bear = rule t.normal_min_confidence 15 false true
  regime_rules t weak_trend_bull = rule t.normal_min_confidence 15 true false
  regime_rules t weak_trend_bear = rule t.normal_min_confidence 15 false true
  regime_rules t pullback_bull = rule t.normal_min_confidence 18 true false
  regime_rules t pullback_bear = rule t.normal_min_confidence 18 false true
  regime_rules t range = rule t.range_min_confidence 20 true true
  regime_rules t accumulation = rule t.normal_min_confidence 18 true false
  regime_rules t distribution = rule t.normal_min_confidence 18 false true
  regime_rules t high_volatility = rule t.normal_min_confidence 20 true true
  regime_rules t low_volatility = rule t.normal_min_confidence 15 true true

  -- The average of the last n values, or of all where there are fewer.
  mean_last : (n : ℕ) → List W → W
  unfolding sum_from
  mean_last n xs = sum_from nought (last_n n xs) ⊘ f.dec (min n (length xs)) 0

  ratio_of : (atr atr_mean : W) → W
  ratio_of atr mean = if nought <? mean then f.round (atr ⊘ mean) 3 else f.dec 10 1

  -- The average of five ranges, that of the period, and their ratio.
  atr_values_of : (trs : List W) (period : ℕ) → W × W × W
  unfolding mean_last ratio_of
  atr_values_of [] n = (nought, nought, f.dec 10 1)
  atr_values_of (t ∷ ts) n =
      let atr = mean_last 5 (t ∷ ts) in
      let mean = mean_last n (t ∷ ts) in (atr, mean, ratio_of atr mean)

  calc_atr_values : List (Candle W) → (period : ℕ) → W × W × W
  unfolding atr_values_of
  calc_atr_values candles period = atr_values_of (true_ranges candles) period

  move_of : (current previous : Candle W) → Move W
  move_of c p =
      let up = c.high ⊖ p.high in
      let dn = p.low ⊖ c.low in
      record {
        tr = true_range c p;
        dm_p = if (dn <? up) && (nought <? up) then up else nought;
        dm_m = if (up <? dn) && (nought <? dn) then dn else nought;
      }

  moves_of : List (Candle W) → List (Move W)
  unfolding move_of
  moves_of [] = []
  moves_of (p ∷ []) = []
  moves_of (p ∷ c ∷ cs) = move_of c p ∷ moves_of (c ∷ cs)

  -- `s - s / period + x`.
  abbrev wilder_sum : (period : ℕ) (s x : W) → W
  wilder_sum period s x = s ⊖ s ⊘ f.dec period 0 ⊕ x

  abbrev percent_of : (part whole : W) → W
  percent_of part whole = if nought <? whole then f.dec 100 0 ⊗ part ⊘ whole else nought

  dx_of : Move W → W
  dx_of s =
      let di_p = percent_of s.dm_p s.tr in
      let di_m = percent_of s.dm_m s.tr in percent_of (f.abs (di_p ⊖ di_m)) (di_p ⊕ di_m)

  -- `dx_arr`, from the smoothed sums.
  dx_from : (period : ℕ) → Move W → List (Move W) → List W
  unfolding dx_of
  dx_from period s [] = []
  dx_from period s (x ∷ xs) =
      let s' : Move W = record {
        tr = wilder_sum period s.tr x.tr;
        dm_p = wilder_sum period s.dm_p x.dm_p;
        dm_m = wilder_sum period s.dm_m x.dm_m;
      } in
      dx_of s' ∷ dx_from period s' xs

  first_sums : (period : ℕ) → List (Move W) → Move W
  unfolding sum_from
  first_sums period ms = record {
    tr = sum_from nought (map (λ x. x.tr) (take period ms));
    dm_p = sum_from nought (map (λ x. x.dm_p) (take period ms));
    dm_m = sum_from nought (map (λ x. x.dm_m) (take period ms));
  }

  adx_of : (period : ℕ) → List W → W
  unfolding sum_from
  adx_of period dx =
      if ltb (length dx) period
      then f.dec 20 0
      else f.round (sum_from nought (last_n period dx) ⊘ f.dec period 0) 2

  pub calc_adx : List (Candle W) → (period : ℕ) → W
  unfolding adx_of dx_from first_sums moves_of
  calc_adx candles period =
      let ms = moves_of candles in
      if ltb (length candles) (period * 2)
      then f.dec 20 0
      else adx_of period (dx_from period (first_sums period ms) (drop period ms))

  abbrev pull : Trend → (now prev : W) → Option Direction
  pull t now prev =
      if same_trend t bullish && (now <? prev ⊗ f.dec 9997 4)
      then some buy
      else if same_trend t bearish && (prev ⊗ f.dec 10003 4 <? now)
      then some sell
      else none

  abbrev pull_of : Trend → (now prev : Option (Candle W)) → Option Direction
  pull_of t none prev = none
  pull_of t (some c) none = none
  pull_of t (some c) (some p) = pull t c.close p.close

  -- `_detect_pullback`: the side of the trend in which the market falls back.
  unfoldable pub detect_pullback : List (Candle W) → TrendResult W → Option Direction
  detect_pullback candles trend =
      if ltb (length candles) 10
      then none
      else pull_of trend.trend (get_last? candles) (get_elem? candles (length candles - 6))

  regime_of :
      (use_atr_high_vol : Bool) (atr_ratio adx : W)
      → TrendResult W
      → (pull : Option Direction) → Phase
      → Regime
  regime_of high_vol ratio adx t p phase =
      if high_vol && (f.dec 18 1 <? ratio)
      then high_volatility
      else if (ratio <? f.dec 60 2) && (adx <? f.dec 20 0)
      then low_volatility
      else if (f.dec 30 0 ≤? adx) && has_strength t.strength && same_trend t.trend bullish
      then strong_trend_bull
      else if (f.dec 30 0 ≤? adx) && has_strength t.strength && same_trend t.trend bearish
      then strong_trend_bear
      else if falls_back buy p && (f.dec 20 0 ≤? adx)
      then pullback_bull
      else if falls_back sell p && (f.dec 20 0 ≤? adx)
      then pullback_bear
      else if (f.dec 20 0 ≤? adx) && same_trend t.trend bullish
      then weak_trend_bull
      else if (f.dec 20 0 ≤? adx) && same_trend t.trend bearish
      then weak_trend_bear
      else of_phase phase

  unfoldable pub detect_market_regime :
      Thresholds W
      → List (Candle W)
      → TrendResult W
      → Phase
      → (use_atr_high_vol : Bool) → RegimeResult W
  unfolding regime_of calc_atr_values calc_adx
  detect_market_regime th candles t phase high_vol =
      let (atr, mean, ratio) = calc_atr_values candles 20 in
      let adx = calc_adx candles 14 in
      let regime = regime_of high_vol ratio adx t (detect_pullback candles t) phase in
      record {
        regime = regime;
        rules = regime_rules th regime;
        atr = atr;
        atr_mean = mean;
        atr_ratio = ratio;
        adx = adx;
      }
