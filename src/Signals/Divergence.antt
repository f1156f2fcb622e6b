-- ===== src/Signals/Divergence.antt =====
-- live_trading/signals/divergence_engine.py, with the series of the RSI and the MACD of
-- live_trading/signals/gold_engine.py. Divergence/Pivots has the turning points.
use scalping.Prelude.{
  ℕ, zero, suc, ◌+◌, ◌-◌, ◌*◌, Bool, true, false, not, ◌&&◌, ◌||◌, Option, none, some, List, [],
  ◌∷◌, ◌++◌, map, take, drop, last_n, length, get_last?, but_last, or_else, leb, ltb, ◌==◌,
  if◌then◌else◌,
}
use scalping.Float.{Float, ◌⊖◌, ◌<?◌, ◌≤?◌, nought}
use scalping.Market.{Candle, Trend, bullish, bearish, flat, same_trend}
use scalping.Signals.Indicators.{
  average, wilder_step, replicate, rises, rsi_of, smooth_all, calc_ema_array,
}
use scalping.Signals.Smc.{get_elem?}
pub mod Apart
mod Tests

pub record DivergenceResult {ℓ} (W : Type ℓ) : Type ℓ where
  pub rsi_signal : Trend
  pub macd_signal : Trend
  pub signal : Trend
  pub score : W

module _ {ℓ} {A : Type ℓ} where
  abbrev holds_of : (A → Bool) → Option A → Bool
  holds_of p none = false
  holds_of p (some x) = p x

module _ {ℓ} {W : Type ℓ} ⦃f : Float W⦄ where
  abbrev pairs_with : (W → W → W) → List W → List W → List W
  pairs_with op [] ys = []
  pairs_with op (x ∷ xs) [] = []
  pairs_with op (x ∷ xs) (y ∷ ys) = op x y ∷ pairs_with op xs ys

  -- The RSI at every bar: 50 until the first average.
  calc_rsi_array : (closes : List W) (period : ℕ) → List W
  unfolding rises average smooth_all rsi_of
  calc_rsi_array closes period =
      if ltb (length closes) (period + 1)
      then map (λ c. f.dec 50 0) closes
      else (let gains = rises (λ x y. y ⊖ x) closes in
          let losses = rises (λ x y. x ⊖ y) closes in
          let avg_g = average period gains in
          let avg_l = average period losses in
          replicate period (f.dec 50 0)
          ++ rsi_of avg_g avg_l
            ∷ pairs_with rsi_of (smooth_all (wilder_step period) avg_g (drop period gains))
                (smooth_all (wilder_step period) avg_l (drop period losses)))

  -- The first of the three lists of `calc_macd_array`; the others are not read here.
  abbrev macd_line : (closes : List W) (fast slow : ℕ) → List W
  macd_line closes fast slow =
      pairs_with (λ x y. x ⊖ y) (calc_ema_array closes fast) (calc_ema_array closes slow)

  -- `values[i] <= values[k]` for lows, `>=` for highs, up to `gap` bars on both sides.
  is_pivot : (behind : W → W → Bool) → List W → (i gap : ℕ) → (v : W) → Bool
  is_pivot behind values i zero v = true
  is_pivot behind values i (suc j) v =
      holds_of (behind v) (get_elem? values (i - suc j))
      && holds_of (behind v) (get_elem? values (i + suc j))
      && is_pivot behind values i j v

  -- The indices from i on, for n rounds: the last pivot, if any, is `gap` bars back at least.
  pivots_from : (behind : W → W → Bool) (gap : ℕ) → List W → (last : Option ℕ) (i n : ℕ) → List ℕ
  unfolding is_pivot
  pivots_from behind gap values last i zero = []
  pivots_from behind gap values last i (suc n) =
      let keep =
        holds_of (is_pivot behind values i gap) (get_elem? values i)
        && not (holds_of (λ p. ltb (i - p) gap) last) in
      let rest = pivots_from behind gap values (if keep then some i else last) (i + 1) n in
      if keep then i ∷ rest else rest

  pub pivots : (behind : W → W → Bool) → List W → (gap : ℕ) → List ℕ
  unfolding pivots_from
  pivots behind values gap = pivots_from behind gap values none gap (length values - gap - gap)

  abbrev pivot_lows : List W → (gap : ℕ) → List ℕ
  pivot_lows values gap = pivots (λ v x. v ≤? x) values gap

  abbrev pivot_highs : List W → (gap : ℕ) → List ℕ
  pivot_highs values gap = pivots (λ v x. x ≤? v) values gap

  -- The values at the last two pivots.
  last_two : List W → List ℕ → Option (W × W)
  last_two values [] = none
  last_two values (p ∷ []) = none
  last_two values (p ∷ q ∷ []) = elim (get_elem? values p) [
    | none ↦ none
    | some x ↦ elim (get_elem? values q) [ none ↦ none | some y ↦ some (x, y) ]
  ]
  last_two values (p ∷ q ∷ r ∷ ps) = last_two values (q ∷ r ∷ ps)

  -- The price goes one way and the oscillator the other.
  parts : (price_goes osc_goes : W → W → Bool) → (price osc : Option (W × W)) → Bool
  parts pg og none osc = false
  parts pg og (some p) none = false
  parts pg og (some p) (some o) = pg p.0 p.1 && og o.0 o.1

  divergence : (price_slice osc_slice : List W) (gap : ℕ) → Trend
  unfolding last_two parts
  divergence price osc gap =
      let lows =
        parts (λ x y. y <? x) (λ x y. x <? y) (last_two price (pivot_lows price gap))
          (last_two osc (pivot_lows osc gap)) in
      let highs =
        parts (λ x y. x <? y) (λ x y. y <? x) (last_two price (pivot_highs price gap))
          (last_two osc (pivot_highs osc gap)) in
      if not (length price == length osc) || ltb (length price) (gap * 2 + 3)
      then flat
      else if lows
      then bullish
      else if highs
      then bearish
      else flat

  abbrev pub no_divergence : DivergenceResult W
  no_divergence = record { rsi_signal = flat; macd_signal = flat; signal = flat; score = nought }

  abbrev verdict : (rsi macd : Trend) → DivergenceResult W
  verdict rsi macd =
      let rsi_speaks = not (same_trend rsi flat) in
      let macd_speaks = not (same_trend macd flat) in
      let both = rsi_speaks && macd_speaks && same_trend rsi macd in
      record {
        rsi_signal = rsi;
        macd_signal = macd;
        signal = if rsi_speaks then rsi else macd;
        score =
            if both
            then f.dec 100 1
            else if rsi_speaks
            then f.dec 70 1
            else if macd_speaks
            then f.dec 50 1
            else nought;
      }

  pub analyze_divergence : List (Candle W) → DivergenceResult W
  unfolding calc_rsi_array divergence
  analyze_divergence candles =
      let closes = map (λ c. c.close) candles in
      let price = last_n 30 closes in
      let rsi = calc_rsi_array closes 14 in
      let macd = macd_line closes 12 26 in
      if ltb (length candles) 40
      then no_divergence
      else if ltb (length rsi) 30 || ltb (length macd) 30
      then no_divergence
      else verdict (divergence price (last_n 30 rsi) 5) (divergence price (last_n 30 macd) 5)
