-- ===== src/Signals/Indicators.antt =====
-- live_trading/signals/gold_engine.py: the moving average, the average true range and the RSI, of the
-- last bar and at every bar.
use scalping.Prelude.{
  ℕ, zero, suc, ◌+◌, ◌-◌, min, Bool, true, false, List, [], ◌∷◌, ◌++◌, map, length, take, drop,
  get_last?, or_else, ltb, ◌&&◌, if◌then◌else◌,
}
use scalping.Float.{Float, ◌⊕◌, ◌⊖◌, ◌⊗◌, ◌⊘◌, ◌≤?◌, nought, max_of, sum_from}
use scalping.Market.{Candle}
mod Series
mod Tests

module _ {ℓ} {A : Type ℓ} where
  abbrev pub replicate : ℕ → A → List A
  replicate zero x = []
  replicate (suc n) x = x ∷ replicate n x

module _ {ℓ} {W : Type ℓ} ⦃f : Float W⦄ where
  -- `sum(xs[:n]) / n`.
  unfoldable pub average : ℕ → List W → W
  unfolding sum_from
  average n xs = sum_from nought (take n xs) ⊘ f.dec n 0

  -- An exponential average: `price * k + ema * (1 - k)`.
  abbrev pub smoothing : ℕ → W
  smoothing period = f.dec 2 0 ⊘ f.dec (period + 1) 0

  abbrev pub ema_step : (k ema price : W) → W
  ema_step k ema price = price ⊗ k ⊕ ema ⊗ (f.dec 1 0 ⊖ k)

  -- Wilder's: `(avg * (period - 1) + x) / period`.
  abbrev pub wilder_step : (period : ℕ) (avg x : W) → W
  wilder_step period avg x = (avg ⊗ f.dec (period - 1) 0 ⊕ x) ⊘ f.dec period 0

  -- The value of a loop `acc = step(acc, x)` at its end, and those after each round.
  unfoldable pub smooth : (W → W → W) → W → List W → W
  smooth step acc [] = acc
  smooth step acc (x ∷ xs) = smooth step (step acc x) xs

  unfoldable pub smooth_all : (W → W → W) → W → List W → List W
  smooth_all step acc [] = []
  smooth_all step acc (x ∷ xs) = step acc x ∷ smooth_all step (step acc x) xs

  unfoldable pub calc_ema : List W → (period : ℕ) → W
  unfolding average smooth
  calc_ema closes period =
      if ltb (length closes) period
      then or_else (get_last? closes) nought
      else f.round
          (smooth (ema_step (smoothing period)) (average period closes) (drop period closes)) 4

  pub calc_ema_array : List W → (period : ℕ) → List W
  unfolding average smooth_all
  calc_ema_array closes period =
      if ltb (length closes) period
      then closes
      else replicate period (average period closes)
        ++ smooth_all (ema_step (smoothing period)) (average period closes) (drop period closes)

  abbrev pub true_range : (current previous : Candle W) → W
  true_range c p =
      max_of (max_of (c.high ⊖ c.low) (f.abs (c.high ⊖ p.close))) (f.abs (c.low ⊖ p.close))

  -- `trs`: that of each candle but the first.
  abbrev pub true_ranges : List (Candle W) → List W
  true_ranges [] = []
  true_ranges (p ∷ []) = []
  true_ranges (p ∷ c ∷ cs) = true_range c p ∷ true_ranges (c ∷ cs)

  atr_of : List W → (period : ℕ) → W
  unfolding average smooth
  atr_of trs period =
      if ltb (length trs) period
      then average (length trs) trs
      else f.round (smooth (wilder_step period) (average period trs) (drop period trs)) 4

  pub calc_atr : List (Candle W) → (period : ℕ) → W
  calc_atr candles period =
      if ltb (length candles) 2 then nought else atr_of (true_ranges candles) period

  -- `sum(trs[:period]) / min(period, len(trs))`, before the first smoothing.
  abbrev first_atr : List W → (period : ℕ) → W
  first_atr trs period = sum_from nought (take period trs) ⊘ f.dec (min period (length trs)) 0

  pub calc_atr_array : List (Candle W) → (period : ℕ) → List W
  unfolding smooth_all
  calc_atr_array candles period =
      if ltb (length candles) 2
      then map (λ c. nought) candles
      else (let trs = true_ranges candles in
          let atr = first_atr trs period in
          nought
          ∷ (replicate (min period (length trs)) atr
              ++ smooth_all (wilder_step period) atr (drop period trs)))

  -- `max(x, 0.0)` of the difference between each close and the one before it.
  unfoldable pub rises : (W → W → W) → List W → List W
  unfolding max_of
  rises diff [] = []
  rises diff (x ∷ []) = []
  rises diff (x ∷ y ∷ ys) = max_of (diff x y) nought ∷ rises diff (y ∷ ys)

  -- Python's `avg_loss == 0`.
  abbrev pub is_nought : W → Bool
  is_nought x = x ≤? nought && nought ≤? x

  unfoldable pub rsi_of : (avg_gain avg_loss : W) → W
  rsi_of g l =
      if is_nought l
      then f.dec 100 0
      else f.round (f.dec 100 0 ⊖ f.dec 100 0 ⊘ (f.dec 1 0 ⊕ g ⊘ l)) 2

  unfoldable pub calc_rsi : List W → (period : ℕ) → W
  unfolding average smooth rises rsi_of
  calc_rsi closes period =
      if ltb (length closes) (period + 1)
      then f.dec 50 0
      else (let gains = rises (λ x y. y ⊖ x) closes in
          let losses = rises (λ x y. f.neg (y ⊖ x)) closes in
          rsi_of (smooth (wilder_step period) (average period gains) (drop period gains))
            (smooth (wilder_step period) (average period losses) (drop period losses)))
