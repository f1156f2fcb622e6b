-- ===== src/Signals/Indicators/Series.antt =====
-- The series of live_trading/signals/gold_engine.py end in the value of the last bar.
use scalping.Prelude.{
  false, ℕ, zero, suc, ◌+◌, ◌-◌, ◌≤◌, ◌<◌, min, ◌≡◌, refl, ap, ◌∙◌, some, List, [], ◌∷◌, ◌++◌,
  length, take, drop, get_last?, ltb, if◌then◌else◌, arith, Bool-cases, inl, inr, length-append,
  length-drop,
}
use scalping.Float.{Float, nought}
use scalping.Market.{Candle}
use scalping.Signals.Indicators.{
  replicate, average, smoothing, ema_step, wilder_step, smooth, smooth_all, calc_ema,
  calc_ema_array, true_ranges, atr_of, calc_atr, first_atr, calc_atr_array,
}

module _ {ℓ} {A : Type ℓ} where
  get_last?-append :
      (xs : List A) (y : A) (ys : List A) → get_last? (xs ++ y ∷ ys) ≡ get_last? (y ∷ ys)
  get_last?-append [] y ys = refl
  get_last?-append (x ∷ []) y ys = refl
  get_last?-append (x ∷ x' ∷ xs) y ys = get_last?-append (x' ∷ xs) y ys

  replicate-snoc :
      (n : ℕ) (x : A) (ys : List A) → replicate (suc n) x ++ ys ≡ replicate n x ++ x ∷ ys
  replicate-snoc zero x ys = refl
  replicate-snoc (suc n) x ys = ap (λ zs. x ∷ zs) (replicate-snoc n x ys)

  get_last?-cons :
      (x : A) (ys : List A) {v : A} → get_last? ys ≡ some v → get_last? (x ∷ ys) ≡ some v
  get_last?-cons x [] h = cc
  get_last?-cons x (y ∷ ys) h = h

  length-replicate : (n : ℕ) (x : A) → length (replicate n x) ≡ n
  length-replicate zero x = refl
  length-replicate (suc n) x = ap suc (length-replicate n x)

  take_all : (n : ℕ) (xs : List A) → length xs ≤ n → take n xs ≡ xs
  take_all zero [] h = refl
  take_all zero (x ∷ xs) h = absurd (omega arith)
  take_all (suc n) [] h = refl
  take_all (suc n) (x ∷ xs) h = ap (λ zs. x ∷ zs) (take_all n xs (omega arith))

  drop_all : (n : ℕ) (xs : List A) → length xs ≤ n → drop n xs ≡ []
  drop_all zero [] h = refl
  drop_all zero (x ∷ xs) h = absurd (omega arith)
  drop_all (suc n) [] h = refl
  drop_all (suc n) (x ∷ xs) h = drop_all n xs (omega arith)

module _ {ℓ} {W : Type ℓ} ⦃f : Float W⦄ where
  get_last?-smooth_all :
      (step : W → W → W) (acc : W) (xs : List W)
      → get_last? (acc ∷ smooth_all step acc xs) ≡ some (smooth step acc xs)
  unfolding smooth smooth_all
  get_last?-smooth_all step acc [] = refl
  get_last?-smooth_all step acc (x ∷ xs) = get_last?-smooth_all step (step acc x) xs

  length-smooth_all :
      (step : W → W → W) (acc : W) (xs : List W) → length (smooth_all step acc xs) ≡ length xs
  unfolding smooth_all
  length-smooth_all step acc [] = refl
  length-smooth_all step acc (x ∷ xs) = ap suc (length-smooth_all step (step acc x) xs)

  -- A series that begins with n copies of its first average ends in the value of the loop.
  get_last?-series :
      (step : W → W → W) (n : ℕ) (acc : W) (xs : List W)
      → 0 < n
      → get_last? (replicate n acc ++ smooth_all step acc xs) ≡ some (smooth step acc xs)
  get_last?-series step zero acc xs h = absurd (omega arith)
  get_last?-series step (suc n) acc xs h =
      ap get_last? (replicate-snoc n acc (smooth_all step acc xs))
      ∙ get_last?-append (replicate n acc) acc (smooth_all step acc xs)
      ∙ get_last?-smooth_all step acc xs

  -- The series of moving averages has a value for each close.
  pub length-calc_ema_array :
      (closes : List W) (period : ℕ) → length (calc_ema_array closes period) ≡ length closes
  unfolding calc_ema_array
  length-calc_ema_array closes period = ground (
    arith,
    length-append (replicate period (average period closes))
        (smooth_all (ema_step (smoothing period)) (average period closes) (drop period closes)),
    length-replicate period (average period closes),
    length-smooth_all (ema_step (smoothing period)) (average period closes) (drop period closes),
    length-drop period closes,
  )

  -- For a positive period and at least so many closes, the moving average is the last value of the
  -- series of moving averages, rounded to four decimals.
  pub calc_ema-last :
      (closes : List W) (period : ℕ)
      → 0 < period
      → period ≤ length closes
      → (v : W) × (get_last? (calc_ema_array closes period) ≡ some v)
        × (calc_ema closes period ≡ f.round v 4)
  unfolding calc_ema calc_ema_array
  calc_ema-last closes period h k =
      let step = ema_step (smoothing period) in
      let first = average period closes in
      (
        smooth step first (drop period closes),
        ground (arith, get_last?-series step period first (drop period closes)),
        ground arith,
      )

  length-true_ranges : (cs : List (Candle W)) → length (true_ranges cs) ≡ length cs - 1
  length-true_ranges [] = omega arith
  length-true_ranges (p ∷ []) = omega arith
  length-true_ranges (p ∷ c ∷ cs) = omega (arith, length-true_ranges (c ∷ cs))

  first_atr_short :
      (trs : List W) (period : ℕ)
      → length trs ≤ period
      → first_atr trs period ≡ average (length trs) trs
  unfolding average
  first_atr_short trs period h =
      let e : min period (length trs) ≡ length trs = omega arith in
      rw (take_all period trs h, take_all (length trs) trs (omega arith), e)

  first_atr_long :
      (trs : List W) (period : ℕ) → period ≤ length trs → first_atr trs period ≡ average period trs
  unfolding average
  first_atr_long trs period h = let e : min period (length trs) ≡ period = omega arith in rw e

  atr_of_lem :
      (trs : List W) (period : ℕ)
      → let v = smooth (wilder_step period) (first_atr trs period) (drop period trs) in
        atr_of trs period ≡ (if ltb (length trs) period then v else f.round v 4)
  unfolding atr_of
  atr_of_lem trs period = elim (Bool-cases (ltb (length trs) period)) [
    | inl e ↦ rw (e, drop_all period trs (ground arith), first_atr_short trs period (ground arith))
    | inr e ↦ rw (e, first_atr_long trs period (ground arith))
  ]

  -- For a positive period and at least two candles, the average true range is the last value of the
  -- series of average true ranges, rounded to four decimals unless there are fewer ranges than the
  -- period.
  pub calc_atr-last :
      (cs : List (Candle W)) (period : ℕ)
      → 0 < period
      → 2 ≤ length cs
      → (v : W) × (get_last? (calc_atr_array cs period) ≡ some v)
        × (calc_atr cs period ≡ (if ltb (length cs) (period + 1) then v else f.round v 4))
  unfolding calc_atr calc_atr_array
  calc_atr-last cs period h k =
      let trs = true_ranges cs in
      let two : ltb (length cs) 2 ≡ false = ground arith in
      let short : ltb (length trs) period ≡ ltb (length cs) (period + 1) =
        ground (arith, length-true_ranges cs) in
      let step = wilder_step period in
      (
        smooth step (first_atr trs period) (drop period trs),
        ground (
          arith,
          length-true_ranges cs,
          get_last?-cons nought (
              replicate (min period (length trs)) (first_atr trs period)
              ++ smooth_all step (first_atr trs period) (drop period trs)),
          get_last?-series step (min period (length trs)) (first_atr trs period) (drop period trs),
        ),
        rw (two, atr_of_lem trs period, short),
      )
