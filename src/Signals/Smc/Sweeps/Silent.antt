-- ===== src/Signals/Smc/Sweeps/Silent.antt =====
-- The sweeps that live_trading/signals/smc_engine.py looks for do not exist: beside a swing low no
-- candle goes below it.
use scalping.Prelude.{
  last_start, ℕ, zero, suc, ◌+◌, ◌-◌, Bool, ◌&&◌, true, false, ◌≡◌, refl, none, some, List, [], ◌∷◌,
  All, drop, length, leb, ltb, arith, Bool-cases, Option-cases, inl, inr,
}
use scalping.Float.{Float, ◌⊖◌, ◌<?◌, ◌≼◌, nought}
use scalping.Float.Laws.{IsOrdered, IsRounded}
use scalping.Market.{Candle}
use scalping.Signals.Smc.{
  SmcConfig, Swing, get_elem?, swings_from, detect_swing_highs, detect_swing_lows,
}
use scalping.Signals.Smc.Swings.{IsSwing, IsSwing-behind, swings_from-IsSwing}
use scalping.Signals.Smc.Sweeps.{
  swept, sweeps_low, sweeps_high, sweeps_at, sweeps_from, detect_liquidity_sweeps,
}

drop-nil {ℓ} : {A : Type ℓ} (n : ℕ) → drop {A = A} n [] ≡ []
drop-nil zero = refl
drop-nil (suc n) = refl

module _ {ℓ} {W : Type ℓ} (behind : W → W → Bool) (val : Candle W → W) (cs : List (Candle W)) where
  -- Beside a swing point the level is not swept by what lies behind it.
  swept-none :
      (lookback : ℕ) (takes : W → Bool) (c : Candle W) (i : ℕ)
      → get_elem? cs i ≡ some c
      → ((x : W) → behind (val c) x ≡ true → takes x ≡ false)
      → (ss : List (Swing W)) → All (IsSwing behind val cs lookback) ss
      → swept takes lookback i ss ≡ none
  unfolding swept
  swept-none lookback takes c i e misses [] h = refl
  swept-none lookback takes c i e misses (s ∷ ss) (h, hs) =
      rw (swept-none lookback takes c i e misses ss hs)
        (elim (Bool-cases (leb (i - lookback) s.bar_index && ltb s.bar_index i)) [
          | inl w ↦
              let there : s.bar_index + (i - s.bar_index) ≡ i = ground arith in
              let quiet = misses s.level (
                IsSwing-behind behind val cs lookback (i - s.bar_index) s c h (ground arith)
                  (ground arith) (inr (rw there e))) in
              ground arith
          | inr w ↦ ground arith
        ])

module _ {ℓ} {W : Type ℓ} ⦃f : Float W⦄ (laws : IsOrdered W) (rounding : IsRounded W)
    (cs : List (Candle W)) (cfg : SmcConfig W) (positive : nought ≼ cfg.liquidity_sweep_min) where
  open laws use {le_of_lt, refl_of_le, le_trans, lt-eq-not-le}
  open rounding use {le_of_sub}

  -- What lies strictly above a value is not below it by a margin.
  not-past : (x y : W) → (x <? y) ≡ true → f.le cfg.liquidity_sweep_min (x ⊖ y) ≡ false
  not-past x y h =
      let (a, b) = refl_of_le x y (le_of_lt x y h) in
      elim (Bool-cases (f.le cfg.liquidity_sweep_min (x ⊖ y))) [
        | inl e ↦
            let back = le_of_sub x y (le_trans nought cfg.liquidity_sweep_min (x ⊖ y) positive e) in
            ground (arith, lt-eq-not-le x y a b)
        | inr e ↦ e
      ]

  sweeps_at-nil :
      (c : Candle W) (i : ℕ) (highs lows : List (Swing W))
      → get_elem? cs i ≡ some c
      → All (IsSwing (λ x h. x <? h) (λ d. d.high) cs cfg.swing_lookback) highs
      → All (IsSwing (λ x l. l <? x) (λ d. d.low) cs cfg.swing_lookback) lows
      → sweeps_at cfg c i highs lows [] ≡ []
  unfolding sweeps_at
  sweeps_at-nil c i highs lows e hs ls = rw (
    swept-none (λ x l. l <? x) (λ d. d.low) cs cfg.swing_lookback (sweeps_low cfg c) c i e
        (λ x h. ground (arith, not-past x c.low h)) lows ls,
    swept-none (λ x h. x <? h) (λ d. d.high) cs cfg.swing_lookback (sweeps_high cfg c) c i e
        (λ x h. ground (arith, not-past c.high x h)) highs hs,
  )

  sweeps_from-nil :
      (highs lows : List (Swing W))
      → All (IsSwing (λ x h. x <? h) (λ d. d.high) cs cfg.swing_lookback) highs
      → All (IsSwing (λ x l. l <? x) (λ d. d.low) cs cfg.swing_lookback) lows
      → (i n : ℕ) → sweeps_from cfg cs highs lows i n [] ≡ []
  unfolding sweeps_from
  sweeps_from-nil highs lows hs ls i zero = refl
  sweeps_from-nil highs lows hs ls i (suc n) = elim (Option-cases (get_elem? cs i)) [
    | inl e ↦ rw e (sweeps_from-nil highs lows hs ls (i + 1) n)
    | inr (c, e) ↦
        rw (e, sweeps_at-nil c i highs lows e hs ls) (sweeps_from-nil highs lows hs ls (i + 1) n)
  ]

  -- For ordered and correctly rounded floats and a least size of sweeps that is not negative: no series
  -- of candles has a liquidity sweep, if the swing points are those of the same candles and lookback.
  pub detect_liquidity_sweeps-nil :
      detect_liquidity_sweeps cs
        (detect_swing_highs cs cfg.swing_lookback)
        (detect_swing_lows cs cfg.swing_lookback)
        cfg
      ≡ []
  unfolding detect_liquidity_sweeps detect_swing_highs detect_swing_lows
  detect_liquidity_sweeps-nil =
      let lb = cfg.swing_lookback in
      let n = length cs - lb - lb in
      rw
        (sweeps_from-nil (swings_from (λ x h. x <? h) (λ d. d.high) cs lb lb n)
          (swings_from (λ x l. l <? x) (λ d. d.low) cs lb lb n)
          (swings_from-IsSwing (λ x h. x <? h) (λ d. d.high) cs lb lb n)
          (swings_from-IsSwing (λ x l. l <? x) (λ d. d.low) cs lb lb n) lb (length cs - lb))
        (drop-nil (last_start cfg.max_sweeps 0))
