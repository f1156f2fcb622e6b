-- ===== src/Signals/PriceAction/Sides.antt =====
-- The body of the last candle has one side (live_trading/signals/price_action_engine.py).
use scalping.Prelude.{
  ◌≡◌, ◌⊎◌, refl, ◌+◌, Bool, true, false, ◌&&◌, ◌||◌, Option, none, some, List, [], ◌∷◌, any,
  length, get_last?, but_last, ltb, arith, Bool-cases, inl, inr,
}
use scalping.Float.{Float, ◌≤?◌, nought}
use scalping.Float.Laws.{IsOrdered, lt_asym}
use scalping.Market.{Candle}
use scalping.Signals.PriceAction.{PaConfig, cfg_m5, calc_atr, detect_patterns, is_bull, is_bear}
use scalping.Signals.PriceAction.Levels.{Zone, detect_sr_levels, detect_supply_demand}
use scalping.Signals.PriceAction.Breakout.{detect_breakout_pullback}
use scalping.Signals.PriceAction.Analyze.{
  PriceActionResult, analyze_last, analyze_from, analyze_price_action,
}

-- What a test of every element implies, some element implies.
any-implies {ℓ} :
    {A : Type ℓ} (p : A → Bool) (b : Bool) (xs : List A)
    → ((x : A) → p x ≡ true → b ≡ true)
    → any p xs ≡ true
    → b ≡ true
any-implies p b [] h e = cc
any-implies p b (x ∷ xs) h e = elim (Bool-cases (p x)) [
  | inl q ↦ h x q
  | inr q ↦ any-implies p b xs h (ground arith)
]

module _ {ℓ} {W : Type ℓ} where
  -- An engulfing or strong candle or a valid breakout, upwards or downwards.
  abbrev pub rises : PriceActionResult W → Bool
  rises r = r.patterns.bullish_engulf || r.patterns.strong_bullish || r.breakouts.valid_bull

  abbrev pub falls : PriceActionResult W → Bool
  falls r = r.patterns.bearish_engulf || r.patterns.strong_bearish || r.breakouts.valid_bear

module _ {ℓ} {W : Type ℓ} ⦃f : Float W⦄ where
  bull_patterns :
      (c0 c1 : Candle W) (cfg : PaConfig W) (atr : W)
      → (let p = detect_patterns c0 c1 cfg atr in p.bullish_engulf || p.strong_bullish) ≡ true
      → is_bull c0 ≡ true
  unfolding detect_patterns
  bull_patterns c0 c1 cfg atr h = ground arith

  bear_patterns :
      (c0 c1 : Candle W) (cfg : PaConfig W) (atr : W)
      → (let p = detect_patterns c0 c1 cfg atr in p.bearish_engulf || p.strong_bearish) ≡ true
      → is_bear c0 ≡ true
  unfolding detect_patterns
  bear_patterns c0 c1 cfg atr h = ground arith

  bull_breakout :
      (cs : List (Candle W)) (c : Candle W) (sup res : List W) (dem supp : List (Zone W))
      (cfg : PaConfig W)
      → (detect_breakout_pullback cs c sup res dem supp cfg).valid_bull ≡ true
      → is_bull c ≡ true
  unfolding detect_breakout_pullback
  bull_breakout cs c sup res dem supp cfg h = any-implies _ (is_bull c) res (λ x e. ground arith) h

  bear_breakout :
      (cs : List (Candle W)) (c : Candle W) (sup res : List W) (dem supp : List (Zone W))
      (cfg : PaConfig W)
      → (detect_breakout_pullback cs c sup res dem supp cfg).valid_bear ≡ true
      → is_bear c ≡ true
  unfolding detect_breakout_pullback
  bear_breakout cs c sup res dem supp cfg h = any-implies _ (is_bear c) sup (λ x e. ground arith) h

module _ {ℓ} {W : Type ℓ} ⦃f : Float W⦄ (laws : IsOrdered W) where
  one_side :
      (c : Candle W) (up down : Bool)
      → (up ≡ true → is_bull c ≡ true)
      → (down ≡ true → is_bear c ≡ true)
      → (up && down) ≡ false
  one_side c true true h k = elim (lt_asym laws c.open_price c.close (h refl) (k refl)) [ ]
  one_side c true false h k = refl
  one_side c false down h k = refl

  either : (a b c : Bool) → (a || b || c) ≡ true → ((a || b) ≡ true) ⊎ (c ≡ true)
  either a b c h = ground arith

  analyze_last_one_side :
      (cs : List (Candle W)) (cfg : PaConfig W) (c0 c1 : Candle W) (atr : W)
      → let r = analyze_last cs cfg c0 c1 atr in (rises r && falls r) ≡ false
  unfolding analyze_last
  analyze_last_one_side cs cfg c0 c1 atr =
      let r = analyze_last cs cfg c0 c1 atr in
      let (sup, res) = detect_sr_levels cs cfg in
      let (dem, supp) = detect_supply_demand cs cfg atr in
      one_side c0 (rises r) (falls r)
        (λ h.
          elim (either r.patterns.bullish_engulf r.patterns.strong_bullish r.breakouts.valid_bull
            h) [
              | inl p ↦ bull_patterns c0 c1 cfg atr p
              | inr b ↦ bull_breakout cs c0 sup res dem supp cfg b
            ])
        (λ h.
          elim (either r.patterns.bearish_engulf r.patterns.strong_bearish r.breakouts.valid_bear
            h) [
              | inl p ↦ bear_patterns c0 c1 cfg atr p
              | inr b ↦ bear_breakout cs c0 sup res dem supp cfg b
            ])

  analyze_from_one_side :
      (cs : List (Candle W)) (cfg : PaConfig W) (c0 c1 : Option (Candle W))
      → let r = analyze_from cs cfg c0 c1 in (rises r && falls r) ≡ false
  unfolding analyze_from
  analyze_from_one_side cs cfg (some c0) (some c1) =
      let atr = calc_atr cs cfg.atr_period in
      let last = analyze_last_one_side cs cfg c0 c1 atr in
      elim (Bool-cases (atr ≤? nought)) [ inl e ↦ rw e refl | inr e ↦ rw e last ]
  analyze_from_one_side cs cfg (some c0) none = refl
  analyze_from_one_side cs cfg none c1 = refl

  -- For ordered floats: on no candles does price action report an upward engulfing or strong candle or
  -- valid breakout together with a downward one.
  pub analyze_price_action_one_side :
      (cs : List (Candle W)) → let r = analyze_price_action cs in (rises r && falls r) ≡ false
  unfolding analyze_price_action
  analyze_price_action_one_side cs =
      let cfg : PaConfig W = cfg_m5 in
      elim (Bool-cases (ltb (length cs) (cfg.level_lookback + cfg.atr_period + 5))) [
        | inl e ↦ rw e refl
        | inr e ↦ rw e (analyze_from_one_side cs cfg (get_last? cs) (get_last? (but_last cs)))
      ]
