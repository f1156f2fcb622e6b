-- ===== src/Signals/Smc/Swings.antt =====
-- Swing points of live_trading/signals/smc_engine.py lie apart from each other.
use scalping.Prelude.{
  ℕ, zero, suc, ◌+◌, ◌-◌, ◌≤◌, ◌<◌, Bool, true, ◌≡◌, refl, some, List, [], ◌∷◌, All, length, ◌==◌,
  ltb, ◌⊎◌, arith, Bool-cases, Option-cases, inl, inr,
}
use scalping.Float.{Float, ◌<?◌}
use scalping.Float.Laws.{IsOrdered, lt_asym}
use scalping.Market.{Candle}
use scalping.Signals.Smc.{
  Swing, get_elem?, at_bar, stands_out, swings_from, detect_swing_highs, detect_swing_lows,
}

module _ {ℓ} {W : Type ℓ} (behind : W → W → Bool) (val : Candle W → W) (cs : List (Candle W)) where
  -- A swing point at its bar.
  pub record IsSwing (lookback : ℕ) (s : Swing W) : Type ℓ where
    pub candle : Candle W
    pub at : get_elem? cs s.bar_index ≡ some candle
    pub level_val : s.level ≡ val candle
    pub out : stands_out behind val cs s.bar_index s.level lookback ≡ true

  stands_out_at :
      (i : ℕ) (level : W) (k j : ℕ)
      → stands_out behind val cs i level k ≡ true
      → 0 < j
      → j ≤ k
      → (at_bar val cs (i - j) (λ x. behind x level) ≡ true)
        × (at_bar val cs (i + j) (λ x. behind x level) ≡ true)
  unfolding stands_out
  stands_out_at i level zero j h p q = absurd (omega arith)
  stands_out_at i level (suc k) j h p q = elim (Bool-cases (j == suc k)) [
    | inl e ↦ let e' : j ≡ suc k = ground arith in rw e' (ground arith)
    | inr e ↦ stands_out_at i level k j (ground arith) p (ground arith)
  ]

  pub swings_from-IsSwing :
      (lookback i n : ℕ) → All (IsSwing lookback) (swings_from behind val cs lookback i n)
  unfolding swings_from
  swings_from-IsSwing lookback i zero = tt
  swings_from-IsSwing lookback i (suc n) =
      let rest = swings_from-IsSwing lookback (i + 1) n in
      elim (Option-cases (get_elem? cs i)) [
        | inl e ↦ rw (e, All) rest
        | inr (c, e) ↦
            rw (e, All)
              (elim (Bool-cases (stands_out behind val cs i (val c) lookback)) [
                | inl o ↦
                    rw (o, All) (record { candle = c; at = e; level_val = refl; out = o }, rest)
                | inr o ↦ rw (o, All) rest
              ])
      ]

  -- The value beside a swing point lies behind its level.
  pub IsSwing-behind :
      (lookback j : ℕ) (s : Swing W) (c : Candle W)
      → IsSwing lookback s
      → 0 < j
      → j ≤ lookback
      → (get_elem? cs (s.bar_index - j) ≡ some c) ⊎ (get_elem? cs (s.bar_index + j) ≡ some c)
      → behind (val c) s.level ≡ true
  IsSwing-behind lookback j s c h p q e =
      let (before, after) = stands_out_at s.bar_index s.level lookback j h.out p q in
      elim e [ inl l ↦ rw (l, at_bar) at before | inr r ↦ rw (r, at_bar) at after ]

  -- Of two swing points the later one lies more than the lookback behind the earlier one, if no two
  -- values lie behind each other.
  pub IsSwing-apart :
      ((x y : W) → behind x y ≡ true → behind y x ≡ true → ⊥)
      → (lookback : ℕ) (s t : Swing W) → IsSwing lookback s
      → IsSwing lookback t
      → s.bar_index < t.bar_index
      → s.bar_index + lookback < t.bar_index
  IsSwing-apart asym lookback s t h k lt =
      elim (Bool-cases (ltb (s.bar_index + lookback) t.bar_index)) [
        | inl e ↦ ground arith
        | inr e ↦
            let d = t.bar_index - s.bar_index in
            let a : t.bar_index - d ≡ s.bar_index = omega arith in
            let b : s.bar_index + d ≡ t.bar_index = omega arith in
            let up =
              IsSwing-behind lookback d s k.candle h (omega arith) (ground arith)
                (inr (rw b k.at)) in
            let down =
              IsSwing-behind lookback d t h.candle k (omega arith) (ground arith)
                (inl (rw a h.at)) in
            absurd
              (asym (val k.candle) (val h.candle) (rw h.level_val at up) (rw k.level_val at down))
      ]

  swings_from-le :
      (lookback k i n : ℕ)
      → k ≤ i
      → All (λ s. k ≤ s.bar_index) (swings_from behind val cs lookback i n)
  unfolding swings_from
  swings_from-le lookback k i zero h = tt
  swings_from-le lookback k i (suc n) h =
      let rest = swings_from-le lookback k (i + 1) n (omega arith) in
      elim (Option-cases (get_elem? cs i)) [
        | inl e ↦ rw (e, All) rest
        | inr (c, e) ↦
            rw (e, All)
              (elim (Bool-cases (stands_out behind val cs i (val c) lookback)) [
                | inl o ↦ rw (o, All) (h, rest)
                | inr o ↦ rw (o, All) rest
              ])
      ]

-- Each lies more than the gap behind all before it.
abbrev pub Apart {ℓ} : {W : Type ℓ} → (gap : ℕ) → List (Swing W) → Type 0
Apart gap [] = Unit
Apart gap (s ∷ ss) = All (λ t. s.bar_index + gap < t.bar_index) ss × Apart gap ss

module _ {ℓ} {W : Type ℓ} (behind : W → W → Bool) (val : Candle W → W) (cs : List (Candle W))
    (asym : (x y : W) → behind x y ≡ true → behind y x ≡ true → ⊥) where
  head-Apart :
      (lookback i : ℕ) (s : Swing W) (ss : List (Swing W))
      → IsSwing behind val cs lookback s
      → All (IsSwing behind val cs lookback) ss
      → All (λ t. i ≤ t.bar_index) ss
      → s.bar_index < i
      → All (λ t. s.bar_index + lookback < t.bar_index) ss
  head-Apart lookback i s [] h hs ls lt = tt
  head-Apart lookback i s (t ∷ ts) h (k, hs) (l, ls) lt = (
    IsSwing-apart behind val cs asym lookback s t h k (omega arith),
    head-Apart lookback i s ts h hs ls lt,
  )

  swings_from-Apart : (lookback i n : ℕ) → Apart lookback (swings_from behind val cs lookback i n)
  unfolding swings_from
  swings_from-Apart lookback i zero = tt
  swings_from-Apart lookback i (suc n) =
      let rest = swings_from-Apart lookback (i + 1) n in
      elim (Option-cases (get_elem? cs i)) [
        | inl e ↦ rw (e, Apart) rest
        | inr (c, e) ↦
            rw (e, Apart)
              (elim (Bool-cases (stands_out behind val cs i (val c) lookback)) [
                | inl o ↦
                    rw (o, Apart)
                      (
                        head-Apart lookback (i + 1) (record { bar_index = i; level = val c })
                            (swings_from behind val cs lookback (i + 1) n)
                            (record { candle = c; at = e; level_val = refl; out = o })
                            (swings_from-IsSwing behind val cs lookback (i + 1) n)
                            (swings_from-le behind val cs lookback (i + 1) (i + 1) n (omega arith))
                            (omega arith),
                        rest,
                      )
                | inr o ↦ rw (o, Apart) rest
              ])
      ]

-- Two swing highs lie more than the lookback apart, and so do two swing lows.
pub detect_swings-Apart {ℓ} :
    {W : Type ℓ} ⦃f : Float W⦄ (laws : IsOrdered W) (cs : List (Candle W)) (lookback : ℕ)
    → Apart lookback (detect_swing_highs cs lookback)
      × Apart lookback (detect_swing_lows cs lookback)
unfolding detect_swing_highs detect_swing_lows
detect_swings-Apart laws cs lookback = (
  swings_from-Apart (λ x h. x <? h) (λ c. c.high) cs (lt_asym laws) lookback lookback
      (length cs - lookback - lookback),
  swings_from-Apart (λ x l. l <? x) (λ c. c.low) cs (λ x y h k. lt_asym laws x y k h) lookback
      lookback (length cs - lookback - lookback),
)
