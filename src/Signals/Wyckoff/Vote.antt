-- ===== src/Signals/Wyckoff/Vote.antt =====
-- When live_trading/signals/wyckoff_engine.py votes.
use scalping.Prelude.{
  ◌≡◌, refl, ◌⊎◌, inl, inr, ◌+◌, Bool, true, false, Option, List, length, ltb, Bool-cases,
}
use scalping.Float.{Float}
use scalping.Market.{Candle, Direction, buy, sell, neutral}
use scalping.Signals.Regime.{Phase, accumulating, distributing, no_phase}
use scalping.Signals.Wyckoff.{
  WyckoffConfig, get_cfg, detect_phase, detect_spring, detect_upthrust, confirm_volume, result_of,
  analyze_wyckoff,
}

-- What a vote for a side has behind it.
abbrev pub IsVote : Direction → Phase → (spring upthrust : Bool) → Type 0
IsVote buy p s u = (p ≡ accumulating) × ((u ≡ false) ⊎ (s ≡ true))
IsVote sell p s u = (p ≡ distributing) × ((s ≡ false) ⊎ (u ≡ true))
IsVote neutral p s u = Unit

result_of-IsVote {ℓ} :
    (W : Type ℓ) ⦃f : Float W⦄ (p : Phase) (s u v : Bool)
    → IsVote (result_of {W = W} p s u v).wyckoff_signal p s u
unfolding result_of
result_of-IsVote W no_phase s u v = tt
result_of-IsVote W accumulating true true v = (refl, inr refl)
result_of-IsVote W accumulating true false v = (refl, inr refl)
result_of-IsVote W accumulating false true v = tt
result_of-IsVote W accumulating false false v = (refl, inl refl)
result_of-IsVote W distributing true true v = (refl, inr refl)
result_of-IsVote W distributing true false v = tt
result_of-IsVote W distributing false true v = (refl, inl refl)
result_of-IsVote W distributing false false v = (refl, inl refl)

module _ {ℓ} {W : Type ℓ} ⦃f : Float W⦄ where
  -- Wyckoff votes to buy only in an accumulation, and not where an upthrust contradicts it without a
  -- spring; to sell only in a distribution, and not where a spring contradicts it without an upthrust.
  pub analyze_wyckoff-IsVote :
      (calibrated : Option (WyckoffConfig W)) (cs : List (Candle W))
      → let cfg = get_cfg calibrated in
        let (phase, start) = detect_phase cs cfg in
        IsVote
          (analyze_wyckoff calibrated cs).wyckoff_signal
          phase
          (detect_spring cs start cfg)
          (detect_upthrust cs start cfg)
  unfolding analyze_wyckoff
  analyze_wyckoff-IsVote calibrated cs =
      let cfg = get_cfg calibrated in
      let (phase, start) = detect_phase cs cfg in
      elim (Bool-cases (ltb (length cs) (cfg.range_bars + cfg.trend_bars))) [
        | inl e ↦ rw e tt
        | inr e ↦ rw e (
            result_of-IsVote W phase (detect_spring cs start cfg) (detect_upthrust cs start cfg)
              (confirm_volume cs phase start))
      ]
