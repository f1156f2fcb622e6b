-- ===== src/Signals/Mtf/Gate.antt =====
-- What the gate of the higher timeframe lets through (live_trading/signals/mtf_filter.py).
use scalping.Prelude.{
  ℕ, ◌≤◌, ◌<◌, ◌≡◌, ◌≢◌, ◌⊎◌, refl, true, false, Option, none, some, arith, inl, inr, Option-cases,
}
use scalping.Float.{Float, ◌<?◌}
use scalping.Market.{neutral, flat, range, vote_of}
use scalping.Signals.Mtf.{MtfBias, HtfAnalysis, Entry, compute_mtf_bias, mtf_allows_trade}

module _ {ℓ} {W : Type ℓ} ⦃f : Float W⦄ where
  -- The confidence is known and not below the minimum, and enough timeframes agree.
  abbrev pub IsConfirmed : Entry W → Type ℓ
  IsConfirmed e =
      (c : W) × (e.confidence ≡ some c)
      × ((c <? e.min_confidence) ≡ false)
      × (e.min_timeframes ≤ e.confirmed_timeframes)

  -- The bias is for the entry's direction, on a trending market.
  abbrev pub IsAligned : MtfBias → Entry W → Type 0
  IsAligned b e = (b.direction ≡ e.m5_direction) × (b.trend ≢ flat) × (b.regime ≢ range)

  mtf-IsConfirmed :
      (o : Option MtfBias) (e : Entry W) → (mtf_allows_trade o e).0 ≡ true → IsConfirmed e
  unfolding mtf_allows_trade
  mtf-IsConfirmed none e h = cc
  mtf-IsConfirmed (some b) e h = elim (Option-cases e.confidence) [
    | inl x ↦ absurd (ground arith)
    | inr (c, x) ↦ (c, x, ground arith, ground arith)
  ]

  -- Whatever the gate allows has a bias, a direction, enough confidence and enough timeframes, and
  -- either the bias is aligned with it or a range entry meets a ranging higher timeframe.
  pub mtf_allows_trade_sound :
      (o : Option MtfBias) (e : Entry W)
      → (mtf_allows_trade o e).0 ≡ true
      → (b : MtfBias) × (o ≡ some b)
        × (e.m5_direction ≢ neutral)
        × IsConfirmed e
        × (IsAligned b e ⊎ ((e.allow_range_regime ≡ true) × (b.regime ≡ range)))
  unfolding mtf_allows_trade
  mtf_allows_trade_sound none e h = cc
  mtf_allows_trade_sound (some b) e h =
      (b, refl, ground arith, mtf-IsConfirmed (some b) e h, ground arith)

  -- The gate allows every confirmed entry in a direction with which the bias is aligned.
  pub mtf_allows_trade_complete :
      (b : MtfBias) (e : Entry W)
      → e.m5_direction ≢ neutral
      → IsConfirmed e
      → IsAligned b e
      → (mtf_allows_trade (some b) e).0 ≡ true
  unfolding mtf_allows_trade
  mtf_allows_trade_complete b e d c a = ground arith

  -- Outside the range playbook no entry passes against the higher timeframe's trend, nor against
  -- its market structure, nor without an analysis of at least 50 candles.
  pub mtf_bias_respected :
      (candles : ℕ) (o : Option HtfAnalysis) (e : Entry W)
      → e.allow_range_regime ≡ false
      → (mtf_allows_trade (some (compute_mtf_bias candles o)) e).0 ≡ true
      → (a : HtfAnalysis) × (o ≡ some a)
        × (50 ≤ candles)
        × (vote_of a.trend ≡ e.m5_direction)
        × (a.regime ≢ range)
        × ((a.smc_signal ≡ neutral) ⊎ (a.smc_signal ≡ e.m5_direction))
  unfolding mtf_allows_trade compute_mtf_bias
  mtf_bias_respected candles none e r h = ground arith
  mtf_bias_respected candles (some a) e r h =
      (a, refl, ground arith, ground arith, ground arith, ground arith)

  -- The bias of an analysis that failed, or that had too few candles, counts as a ranging market:
  -- in the range playbook every confirmed entry in a direction passes on it.
  pub mtf_failed_analysis_passes :
      (candles : ℕ) (o : Option HtfAnalysis) (e : Entry W)
      → (o ≡ none) ⊎ (candles < 50)
      → e.allow_range_regime ≡ true
      → e.m5_direction ≢ neutral
      → IsConfirmed e
      → (mtf_allows_trade (some (compute_mtf_bias candles o)) e).0 ≡ true
  unfolding mtf_allows_trade compute_mtf_bias
  mtf_failed_analysis_passes candles none e p r d c = ground arith
  mtf_failed_analysis_passes candles (some a) e p r d c = ground arith
