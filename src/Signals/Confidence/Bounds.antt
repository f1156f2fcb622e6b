-- ===== src/Signals/Confidence/Bounds.antt =====
-- How far the scores of live_trading/signals/confidence_engine.py reach.
use scalping.Prelude.{
  ℕ, ◌+◌, ◌*◌, ◌≤◌, ◌≡◌, min, Bool, not, List, [], get_last?, arith, Bool-cases, inl, inr,
}
use scalping.Float.{Float, ◌≼◌, nought, max_of, min_of}
use scalping.Float.Laws.{IsOrdered, IsRounded, max_of-either}
use scalping.Market.{Candle, Direction, Trend, same_direction, same_trend, trend_of}
use scalping.Signals.Range.Closed.{dec_nonneg, analyze_smc_structure-liquidity_sweeps}
use scalping.Signals.Smc.Analyze.{SmcStructure, analyze_smc_structure}
use scalping.Signals.Trend.{TrendResult}
use scalping.Signals.Confidence.{
  Patterns, Wyckoff, Session, Components, points, tiers, events_of, gaps_of, last_event_is, cap,
  pa_points, smc_points, trend_points, liquidity_quarters, volatility_quarters, calc_wyckoff_score,
  divergence_score, calc_confidence,
}

points-le : (n : ℕ) (b : Bool) → points n b ≤ n
points-le n b = ground arith

tiers-le : (m n k : ℕ) → tiers (n + m) n k ≤ n + m
tiers-le m n k = ground arith

-- The price action of a side is worth eight points of the documented twenty.
pa_points-le : (pa : Patterns) → pa_points pa ≤ 8
unfolding pa_points
pa_points-le pa =
    ground
      (arith, points-le 2 pa.strong_candle, points-le 2 pa.valid_breakout, points-le 1 pa.pullback)

module _ {ℓ} {W : Type ℓ} ⦃f : Float W⦄ where
  smc_points-le : (smc : SmcStructure W) (d : Direction) → smc_points smc d ≤ 35
  unfolding smc_points
  smc_points-le smc d = omega arith

  liquidity_quarters-le : (smc : SmcStructure W) (d : Direction) → liquidity_quarters smc d ≤ 20
  unfolding liquidity_quarters
  liquidity_quarters-le smc d = omega arith

  volatility_quarters-le :
      (adx ratio : W) (session : Session) → volatility_quarters adx ratio session ≤ 20
  unfolding volatility_quarters
  volatility_quarters-le adx ratio session = omega arith

  trend_points-le : (t : TrendResult W) (d : Direction) → trend_points t d ≤ 20
  unfolding trend_points
  trend_points-le t d = ground arith

  -- Without a sweep.
  smc_points-unswept :
      (smc : SmcStructure W) (d : Direction) → smc.liquidity_sweeps ≡ [] → smc_points smc d ≤ 31
  unfolding smc_points
  smc_points-unswept smc d e = rw e (
      omega (
        arith,
        points-le 4 (same_trend smc.trend (trend_of d)),
        tiers-le 2 5 (events_of d smc.bos_signals),
        points-le 8 (last_event_is d (get_last? smc.choch_signals)),
        tiers-le 2 2 (gaps_of (trend_of d) smc.fair_value_gaps),
      ))

  liquidity_quarters-unswept :
      (smc : SmcStructure W) (d : Direction)
      → smc.liquidity_sweeps ≡ []
      → liquidity_quarters smc d ≤ 6
  unfolding liquidity_quarters
  liquidity_quarters-unswept smc d e = rw e (ground arith)

  abbrev pub Within : (x hi : W) → Type 0
  Within x hi = (nought ≼ x) × (x ≼ hi)

  -- Every score in its documented range.
  abbrev pub IsBounded : Components W → Type 0
  IsBounded c =
      Within c.smc_score (f.dec 35 0)
      × Within c.trend_score (f.dec 20 0)
      × Within c.pa_score (f.dec 20 0)
      × Within c.wyckoff_score (f.dec 15 0)
      × Within c.liquidity_score (f.dec 500 2)
      × Within c.volatility_score (f.dec 500 2)
      × Within c.divergence_score (f.dec 10 0)
      × Within c.total (f.dec 100 0)

module _ {ℓ} {W : Type ℓ} ⦃f : Float W⦄ (laws : IsOrdered W) (rounding : IsRounded W) where
  open laws use {le_of_lt, refl_of_le, lt-eq-not-le}

  -- `max(0.0, x)` is not negative, and it is a number even where x is not.
  positive_part : (x : W) → nought ≼ max_of nought x
  unfolding max_of
  positive_part x = ground (arith, le_of_lt nought x, laws.nought_refl)

  -- `min(hi, x)`.
  least : (hi x : W) → nought ≼ hi → nought ≼ x → (nought ≼ min_of hi x) × (min_of hi x ≼ hi)
  unfolding min_of
  least hi x h k = ground (arith, le_of_lt x hi, refl_of_le nought hi h)

  -- `_cap`, of a limit that is not negative.
  cap-le : (x hi : W) → nought ≼ hi → cap x hi ≼ hi
  unfolding cap max_of min_of
  cap-le x hi h = ground (arith, le_of_lt x hi, refl_of_le nought hi h)

  cap-Within : (x hi : W) → nought ≼ hi → Within (cap x hi) hi
  cap-Within x hi h = (unfold cap in positive_part (min_of hi x), cap-le x hi h)

  dec-Within : (m n k : ℕ) → m ≤ n → Within (f.dec m k) (f.dec n k)
  dec-Within m n k h = (dec_nonneg laws rounding m k, rounding.dec_mono m n k h)

  calc_wyckoff_score-Within :
      (w : Wyckoff W) (d : Direction) → Within (calc_wyckoff_score w d) (f.dec 15 0)
  unfolding calc_wyckoff_score
  calc_wyckoff_score-Within w d =
      let low = dec_nonneg laws rounding 15 0 in
      elim (Bool-cases (not (same_direction w.signal d))) [
        | inl e ↦ rw e (laws.nought_refl, low)
        | inr e ↦ rw e (cap-Within _ (f.dec 15 0) low)
      ]

  max_of-le : (x hi : W) → x ≼ hi → nought ≼ hi → max_of nought x ≼ hi
  max_of-le x hi h k = ground (arith, max_of-either laws nought x)

  divergence_score-le : (v : Trend) (d : Direction) → divergence_score v d ≼ f.dec 10 0
  unfolding divergence_score
  divergence_score-le v d =
      let low = dec_nonneg laws rounding 10 0 in
      let five = rounding.neg-le (f.dec 5 0) (dec_nonneg laws rounding 5 0) in
      ground (arith, refl_of_le _ _ low, laws.le_trans _ _ _ five low)

  positive-divergence_score :
      (v : Trend) (d : Direction) → Within (max_of nought (divergence_score v d)) (f.dec 10 0)
  positive-divergence_score v d = (
    positive_part (divergence_score v d),
    max_of-le _ _ (divergence_score-le v d) (dec_nonneg laws rounding 10 0),
  )

  total_bounds :
      (x : W)
      → let t = f.round (min_of (f.dec 100 0) (max_of nought x)) 1 in
        (nought ≼ t) × (t ≼ f.dec 100 0)
  total_bounds x =
      let m = min_of (f.dec 100 0) (max_of nought x) in
      let (a, b) =
        least (f.dec 100 0) (max_of nought x) (dec_nonneg laws rounding 100 0) (positive_part x) in
      let low : f.round nought 1 ≼ f.round m 1 = rounding.round_mono nought m 1 a in
      let high : f.round m 1 ≼ f.round (f.dec 100 0) 1 = rounding.round_mono m (f.dec 100 0) 1 b in
      (
        rw (rounding.round-dec 0 0 1 (omega arith)) at low,
        rw (rounding.round-dec 100 0 1 (omega arith)) at high,
      )

  -- For ordered and correctly rounded floats, NaN allowed: whatever the analyses, the confidence of an
  -- entry lies between 0 and 100; and none of its scores for structure, trend, price action, Wyckoff,
  -- liquidity, volatility and divergence is negative or more than the 35, 20, 20, 15, 5, 5 and 10 that
  -- are documented.
  pub calc_confidence-IsBounded :
      (smc : SmcStructure W) (w : Wyckoff W) (pa : Patterns) (t : TrendResult W) (adx ratio : W)
      (session : Session) (d : Direction) (v : Trend)
      → IsBounded (calc_confidence smc w pa t adx ratio session d v)
  unfolding calc_confidence
  calc_confidence-IsBounded smc w pa t adx ratio session d v = (
    dec-Within (smc_points smc d) 35 0 (smc_points-le smc d),
    dec-Within (trend_points t d) 20 0 (trend_points-le t d),
    dec-Within (min 20 (pa_points pa)) 20 0 (omega arith),
    calc_wyckoff_score-Within w d,
    dec-Within (liquidity_quarters smc d * 25) 500 2 (omega (arith, liquidity_quarters-le smc d)),
    dec-Within (volatility_quarters adx ratio session * 25) 500 2
        (omega (arith, volatility_quarters-le adx ratio session)),
    positive-divergence_score v d,
    total_bounds _,
  )

  pub calc_confidence-le :
      (smc : SmcStructure W) (w : Wyckoff W) (pa : Patterns) (t : TrendResult W) (adx ratio : W)
      (session : Session) (d : Direction) (v : Trend)
      → (calc_confidence smc w pa t adx ratio session d v).total ≼ f.dec 100 0
  calc_confidence-le smc w pa t adx ratio session d v =
      (calc_confidence-IsBounded smc w pa t adx ratio session d v).7.1

  -- For ordered and correctly rounded floats and any candles: as no sweep is found, an entry has at
  -- most 31 points for the structure, and 6 quarters of a point for liquidity; and at most 8 points for
  -- price action.
  pub calc_confidence_reach :
      (cs : List (Candle W)) (pa : Patterns) (d : Direction)
      → let smc = analyze_smc_structure cs in
        (smc_points smc d ≤ 31) × (liquidity_quarters smc d ≤ 6) × (pa_points pa ≤ 8)
  calc_confidence_reach cs pa d =
      let smc = analyze_smc_structure cs in
      let e = analyze_smc_structure-liquidity_sweeps laws rounding cs in
      (smc_points-unswept smc d e, liquidity_quarters-unswept smc d e, pa_points-le pa)
