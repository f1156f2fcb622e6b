-- ===== src/Signals/Regime/Sides.antt =====
-- Which sides a regime allows (live_trading/signals/market_regime.py).
use scalping.Prelude.{◌≡◌, ◌⊎◌, Bool, true, false, Option, List, arith}
use scalping.Float.{Float}
use scalping.Market.{Candle, Direction, buy, sell, bullish, bearish}
use scalping.Signals.Trend.{TrendResult}
use scalping.Signals.Regime.{
  Phase, accumulating, distributing, Thresholds, regime_rules, calc_atr_values, calc_adx,
  falls_back, detect_pullback, regime_of, detect_market_regime,
}

module _ {ℓ} {W : Type ℓ} ⦃f : Float W⦄ where
  -- A pullback is one of the trend.
  detect_pullback_trend :
      (cs : List (Candle W)) (t : TrendResult W)
      → ((falls_back buy (detect_pullback cs t) ≡ false) ⊎ (t.trend ≡ bullish))
        × ((falls_back sell (detect_pullback cs t) ≡ false) ⊎ (t.trend ≡ bearish))
  unfolding detect_pullback
  detect_pullback_trend cs t = ground arith

  regime_of_sides :
      (th : Thresholds W) (high_vol : Bool) (ratio adx : W) (t : TrendResult W)
      (p : Option Direction) (phase : Phase)
      → (falls_back buy p ≡ false) ⊎ (t.trend ≡ bullish)
      → (falls_back sell p ≡ false) ⊎ (t.trend ≡ bearish)
      → let r = regime_rules th (regime_of high_vol ratio adx t p phase) in
        ((r.allow_long ≡ true) ⊎ (t.trend ≡ bearish) ⊎ (phase ≡ distributing))
        × ((r.allow_short ≡ true) ⊎ (t.trend ≡ bullish) ⊎ (phase ≡ accumulating))
  unfolding regime_of
  regime_of_sides th high_vol ratio adx t p phase h k = ground arith

  -- A regime forbids long entries only where the trend is bearish or Wyckoff sees distribution, and
  -- short ones only where the trend is bullish or Wyckoff sees accumulation.
  pub detect_market_regime_sides :
      (th : Thresholds W) (cs : List (Candle W)) (t : TrendResult W) (phase : Phase)
      (high_vol : Bool)
      → let r = (detect_market_regime th cs t phase high_vol).rules in
        ((r.allow_long ≡ true) ⊎ (t.trend ≡ bearish) ⊎ (phase ≡ distributing))
        × ((r.allow_short ≡ true) ⊎ (t.trend ≡ bullish) ⊎ (phase ≡ accumulating))
  unfolding detect_market_regime
  detect_market_regime_sides th cs t phase high_vol =
      let (atr, mean, ratio) = calc_atr_values cs 20 in
      let (h, k) = detect_pullback_trend cs t in
      regime_of_sides th high_vol ratio (calc_adx cs 14) t (detect_pullback cs t) phase h k
