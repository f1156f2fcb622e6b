-- ===== src/Signals/Trend.antt =====
-- live_trading/signals/trend_engine.py: the alignment of the three moving averages.
use scalping.Prelude.{◌&&◌, List, map, length, get_last?, or_else, ltb, if◌then◌else◌}
use scalping.Float.{Float, ◌<?◌, nought}
use scalping.Market.{Candle, Trend, bullish, bearish, flat, Strength, strong, moderate, weak}
use scalping.Signals.Indicators.{calc_ema}

pub record TrendResult {ℓ} (W : Type ℓ) : Type ℓ where
  pub ema50 : W
  pub ema100 : W
  pub ema200 : W
  pub trend : Trend
  pub strength : Strength

module _ {ℓ} {W : Type ℓ} ⦃f : Float W⦄ where
  align : (price ema50 ema100 ema200 : W) → TrendResult W
  align price e50 e100 e200 =
      let bull = (e50 <? price) && (e100 <? e50) in
      let bear = (price <? e50) && (e50 <? e100) in
      record {
        ema50 = e50;
        ema100 = e100;
        ema200 = e200;
        trend = if bull then bullish else if bear then bearish else flat;
        strength =
            if bull
            then (if e200 <? e100 then strong else moderate)
            else if bear
            then (if e100 <? e200 then strong else moderate)
            else weak;
      }

  unfoldable pub analyze_trend : List (Candle W) → TrendResult W
  unfolding align
  analyze_trend candles =
      let closes = map (λ c. c.close) candles in
      let last = or_else (get_last? closes) nought in
      if ltb (length closes) 210
      then record { ema50 = last; ema100 = last; ema200 = last; trend = flat; strength = weak }
      else align last (calc_ema closes 50) (calc_ema closes 100) (calc_ema closes 200)
