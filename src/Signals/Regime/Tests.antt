-- ===== src/Signals/Regime/Tests.antt =====
-- Runs of live_trading/signals/market_regime.py and trend_engine.py.
use scalping.Prelude.{◌≡◌, refl, false, none, some}
use scalping.Float.Fixed.{Fixed, fixed_float}
use scalping.Market.{buy, flat, strong_trend_bull, pullback_bull, low_volatility}
use scalping.Signals.Trend.{analyze_trend}
use scalping.Signals.Regime.{no_phase, Thresholds, calc_adx, regime_of}
use scalping.Signals.Samples.{wave, dollars, rising}

abbrev thresholds : Thresholds Fixed
thresholds = record { normal_min_confidence = dollars 47; range_min_confidence = dollars 47 }

few_candles : (analyze_trend wave).trend ≡ flat
unfolding analyze_trend
few_candles = refl

few_moves : calc_adx wave 14 ≡ dollars 20
unfolding calc_adx
few_moves = refl

strong_trend : regime_of false (dollars 1) (dollars 31) rising none no_phase ≡ strong_trend_bull
unfolding regime_of
strong_trend = refl

pullback : regime_of false (dollars 1) (dollars 25) rising (some buy) no_phase ≡ pullback_bull
unfolding regime_of
pullback = refl

quiet : regime_of false (dollars 0) (dollars 19) rising none no_phase ≡ low_volatility
unfolding regime_of
quiet = refl
