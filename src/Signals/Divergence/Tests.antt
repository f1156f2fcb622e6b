-- ===== src/Signals/Divergence/Tests.antt =====
-- Runs of live_trading/signals/divergence_engine.py.
use scalping.Prelude.{◌≡◌, refl, List, [], ◌∷◌, map}
use scalping.Float.{◌≤?◌, max_of, sum_from}
use scalping.Float.Fixed.{Fixed, fixed_float}
use scalping.Market.{bullish, bearish}
use scalping.Signals.Indicators.{average, rises, rsi_of, smooth_all}
use scalping.Signals.Divergence.{
  calc_rsi_array, is_pivot, pivots_from, pivots, last_two, parts, divergence, verdict,
}
use scalping.Signals.Samples.{dollars}

abbrev lower_lows : List Fixed
lower_lows = map dollars (9 ∷ 5 ∷ 9 ∷ 9 ∷ 4 ∷ 9 ∷ 9 ∷ [])

abbrev higher_lows : List Fixed
higher_lows = map dollars (9 ∷ 4 ∷ 9 ∷ 9 ∷ 5 ∷ 9 ∷ 9 ∷ [])

two_lows : pivots (λ v x. v ≤? x) lower_lows 1 ≡ 1 ∷ 4 ∷ []
unfolding pivots pivots_from is_pivot
two_lows = refl

is_bullish : divergence lower_lows higher_lows 1 ≡ bullish
unfolding divergence pivots pivots_from is_pivot last_two parts
is_bullish = refl

rsi_first : calc_rsi_array (map dollars (1 ∷ 2 ∷ 3 ∷ [])) 2 ≡ map dollars (50 ∷ 50 ∷ 100 ∷ [])
unfolding calc_rsi_array average rises rsi_of smooth_all sum_from max_of
rsi_first = refl

disagreement : (verdict {W = Fixed} bullish bearish).score ≡ dollars 7
disagreement = refl
