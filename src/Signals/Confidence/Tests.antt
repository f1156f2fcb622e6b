-- ===== src/Signals/Confidence/Tests.antt =====
-- Runs of live_trading/signals/confidence_engine.py.
use scalping.Prelude.{◌≡◌, refl, true, false}
use scalping.Float.Fixed.{Fixed, fixed_float, Fixed-IsOrdered, Fixed-IsRounded}
use scalping.Market.{buy, sell, bearish}
use scalping.Signals.Smc.Analyze.{analyze_smc_structure}
use scalping.Signals.Confidence.{
  Patterns, Wyckoff, prime, prime_grade, marginal, pa_points, trend_points, volatility_quarters,
  calc_confidence, assign_grade,
}
use scalping.Signals.Confidence.Bounds.{IsBounded, calc_confidence-IsBounded}
use scalping.Signals.Samples.{wave, dollars, rising}

abbrev all_patterns : Patterns
all_patterns = record {
  engulf = true;
  pin_bar = true;
  strong_candle = true;
  valid_breakout = true;
  pullback = true;
  near_zone = true;
  near_level = true;
  fake_breakout = false;
}

abbrev spring : Wyckoff Fixed
spring = record {
  signal = buy;
  score = dollars 1;
  spring = true;
  upthrust = false;
  volume_confirmed = true;
}

all_points : pa_points all_patterns ≡ 8
unfolding pa_points
all_points = refl

with_trend : trend_points rising buy ≡ 20
unfolding trend_points
with_trend = refl

against_trend : trend_points rising sell ≡ 0
unfolding trend_points
against_trend = refl

lively : volatility_quarters (dollars 31) (dollars 1) prime ≡ 20
unfolding volatility_quarters
lively = refl

exceptional : assign_grade (dollars 90) (dollars 47) (dollars 40) ≡ prime_grade
unfolding assign_grade
exceptional = refl

between : assign_grade (dollars 45) (dollars 47) (dollars 40) ≡ marginal
unfolding assign_grade
between = refl

calc_confidence-IsBounded_example : IsBounded (
    calc_confidence
      (analyze_smc_structure wave)
      spring
      all_patterns
      rising
      (dollars 31)
      (dollars 1)
      prime
      buy
      bearish)
calc_confidence-IsBounded_example =
    calc_confidence-IsBounded Fixed-IsOrdered Fixed-IsRounded (analyze_smc_structure wave) spring
      all_patterns rising (dollars 31) (dollars 1) prime buy bearish
