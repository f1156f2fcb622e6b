-- ===== src/Signals/Quality/Tests.antt =====
-- Runs of live_trading/signals/quality_filter.py.
use scalping.Prelude.{◌≡◌, refl, true, none, some, [], ◌∷◌, List, ◌++◌}
use scalping.Float.{max_of, sum_from}
use scalping.Float.Fixed.{Fixed, fixed_float}
use scalping.Market.{Candle, buy}
use scalping.Signals.Indicators.{replicate, average, smooth}
use scalping.Signals.Confidence.{moderate_session, blocked}
use scalping.Signals.Quality.{
  QualityRules, insufficient_data, get_session_quality, apply_quality_filter, judged,
  severely_ranging, late, late_at, calc_ema50, is_exhausted,
}
use scalping.Signals.Samples.{candle_of, dollars, wave}

abbrev limits : QualityRules Fixed
limits = record {
  quality_adx_min = dollars 15;
  conf_hard_min = dollars 40;
  structure_max_age_bars = 20;
}

abbrev calm : List (Candle Fixed)
calm = replicate 29 (candle_of 104 106) ++ candle_of 106 104 ∷ []

night : get_session_quality (some 23) ≡ moderate_session
unfolding get_session_quality
night = refl

unreadable : get_session_quality none ≡ blocked
unfolding get_session_quality
unreadable = refl

too_few :
    (apply_quality_filter limits wave (some 9) buy (dollars 60) none none).blocked_reasons
    ≡ insufficient_data ∷ []
unfolding apply_quality_filter
too_few = refl

is_let_through :
    (apply_quality_filter limits calm
      (some 9)
      buy
      (dollars 60)
      (some 20)
      (some (dollars 25))).allowed
    ≡ true
unfolding apply_quality_filter judged get_session_quality severely_ranging late late_at calc_ema50
    is_exhausted average smooth sum_from max_of
is_let_through = refl
