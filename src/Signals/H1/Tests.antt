-- ===== src/Signals/H1/Tests.antt =====
-- Runs of live_trading/signals/h1_validator.py.
use scalping.Prelude.{
  ℕ, ◌+◌, ◌*◌, ◌≤◌, ◌≡◌, refl, true, some, is_some, List, [], ◌∷◌, map, All, length, get_last?,
}
use scalping.Float.{max_of, min_of}
use scalping.Float.Fixed.{Fixed, fixed_float}
use scalping.Signals.H1.{
  H1Candle, hour, too_few, sub_hour, still_open, valid_times, gap_issue, chain_issue, age_issue,
  candle_issue, candles_issue, verdict, validate_h1_candles,
}
use scalping.Signals.H1.Valid.{IsRegular, IsOver, IsOhlc, validate_h1_candles_valid}
use scalping.Signals.Samples.{candle_of}

abbrev at : ℕ → H1Candle Fixed
at n = record { time = some ((480000 + n) * hour); candle = candle_of 104 106 }

abbrev now : ℕ
now = 480004 * hour

abbrev series : List (H1Candle Fixed)
series = at 0 ∷ at 1 ∷ at 3 ∷ []

is_valid : (validate_h1_candles series 3 now).valid ≡ true
unfolding validate_h1_candles verdict chain_issue gap_issue age_issue candles_issue candle_issue
    max_of min_of
is_valid = refl

two_faults : (validate_h1_candles (at 0 ∷ at 4 ∷ []) 3 now).issues ≡ too_few ∷ still_open ∷ []
unfolding validate_h1_candles verdict chain_issue gap_issue age_issue candles_issue candle_issue
    max_of min_of
two_faults = refl

half_an_hour : gap_issue 0 (30 * 60 * 1000000) ≡ some sub_hour
unfolding gap_issue
half_an_hour = refl

validate_h1_candles_valid_example :
    let times = map (λ c. c.time) series in
    (3 ≤ length series)
    × All (λ t. is_some t ≡ true) times
    × IsRegular (valid_times times)
    × IsOver now (get_last? (valid_times times))
    × All IsOhlc (map (λ c. c.candle) series)
validate_h1_candles_valid_example = validate_h1_candles_valid series 3 now is_valid
