-- ===== src/Live/Bars/Tests.antt =====
-- Polls of a timeframe on concrete times (live_trading/trading/live_loop.py).
use scalping.Prelude.{◌+◌, ◌≡◌, refl, none, some, List, [], ◌∷◌}
use scalping.Live.Bars.{check_new_bars, check_timeframe}
use scalping.Live.Bars.Fresh.{Poll}

-- Two timeframes, of which the first has a bar that was seen.
two_timeframes :
    (check_new_bars 90000 (λ tf. some (86400 + tf)) ((20, some 86420) ∷ (5, some 86400) ∷ [])).1
    ≡ (5, 86405) ∷ []
unfolding check_new_bars check_timeframe
two_timeframes = refl

abbrev polls : List Poll
polls = (90000, some 89700) ∷ (90010, none) ∷ (90020, some 89700) ∷ (90030, some 90000) ∷ []
