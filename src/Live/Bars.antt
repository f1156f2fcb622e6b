-- ===== src/Live/Bars.antt =====
-- live_trading/trading/live_loop.py: `_check_new_bars`, and the delay before a reconnection. An instant
-- is a number of seconds; a timeframe is a number.
use scalping.Prelude.{
  ℕ, zero, suc, ◌+◌, ◌-◌, ◌*◌, ◌^◌, min, Bool, true, false, Option, none, some, List, [], ◌∷◌, ltb,
  ◌==◌, if◌then◌else◌,
}
pub mod Fresh
mod Tests

-- `_last_bar_times`, in the order of TRADE_TIMEFRAMES.
abbrev pub BarTimes : Type 0
BarTimes = List (ℕ × Option ℕ)

-- A bar is new if it is later than the last one seen, or the first.
abbrev pub is_newer : Option ℕ → ℕ → Bool
is_newer none t = true
is_newer (some prev) t = ltb prev t

-- One timeframe: the time of its last completed bar (`none` if the bridge has none, or raised) gives
-- the time that is remembered, and the new bar if there is one. More than two hours is stale.
pub check_timeframe : (now : ℕ) (answer prev : Option ℕ) → Option ℕ × Option ℕ
check_timeframe now none prev = (prev, none)
check_timeframe now (some t) prev =
    if ltb (t + 7200) now
    then (some t, none)
    else if is_newer prev t
    then (some t, some t)
    else (prev, none)

abbrev pub emit : ℕ → Option ℕ → List (ℕ × ℕ) → List (ℕ × ℕ)
emit tf none bars = bars
emit tf (some t) bars = (tf, t) ∷ bars

-- All timeframes: the times remembered, and the new bars in the same order.
pub check_new_bars : (now : ℕ) (answers : ℕ → Option ℕ) → BarTimes → BarTimes × List (ℕ × ℕ)
unfolding check_timeframe
check_new_bars now answers [] = ([], [])
check_new_bars now answers ((tf, prev) ∷ times) =
    let one = check_timeframe now (answers tf) prev in
    let rest = check_new_bars now answers times in ((tf, one.0) ∷ rest.0, emit tf one.1 rest.1)

-- `_run_loop`: the delay after the n-th failed attempt in a row, doubled up to the cap.
pub backoff : (reconnect_base reconnect_max_delay attempts : ℕ) → ℕ
backoff base cap attempts = min (base * 2 ^ (attempts - 1)) cap
