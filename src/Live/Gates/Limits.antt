-- ===== src/Live/Gates/Limits.antt =====
-- How many trades `_on_new_bar` can open in a tick, and the range trades that its log counts
-- (live_trading/trading/live_loop.py).
use scalping.Prelude.{
  ℕ, zero, suc, ◌+◌, ◌≤◌, ◌≡◌, refl, ◌/◌, Bool, true, false, ◌&&◌, none, some, List, [], ◌∷◌, ◌++◌,
  ◌==◌, length, drop, last_start, if◌then◌else◌, arith, Option-cases, Bool-cases, inl, inr, ap,
  length-append,
}
use scalping.Float.{Float}
use scalping.Market.{is_range}
use scalping.Live.Engine.{LogRow, Engine, log_trade}
use scalping.Live.Bar.{Settings, Bar, counts, range_entries, entry_log}
use scalping.Live.Gates.{opened, on_new_bar, run_bars, tick_bars}
use scalping.Live.Gates.Cleared.{cleared, on_new_bar-sent}
use scalping.Live.Gates.Session.{remembered, on_new_bar-memory}

abbrev marked : Bool → ℕ
marked true = 1
marked false = 0

module _ {ℓ} {W : Type ℓ} ⦃f : Float W⦄ where
  pub opened-cleared :
      (c : Settings W) (b : Bar W) (s : Engine W)
      → opened b (on_new_bar c b s)
        ≡ (if cleared c b s then elim b.accepted [ none ↦ [] | some id ↦ id ∷ [] ] else [])
  unfolding opened
  opened-cleared c b s = elim (Bool-cases (cleared c b s)) [
    | inl e ↦ rw (on_new_bar-sent c b s, e) refl
    | inr e ↦ rw (on_new_bar-sent c b s, e) refl
  ]

  closed_tick :
      (c : Settings W) (b : Bar W) (s : Engine W)
      → s.trade_opened_this_tick ≡ true
      → cleared c b s ≡ false
  closed_tick c b s h = ground arith

  marked-on_new_bar :
      (c : Settings W) (b : Bar W) (s : Engine W)
      → (on_new_bar c b s).engine.trade_opened_this_tick
        ≡ (remembered c b (cleared c b s) s).opened_this_tick
  marked-on_new_bar c b s = ap (λ m. m.opened_this_tick) (on_new_bar-memory c b s)

  -- A bar opens one trade at most, and only in a tick that is not marked; then it marks it.
  opened_bound :
      (c : Settings W) (b : Bar W) (s : Engine W)
      → marked s.trade_opened_this_tick + length (opened b (on_new_bar c b s))
        ≤ marked (on_new_bar c b s).engine.trade_opened_this_tick
  opened_bound c b s =
      ground (arith, opened-cleared c b s, marked-on_new_bar c b s, closed_tick c b s)

  run_bars-opened :
      (c : Settings W) (bs : List (Bar W)) (s : Engine W)
      → marked s.trade_opened_this_tick + length (run_bars c bs s).1 ≤ 1
  unfolding run_bars
  run_bars-opened c [] s = ground arith
  run_bars-opened c (b ∷ bs) s = ground (
    arith,
    opened_bound c b s,
    run_bars-opened c bs (on_new_bar c b s).engine,
    length-append (opened b (on_new_bar c b s)) (run_bars c bs (on_new_bar c b s).engine).1,
  )

  -- However many timeframes close a bar in the same tick, one position at most is opened.
  pub tick_bars-opened :
      (c : Settings W) (bs : List (Bar W)) (s : Engine W) → length (tick_bars c bs s).1 ≤ 1
  unfolding tick_bars
  tick_bars-opened c bs s =
      omega (arith, run_bars-opened c bs (record s { trade_opened_this_tick = false }))

  pub range_entries-append :
      (date : ℕ) (xs ys : List (LogRow W))
      → range_entries date (xs ++ ys) ≡ range_entries date xs + range_entries date ys
  unfolding range_entries
  range_entries-append date [] ys = omega arith
  range_entries-append date (x ∷ xs) ys = ground (arith, range_entries-append date xs ys)

  range_entries-drop :
      (date n : ℕ) (xs : List (LogRow W)) → range_entries date (drop n xs) ≤ range_entries date xs
  unfolding range_entries
  range_entries-drop date zero xs = omega arith
  range_entries-drop date (suc n) [] = omega arith
  range_entries-drop date (suc n) (x ∷ xs) = ground (arith, range_entries-drop date n xs)

  range_entries-log_trade :
      (date m now : ℕ) (r : LogRow W) (xs : List (LogRow W))
      → range_entries date (log_trade m now r xs)
        ≤ range_entries date xs + range_entries date (record r { logged_at = some (some now) } ∷ [])
  unfolding log_trade
  range_entries-log_trade date m now r xs =
      let row = record r { logged_at = some (some now) } ∷ [] in
      omega (
        arith,
        range_entries-append date xs row,
        range_entries-drop date (last_start m (length (xs ++ row))) (xs ++ row),
      )

  -- A new row counts only for the date of its bar, and only if the trade is a range trade.
  pub range_entries-entry_log :
      (date now id : ℕ) (b : Bar W)
      → range_entries date (record (entry_log id b) { logged_at = some (some now) } ∷ [])
        ≡ (if is_range b.decision.regime && (b.bar_time / 86400 == date) then 1 else 0)
  unfolding range_entries counts entry_log
  range_entries-entry_log date now id b = ground arith

  pub history-on_new_bar :
      (c : Settings W) (b : Bar W) (s : Engine W)
      → (on_new_bar c b s).engine.trade_history ≡ (remembered c b (cleared c b s) s).trade_history
  history-on_new_bar c b s = ap (λ m. m.trade_history) (on_new_bar-memory c b s)

  -- A session in which the number of range trades is within the limit stays within it.
  pub on_new_bar-range_entries :
      (c : Settings W) (date : ℕ) (b : Bar W) (s : Engine W)
      → range_entries date s.trade_history ≤ c.max_range_trades_per_session
      → range_entries date (on_new_bar c b s).engine.trade_history ≤ c.max_range_trades_per_session
  on_new_bar-range_entries c date b s h = elim (Bool-cases (cleared c b s)) [
    | inr e ↦ ground (arith, history-on_new_bar c b s)
    | inl e ↦ elim (Option-cases b.accepted) [
      | inl o ↦ ground (arith, history-on_new_bar c b s)
      | inr (id, o) ↦ ground (
        arith,
        history-on_new_bar c b s,
        range_entries-log_trade date c.max_trade_history b.now (entry_log id b) s.trade_history,
        range_entries-entry_log date b.now id b,
      )
    ]
  ]
