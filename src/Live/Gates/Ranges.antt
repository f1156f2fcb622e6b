-- ===== src/Live/Gates/Ranges.antt =====
-- How many range trades `_on_new_bar` can open in a session (live_trading/trading/live_loop.py).
use scalping.Prelude.{
  ℕ, zero, suc, last_start, ◌+◌, ◌≤◌, ◌≡◌, refl, ◌/◌, false, ◌&&◌, some, List, [], ◌∷◌, ◌++◌, ◌==◌,
  length, if◌then◌else◌, arith, Option-cases, Bool-cases, inl, inr, length-append,
}
use scalping.Float.{Float}
use scalping.Market.{is_range}
use scalping.Live.Engine.{LogRow, Engine, log_trade}
use scalping.Live.Bar.{Settings, Bar, range_entries, entry_log}
use scalping.Live.Gates.{opened, on_new_bar, run_bars, tick_bars}
use scalping.Live.Gates.Cleared.{cleared}
use scalping.Live.Gates.Limits.{
  opened-cleared, history-on_new_bar, range_entries-append, range_entries-entry_log,
  on_new_bar-range_entries,
}

last_start-short : (n l : ℕ) → l ≤ n → last_start n l ≡ 0
last_start-short zero l h = refl
last_start-short (suc n) l h = omega (arith, h)

module _ {ℓ} {W : Type ℓ} ⦃f : Float W⦄ where
  -- The positions that a bar of a date opens on the decision of a range.
  abbrev range_opened : Settings W → (date : ℕ) → Bar W → Engine W → ℕ
  range_opened c date b s =
      if is_range b.decision.regime && (b.bar_time / 86400 == date)
      then length (opened b (on_new_bar c b s))
      else 0

  abbrev bars_opened : Settings W → (date : ℕ) → List (Bar W) → Engine W → ℕ
  bars_opened c date [] s = 0
  bars_opened c date (b ∷ bs) s =
      range_opened c date b s + bars_opened c date bs (on_new_bar c b s).engine

  -- Those of any sequence of ticks, each with the bars that close in it.
  abbrev pub ticks_opened : Settings W → (date : ℕ) → List (List (Bar W)) → Engine W → ℕ
  ticks_opened c date [] s = 0
  ticks_opened c date (bs ∷ ticks) s =
      bars_opened c date bs (record s { trade_opened_this_tick = false })
      + ticks_opened c date ticks (tick_bars c bs s).0

  abbrev pub bars_in : List (List (Bar W)) → ℕ
  bars_in [] = 0
  bars_in (bs ∷ ticks) = length bs + bars_in ticks

  -- From one state to another, the log grew by at most `n` rows and by `r` range trades of the date.
  abbrev Grew : Settings W → (date n r : ℕ) → Engine W → Engine W → Type 0
  Grew c date n r s s' =
      (range_entries date s'.trade_history ≡ range_entries date s.trade_history + r)
      × (range_entries date s'.trade_history ≤ c.max_range_trades_per_session)
      × (length s'.trade_history ≤ length s.trade_history + n)

  log_trade-kept :
      (m now : ℕ) (r : LogRow W) (xs : List (LogRow W))
      → length xs + 1 ≤ m
      → log_trade m now r xs ≡ xs ++ (record r { logged_at = some (some now) } ∷ [])
  unfolding log_trade
  log_trade-kept m now r xs h =
      let row = record r { logged_at = some (some now) } ∷ [] in
      let short : last_start m (length (xs ++ row)) ≡ 0 =
        last_start-short m (length (xs ++ row)) (omega (arith, length-append xs row, h)) in
      rw short refl

  on_new_bar-Grew :
      (c : Settings W) (date : ℕ) (b : Bar W) (s : Engine W)
      → length s.trade_history + 1 ≤ c.max_trade_history
      → range_entries date s.trade_history ≤ c.max_range_trades_per_session
      → Grew c date 1 (range_opened c date b s) s (on_new_bar c b s).engine
  on_new_bar-Grew c date b s m h =
      let within = on_new_bar-range_entries c date b s h in
      elim (Bool-cases (cleared c b s)) [
        | inr e ↦ ground (arith, history-on_new_bar c b s, opened-cleared c b s, within)
        | inl e ↦ elim (Option-cases b.accepted) [
          | inl o ↦ ground (arith, history-on_new_bar c b s, opened-cleared c b s, within)
          | inr (id, o) ↦
              let row = record (entry_log id b) { logged_at = some (some b.now) } ∷ [] in
              ground (
                arith,
                history-on_new_bar c b s,
                opened-cleared c b s,
                within,
                log_trade-kept c.max_trade_history b.now (entry_log id b) s.trade_history m,
                range_entries-append date s.trade_history row,
                range_entries-entry_log date b.now id b,
                length-append s.trade_history row,
              )
        ]
      ]

  run_bars-Grew :
      (c : Settings W) (date : ℕ) (bs : List (Bar W)) (s : Engine W)
      → length s.trade_history + length bs ≤ c.max_trade_history
      → range_entries date s.trade_history ≤ c.max_range_trades_per_session
      → Grew c date (length bs) (bars_opened c date bs s) s (run_bars c bs s).0
  unfolding run_bars
  run_bars-Grew c date [] s m h = (omega arith, h, omega arith)
  run_bars-Grew c date (b ∷ bs) s m h =
      let t = (on_new_bar c b s).engine in
      let (e, within, long) = on_new_bar-Grew c date b s (omega (arith, m)) h in
      let (e', within', long') = run_bars-Grew c date bs t (omega (arith, m, long)) within in
      (omega (arith, e, e'), within', omega (arith, long, long'))

  -- Over any ticks, each with the bars that close in it, while the log is long enough to keep every
  -- entry: the positions that are opened on the decision of a range by bars of one date, together with
  -- the range trades of this date that the log held before, are no more than the limit of a session, if
  -- those before were no more.
  pub tick_bars-ticks_opened :
      (c : Settings W) (date : ℕ) (ticks : List (List (Bar W))) (s : Engine W)
      → length s.trade_history + bars_in ticks ≤ c.max_trade_history
      → range_entries date s.trade_history ≤ c.max_range_trades_per_session
      → range_entries date s.trade_history + ticks_opened c date ticks s
        ≤ c.max_range_trades_per_session
  unfolding tick_bars
  tick_bars-ticks_opened c date [] s m h = omega (arith, h)
  tick_bars-ticks_opened c date (bs ∷ ticks) s m h =
      let s' = record s { trade_opened_this_tick = false } in
      let (e, within, long) = run_bars-Grew c date bs s' (omega (arith, m)) h in
      let rest =
        tick_bars-ticks_opened c date ticks (run_bars c bs s').0 (omega (arith, m, long)) within in
      omega (arith, e, rest)
