-- ===== src/Live/Commands/Process.antt =====
-- live_trading/trading/live_loop.py: `_process_commands` as a whole, with the commands that ask the
-- bridge: "close_all" and "reset_guardian".
use scalping.Prelude.{Bool, true, false, ◌&&◌, Option, none, some, List, [], ◌∷◌, if◌then◌else◌}
use scalping.Float.{Float}
use scalping.Mt5.Positions.{Ticket, Row, Positions}
use scalping.Risk.Guardian.{Saving, reset_halt}
use scalping.Live.Engine.{
  closed_by_telegram, running, Account, LogRow, Engine, write_state, log_trade,
}
use scalping.Live.Bar.{Settings}
use scalping.Live.Gates.{get_open_positions}
use scalping.Live.Commands.{
  Commands, World, on_pause, on_resume, on_stop, on_restart_mt5, on_update_risk, on_update_strategy,
}

module _ {ℓ} {W : Type ℓ} where
  unfoldable pub closing_row : Ticket → LogRow W
  closing_row t = record {
    position_id = t;
    action = some closed_by_telegram;
    direction = none;
    entry = none;
    sl = none;
    tp = none;
    lot = none;
    regime = none;
    bar_time = none;
    logged_at = none;
    new_sl = none;
    close_time = none;
    close_reason = none;
    profit = none;
  }

  -- `_close_all_positions`, position by position.
  unfoldable pub close_each : Settings W → World W → List (Row W) → Engine W → Engine W
  unfolding closing_row
  close_each c w [] s = s
  close_each c w (r ∷ rs) s =
      let done = write_state running (record s {
        trade_history = log_trade c.max_trade_history w.now (closing_row r.ticket) s.trade_history;
      }) in
      close_each c w rs (if w.close_succeeds r.ticket then done else s)

  unfoldable pub close_all_positions :
      Settings W → World W → Option (Positions W) → Engine W → Engine W
  unfolding close_each
  close_all_positions c w none s = s
  close_all_positions c w (some p) s = close_each c w p.result s

  unfoldable pub balance_of : Option (Account W) → Option W
  balance_of none = none
  balance_of (some a) = some a.balance

  -- The account from which the baseline is reset: the one at hand, or else a fresh one.
  unfoldable pub account_for : Bool → World W → Option (Account W) → Option (Account W)
  account_for true w none = w.fresh_account
  account_for _ w a = a

  -- A reset that succeeds resumes the robot.
  unfoldable pub after_reset : Saving W × Bool → Engine W → Engine W
  after_reset (r, ok) s =
      let s' = record s { guardian = r.state } in
      if ok && s.paused then write_state running (record s' { paused = false }) else s'

module _ {ℓ} {W : Type ℓ} ⦃f : Float W⦄ where
  unfoldable pub on_close_all : Bool → Settings W → World W → Engine W → Engine W
  unfolding close_all_positions
  on_close_all asked c w s =
      let closed = close_all_positions c w (get_open_positions c w.positions s) s in
      if asked then closed else s

  unfoldable pub on_reset_guardian : Option Bool → World W → Engine W → Engine W
  unfolding balance_of account_for after_reset
  on_reset_guardian none w s = s
  on_reset_guardian (some reset_daily_baseline) w s =
      let a = account_for reset_daily_baseline w s.last_acc_info in
      let s' = record s { last_acc_info = a } in
      after_reset
        (reset_halt w.today reset_daily_baseline
          (if reset_daily_baseline then balance_of a else none) s.guardian)
        s'

  unfoldable pub process_commands : Settings W → World W → Commands W → Engine W → Engine W
  unfolding on_close_all
  process_commands c w m s =
      let s1 = on_resume m.resume m.pause (on_pause m s) in
      let s2 = on_close_all m.close_all c w (on_stop m.stop s1) in
      let s3 = on_resume m.start m.pause (on_reset_guardian m.reset_guardian w s2) in
      let s4 = on_restart_mt5 m (on_stop m.restart_engine s3) in
      on_update_strategy m.update_strategy (on_update_risk m.update_risk s4)
