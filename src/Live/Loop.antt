-- ===== src/Live/Loop.antt =====
-- live_trading/trading/live_loop.py: one iteration of `_run_loop`. What the bridge, the clock and the
-- panel answer in it is the record `Tick`.
use scalping.Prelude.{
  ℕ, suc, Bool, true, false, not, Option, none, some, List, [], ◌∷◌, ◌++◌, any, map, ◌==◌,
  if◌then◌else◌,
}
use scalping.Float.{Float}
use scalping.Risk.Trailing.{Baseline}
use scalping.Mt5.Positions.{Ticket, same_ticket, Row, Positions}
use scalping.Live.Engine.{
  not_evaluated, paused, waiting, disconnected, Account, LogRow, LiveConfig, Engine,
  set_trade_permission, write_state,
}
use scalping.Live.Bar.{Settings, Reply, Bar}
use scalping.Live.Gates.{get_open_positions, tick_bars}
use scalping.Live.Commands.{Commands, World}
use scalping.Live.Commands.Process.{process_commands}
use scalping.Live.Bars.{BarTimes, check_new_bars}
use scalping.Live.Trades.{CloseHistory, Broker, CheckedAt, reconcile_closed_trades}
use scalping.Live.Upkeep.{Move, Trailing, Prices, manage_trailing_stop}
pub mod Stopped
mod Tests

-- The engine, with the tables that it keeps between iterations.
pub record Loop {ℓ} (W : Type ℓ) : Type ℓ where
  pub engine : Engine W
  pub baselines : Ticket → Option (Baseline W)
  pub checked_at : CheckedAt
  pub bar_times : BarTimes

pub record Tick {ℓ} (W : Type ℓ) : Type ℓ where
  pub world : World W
  pub commands : Commands W
  pub connected : Bool
  pub trail_reply : Reply W
  pub prices : Option (Prices W)
  pub reconcile_reply : Reply W
  pub loop_time : ℕ
  pub history : ℕ → Option (CloseHistory W)
  pub now : ℕ
  pub bar_answers : ℕ → Option ℕ
  pub bar_of : ℕ × ℕ → Bar W
  pub refreshed_account : Option (Account W)

-- The loop after an iteration, the positions opened and the stops moved in it.
pub record Turn {ℓ} (W : Type ℓ) : Type ℓ where
  pub loop : Loop W
  pub opened : List ℕ
  pub moves : List (Move W)

module _ {ℓ} {W : Type ℓ} where
  rows_of : Option (Positions W) → Option (List (Row W))
  rows_of none = none
  rows_of (some p) = some p.result

  broker_of : Tick W → List (Row W) → Broker W
  broker_of i rows = record {
    is_open = λ id. any (λ r. same_ticket r.ticket (some id)) rows;
    now = i.loop_time;
    history = i.history;
  }

  -- Between two bars the account is refreshed, if it answers in time.
  refresh : Option (Account W) → Engine W → Engine W
  refresh none s = write_state waiting s
  refresh (some a) s = write_state waiting (record s { last_acc_info = some a })

  -- An iteration is entered only while the robot runs.
  join : (running : Bool) → Loop W → (first rest : Turn W) → Turn W
  join true l t rest = record {
    loop = rest.loop;
    opened = t.opened ++ rest.opened;
    moves = t.moves ++ rest.moves;
  }
  join false l t rest = record { loop = l; opened = []; moves = [] }

module _ {ℓ} {W : Type ℓ} ⦃f : Float W⦄ where
  trail_step : Settings W → Tick W → Loop W → Trailing W
  unfolding rows_of
  trail_step c i l =
      manage_trailing_stop l.engine.config.trailing_enabled
        (rows_of (get_open_positions c i.trail_reply l.engine)) i.prices
        (record { baselines = l.baselines; log = l.engine.trade_history; moves = [] })

  reconcile_step : Tick W → Option (List (Row W)) → Loop W → Loop W
  unfolding broker_of
  reconcile_step i none l = l
  reconcile_step i (some rows) l =
      let r = reconcile_closed_trades (broker_of i rows) l.checked_at l.engine.trade_history in
      record l { engine = record l.engine { trade_history = r.0 }; checked_at = r.1 }

  bars_step : Settings W → Tick W → List (ℕ × ℕ) → Engine W → Engine W × List ℕ
  unfolding refresh
  bars_step c i [] s =
      (refresh i.refreshed_account (record s { trade_opened_this_tick = false }), [])
  bars_step c i (b ∷ bs) s = tick_bars c (map i.bar_of (b ∷ bs)) s

  -- The part of an iteration that a connected robot goes through.
  connected_step : Settings W → Tick W → Loop W → Turn W
  unfolding trail_step reconcile_step bars_step
  connected_step c i l =
      let t = trail_step c i l in
      let l1 : Loop W = record l {
        engine = record l.engine { trade_history = t.log };
        baselines = t.baselines;
      } in
      let l2 = reconcile_step i (rows_of (get_open_positions c i.reconcile_reply l1.engine)) l1 in
      let bars = check_new_bars i.now i.bar_answers l2.bar_times in
      let r = bars_step c i bars.1 l2.engine in
      record {
        loop = record l2 { engine = r.0; bar_times = bars.0 };
        opened = r.1;
        moves = t.moves;
      }

  pub tick : Settings W → Tick W → Loop W → Turn W
  unfolding connected_step
  tick c i l =
      let s =
        process_commands c i.world i.commands (set_trade_permission false not_evaluated l.engine) in
      let go = connected_step c i (record l { engine = record s { reconnect_attempts = 0 } }) in
      let lost =
        write_state disconnected (record s { reconnect_attempts = suc s.reconnect_attempts }) in
      if s.paused
      then record { loop = record l { engine = write_state paused s }; opened = []; moves = [] }
      else if not i.connected
      then record { loop = record l { engine = lost }; opened = []; moves = [] }
      else go

  -- The loop, until the robot no longer runs or the ticks end.
  pub run_loop : Settings W → List (Tick W) → Loop W → Turn W
  unfolding tick join
  run_loop c [] l = record { loop = l; opened = []; moves = [] }
  run_loop c (i ∷ is) l = let t = tick c i l in join l.engine.running l t (run_loop c is t.loop)
