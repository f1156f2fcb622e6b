-- ===== src/Live/Commands.antt =====
-- live_trading/trading/live_loop.py: `_process_commands`, with the mailbox that the panel fills
-- (`redis_send_command` of live_trading/redis_ipc.py) and `clear_command`. A payload's value that is no
-- number is the inner `none`: the commands after it in the same payload are then not applied.
use scalping.Prelude.{
  ℕ, Bool, true, false, not, ◌&&◌, ◌||◌, Option, none, some, List, [], ◌∷◌, is_some, if◌then◌else◌,
}
use scalping.Prelude.Int.{ℤ}
use scalping.Float.{Float}
use scalping.Mt5.Positions.{Ticket, Row, Positions}
use scalping.Risk.Guardian.{RiskGuardian, Saving, reset_halt}
use scalping.Live.Engine.{
  closed_by_telegram, running, paused, disconnected, Account, LogRow, LiveConfig, Engine,
  write_state, log_trade,
}
use scalping.Live.Bar.{Settings, Reply}
use scalping.Live.Gates.{get_open_positions}
pub mod Process
pub mod Pause
pub mod Mailbox
pub mod Queue
mod Tests

pub record RiskPayload {ℓ} (W : Type ℓ) : Type ℓ where
  pub risk_percent : Option (Option W)
  pub daily_loss_limit_pct : Option (Option W)
  pub max_drawdown_pct : Option (Option W)
  pub slippage_points : Option (Option ℤ)
  pub auto_trailing : Option Bool

-- The dictionary of commands. `reset_guardian` holds its `reset_daily_baseline`.
pub record Commands {ℓ} (W : Type ℓ) : Type ℓ where
  pub pause : Bool
  pub resume : Bool
  pub stop : Bool
  pub close_all : Bool
  pub reset_guardian : Option Bool
  pub start : Bool
  pub restart_engine : Bool
  pub restart_mt5 : Bool
  pub restart_telegram : Bool
  pub update_risk : Option (RiskPayload W)
  pub update_strategy : Option (Option (Option ℤ))

-- What the clock and the bridge answer while commands are processed. Of an account that is fetched,
-- only one with a balance is of use.
pub record World {ℓ} (W : Type ℓ) : Type ℓ where
  pub today : ℕ
  pub now : ℕ
  pub fresh_account : Option (Account W)
  pub positions : Reply W
  pub close_succeeds : Ticket → Bool

-- The commands of the panel, under the names of `_PANEL_COMMAND_MAP`.
pub data PanelCommand {ℓ} (W : Type ℓ) : Type ℓ where
  pause resume emergency_stop safe_shutdown close_all start : PanelCommand W
  restart_engine restart_mt5 restart_telegram reconnect : PanelCommand W
  reset_guardian : (reset_daily_baseline : Bool) → PanelCommand W
  update_risk : RiskPayload W → PanelCommand W
  update_strategy : Option (Option ℤ) → PanelCommand W

module _ {ℓ} {W : Type ℓ} where
  unfoldable pub no_commands : Commands W
  no_commands = record {
    pause = false;
    resume = false;
    stop = false;
    close_all = false;
    reset_guardian = none;
    start = false;
    restart_engine = false;
    restart_mt5 = false;
    restart_telegram = false;
    update_risk = none;
    update_strategy = none;
  }

  -- `redis_send_command`: a later command of the same name replaces the earlier one.
  unfoldable pub send_command : PanelCommand W → Commands W → Commands W
  send_command pause m = record m { pause = true }
  send_command resume m = record m { resume = true }
  send_command emergency_stop m = record m { stop = true }
  send_command safe_shutdown m = record m { stop = true }
  send_command close_all m = record m { close_all = true }
  send_command start m = record m { start = true }
  send_command restart_engine m = record m { restart_engine = true }
  send_command restart_mt5 m = record m { restart_mt5 = true }
  send_command restart_telegram m = record m { restart_telegram = true }
  send_command reconnect m = record m { restart_mt5 = true }
  send_command (reset_guardian b) m = record m { reset_guardian = some b }
  send_command (update_risk p) m = record m { update_risk = some p }
  send_command (update_strategy p) m = record m { update_strategy = some p }

  -- The mailbox after `_process_commands` cleared what it took: a pause leaves "resume" and "start"
  -- where they are.
  unfoldable pub clear_commands : Commands W → Commands W
  unfolding no_commands
  clear_commands m = record no_commands { resume = m.resume && m.pause; start = m.start && m.pause }

  unfoldable pub on_pause : Commands W → Engine W → Engine W
  on_pause m s =
      if m.pause
      then (if not s.paused then write_state paused (record s { paused = true }) else s)
      else s

  -- "resume" and "start" do the same, unless a pause came with them.
  unfoldable pub on_resume : Bool → Bool → Engine W → Engine W
  on_resume asked pause_applied s =
      if asked && not pause_applied && s.paused && not s.guardian.halted
      then write_state running (record s { paused = false })
      else s

  unfoldable pub on_stop : Bool → Engine W → Engine W
  on_stop asked s = if asked then record s { running = false } else s

  unfoldable pub on_restart_mt5 : Commands W → Engine W → Engine W
  on_restart_mt5 m s =
      if m.restart_mt5 then write_state disconnected (record s { reconnect_attempts = 0 }) else s

  -- The steps of "update_risk", each with what is left to do.
  pub set_risk_percent : Option (Option W) → Engine W → Engine W × Bool
  set_risk_percent none s = (s, true)
  set_risk_percent (some none) s = (s, false)
  set_risk_percent (some (some v)) s =
      (record s { config = record s.config { risk_percent = v } }, true)

  pub set_daily_limit : Option (Option W) → Engine W → Engine W × Bool
  set_daily_limit none s = (s, true)
  set_daily_limit (some none) s = (s, false)
  set_daily_limit (some (some v)) s = (
    record s {
      config = record s.config { daily_loss_limit_pct = v };
      guardian = record s.guardian { daily_loss_limit_pct = v };
    },
    true,
  )

  pub set_max_drawdown : Option (Option W) → Engine W → Engine W × Bool
  set_max_drawdown none s = (s, true)
  set_max_drawdown (some none) s = (s, false)
  set_max_drawdown (some (some v)) s = (
    record s {
      config = record s.config { max_drawdown_pct = v };
      guardian = record s.guardian { max_drawdown_pct = v };
    },
    true,
  )

  pub set_slippage : Option (Option ℤ) → Engine W → Engine W × Bool
  set_slippage none s = (s, true)
  set_slippage (some none) s = (s, false)
  set_slippage (some (some v)) s =
      (record s { config = record s.config { slippage_points = v } }, true)

  pub set_trailing : Option Bool → Engine W → Engine W × Bool
  set_trailing none s = (s, true)
  set_trailing (some v) s = (record s { config = record s.config { trailing_enabled = v } }, true)

  -- One step after another, until one raises.
  infixl 5 ◌and_then◌
  pub ◌and_then◌ : Engine W × Bool → (Engine W → Engine W × Bool) → Engine W × Bool
  (s, true) and_then step = step s
  (s, false) and_then step = (s, false)

  unfoldable pub on_update_risk : Option (RiskPayload W) → Engine W → Engine W
  unfolding ◌and_then◌ set_risk_percent set_daily_limit set_max_drawdown set_slippage set_trailing
  on_update_risk none s = s
  on_update_risk (some p) s =
      (set_risk_percent p.risk_percent s
        and_then set_daily_limit p.daily_loss_limit_pct
        and_then set_max_drawdown p.max_drawdown_pct
        and_then set_slippage p.slippage_points
        and_then set_trailing p.auto_trailing).0

  unfoldable pub on_update_strategy : Option (Option (Option ℤ)) → Engine W → Engine W
  on_update_strategy (some (some (some v))) s = record s {
    config = record s.config { min_confirmations = v };
  }
  on_update_strategy _ s = s
