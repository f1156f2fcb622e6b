-- ===== src/Live/Engine.antt =====
-- The state of `GoldScalperLive` (live_trading/trading/live_loop.py), as far as it decides what the
-- loop does, and its log of trades. An instant is a number of seconds; a position's id is the number
-- that its text spells.
use scalping.Prelude.{ℕ, Bool, Option, some, List, [], ◌∷◌, ◌++◌, last_n, if◌then◌else◌}
use scalping.Prelude.Int.{ℤ}
use scalping.Market.{Direction, Regime}
use scalping.Risk.Guardian.{RiskGuardian}
use scalping.Mt5.Positions.{Ticket, same_ticket, Known}

-- The last stage of the entry gates. "READY_TO_PLACE_ORDER" is overwritten before anything reads it.
pub data Stage : Type 0 where
  not_evaluated evaluating account_data_unavailable guardian_halted position_check_failed : Stage
  unknown_position_data max_open_trades within_tick_duplicate_guard signal_blocked : Stage
  max_range_trades_per_session mtf_blocked range_cooldown position_already_open : Stage
  order_placed order_failed : Stage

-- `_last_trade_permission`, without its texts.
pub record Permission : Type 0 where
  pub allowed : Bool
  pub stage : Stage

-- The status that `_write_state` publishes.
pub data RobotStatus : Type 0 where
  running paused waiting holding scanning disconnected stopped error : RobotStatus

pub record Account {ℓ} (W : Type ℓ) : Type ℓ where
  pub balance : W
  pub equity : W

pub data Action : Type 0 where
  trail_sl closed_by_telegram : Action

-- The verdicts of `classify_close_reason`.
pub data CloseReason : Type 0 where
  tp sl be trailing manual : CloseReason

-- A row of the log of trades: keys that are missing are `none`. A time that does not parse is the
-- inner `none`.
pub record LogRow {ℓ} (W : Type ℓ) : Type ℓ where
  pub position_id : Option ℕ
  pub action : Option Action
  pub direction : Option Direction
  pub entry : Option W
  pub sl : Option W
  pub tp : Option W
  pub lot : Option W
  pub regime : Option Regime
  pub bar_time : Option (Option ℕ)
  pub logged_at : Option (Option ℕ)
  pub new_sl : Option W
  pub close_time : Option ℕ
  pub close_reason : Option CloseReason
  pub profit : Option W

-- The settings that commands change while the loop runs.
pub record LiveConfig {ℓ} (W : Type ℓ) : Type ℓ where
  pub risk_percent : W
  pub daily_loss_limit_pct : W
  pub max_drawdown_pct : W
  pub slippage_points : ℤ
  pub min_confirmations : ℤ
  pub trailing_enabled : Bool

pub record Engine {ℓ} (W : Type ℓ) : Type ℓ where
  pub running : Bool
  pub paused : Bool
  pub trade_opened_this_tick : Bool
  -- `_last_entry_bar_time` and `_last_entry_direction`.
  pub last_entry : Option (ℕ × Direction)
  pub trade_history : List (LogRow W)
  pub permission : Permission
  pub status : Option RobotStatus
  pub guardian : RiskGuardian W
  pub last_acc_info : Option (Account W)
  pub consecutive_acc_failures : ℕ
  pub reconnect_attempts : ℕ
  pub config : LiveConfig W

module _ {ℓ} {W : Type ℓ} where
  -- `_set_trade_permission`.
  abbrev pub set_trade_permission : Bool → Stage → Engine W → Engine W
  set_trade_permission allowed stage s = record s {
    permission = record { allowed = allowed; stage = stage };
  }

  -- `_write_state`, of which the status is kept.
  abbrev pub write_state : RobotStatus → Engine W → Engine W
  write_state st s = record s { status = some st }

  -- `log_trade`: the last `max_history` rows are kept.
  unfoldable pub log_trade : (max_history now : ℕ) → LogRow W → List (LogRow W) → List (LogRow W)
  log_trade max_history now row history =
      last_n max_history (history ++ (record row { logged_at = some (some now) } ∷ []))

  known_fields :
      Option ℕ → Option Direction → Option W → Ticket → Option (Known W) → Option (Known W)
  known_fields (some pid) (some d) (some lot) t k =
      if same_ticket (some pid) t then some (record { volume = some lot; direction = d }) else k
  known_fields _ _ _ t k = k

  -- What a row says of a ticket: a row without an id, a direction or a lot says nothing.
  known_row : LogRow W → Ticket → Option (Known W) → Option (Known W)
  unfolding known_fields
  known_row r t k = known_fields r.position_id r.direction r.lot t k

  -- The last row of a ticket wins, as in a dictionary that is filled row by row.
  known_from : List (LogRow W) → Ticket → Option (Known W) → Option (Known W)
  unfolding known_row
  known_from [] t k = k
  known_from (r ∷ rs) t k = known_from rs t (known_row r t k)

  -- `_known_open_tickets`, from the table of recovered positions and the log.
  unfoldable pub known_open_tickets :
      (recovered : Ticket → Option (Known W)) → List (LogRow W) → Ticket → Option (Known W)
  unfolding known_from
  known_open_tickets recovered history t = known_from history t (recovered t)
