-- ===== src/Live/Gates.antt =====
-- live_trading/trading/live_loop.py: `_on_new_bar`, the gates between a closed bar and an order.
use scalping.Prelude.{
  ℕ, zero, suc, ◌/◌, Bool, true, false, not, ◌&&◌, ◌||◌, Option, none, some, List, [], ◌∷◌, ◌++◌,
  ltb, leb, ◌==◌, length, if◌then◌else◌,
}
use scalping.Float.{Float}
use scalping.Market.{is_range}
use scalping.Risk.Guardian.{RiskGuardian, Saving, GuardianStatus, initialize, check}
use scalping.Signals.Mtf.{mtf_allows_trade}
use scalping.Mt5.Positions.{Row, Positions, parse_open_positions_response}
use scalping.Live.Engine.{
  Stage, evaluating, account_data_unavailable, guardian_halted, position_check_failed,
  unknown_position_data, max_open_trades, within_tick_duplicate_guard, signal_blocked,
  max_range_trades_per_session, mtf_blocked, range_cooldown, position_already_open, order_placed,
  order_failed, running, paused, waiting, holding, scanning, disconnected, RobotStatus, Account,
  Engine, set_trade_permission, write_state, log_trade, known_open_tickets,
}
use scalping.Live.Bar.{
  Settings, Reply, Order, Bar, htf_bias_of, range_entries, in_cooldown, order_of, entry_log,
  entry_of,
}
pub mod Cleared
pub mod Session
pub mod Limits
pub mod Ranges
pub mod Halted
mod Tests

-- The engine after a call, and the order that it sent.
pub record Outcome {ℓ} (W : Type ℓ) : Type ℓ where
  pub engine : Engine W
  pub sent : Option (Order W)

abbrev is_empty {ℓ} : {A : Type ℓ} → List A → Bool
is_empty [] = true
is_empty (x ∷ xs) = false

module _ {ℓ} {W : Type ℓ} where
  -- A gate that closes: its stage, and the status that is published.
  abbrev block : Stage → RobotStatus → Engine W → Outcome W
  block stage st s = record {
    engine = write_state st (set_trade_permission false stage s);
    sent = none;
  }

  -- What an order that the bridge took, or refused, leaves behind.
  pub filled : Settings W → Bar W → Option ℕ → Engine W → Engine W
  filled c b none s = set_trade_permission false order_failed s
  filled c b (some id) s = record (set_trade_permission true order_placed s) {
    trade_opened_this_tick = true;
    last_entry = some (b.bar_time, b.decision.direction);
    trade_history = log_trade c.max_trade_history b.now (entry_log id b) s.trade_history;
  }

  place : Settings W → Bar W → Engine W → Outcome W
  unfolding filled
  place c b s = record {
    engine = write_state running (filled c b b.accepted s);
    sent = some (order_of b.decision);
  }

module _ {ℓ} {W : Type ℓ} ⦃f : Float W⦄ where
  pub get_open_positions : Settings W → Reply W → Engine W → Option (Positions W)
  get_open_positions c r s =
      parse_open_positions_response r.payload r.status
        (known_open_tickets c.recovered s.trade_history)

  -- The gates that need no further call, 7 to 7c: the one that closes first, if any.
  pub signal_gates : Settings W → Bar W → ℕ → Engine W → Option (Stage × RobotStatus)
  signal_gates c b open_count s =
      let bias = htf_bias_of c.mtf_enabled b.htf in
      if leb c.max_open_trades open_count
      then some (max_open_trades, holding)
      else if s.trade_opened_this_tick
      then some (within_tick_duplicate_guard, holding)
      else if not b.decision.allowed
      then some (signal_blocked, scanning)
      else if is_range b.decision.regime
          && leb c.max_range_trades_per_session (range_entries (b.bar_time / 86400) s.trade_history)
      then some (max_range_trades_per_session, scanning)
      else if c.mtf_enabled && not (mtf_allows_trade bias (entry_of c b bias)).0
      then some (mtf_blocked, scanning)
      else if in_cooldown b s.last_entry
      then some (range_cooldown, waiting)
      else none

  -- 8c and 9: the account must still be flat.
  confirm : Settings W → Bar W → Option (Positions W) → Engine W → Outcome W
  unfolding place
  confirm c b none s = block position_check_failed waiting s
  confirm c b (some p) s =
      if is_empty p.result then place c b s else block position_already_open holding s

  pass_gates : Settings W → Bar W → Option (Stage × RobotStatus) → Engine W → Outcome W
  unfolding confirm
  pass_gates c b (some (stage, st)) s = block stage st s
  pass_gates c b none s = confirm c b (get_open_positions c b.confirm_positions s) s

  -- 4: what the bridge knows of open positions.
  with_positions : Settings W → Bar W → Option (Positions W) → Engine W → Outcome W
  unfolding pass_gates
  with_positions c b none s = block position_check_failed waiting s
  with_positions c b (some p) s =
      if not (is_empty p.dropped_unknown) && is_empty p.result
      then block unknown_position_data waiting s
      else pass_gates c b (signal_gates c b (length p.result) s) s

  -- 3: a guardian that is not initialized yet is, with the figures at hand.
  pub ready_guardian : Bar W → Account W → RiskGuardian W → RiskGuardian W
  ready_guardian b a g =
      if g.initialized then g else (initialize b.today a.balance a.equity g).state

  pub guard : Bar W → Account W → Engine W → Saving W × GuardianStatus W
  unfolding ready_guardian
  guard b a s = check b.today b.now a.balance a.equity (ready_guardian b a s.guardian)

  with_account : Settings W → Bar W → Account W → Engine W → Outcome W
  unfolding guard with_positions
  with_account c b a s =
      let r = guard b a s in
      let s' = record s {
        last_acc_info = some a;
        consecutive_acc_failures = 0;
        guardian = r.0.state;
      } in
      if r.1.halted
      then block guardian_halted paused (record s' { paused = true })
      else with_positions c b (get_open_positions c b.positions s') s'

  -- 2: on the first failure in a row the account is asked for once more.
  pub account_of : Bar W → Option (Account W) → ℕ → Option (Account W)
  account_of b (some a) failures = some a
  account_of b none zero = b.retried_account
  account_of b none (suc n) = none

  with_answer : Settings W → Bar W → Option (Account W) → Engine W → Outcome W
  unfolding with_account
  with_answer c b (some a) s = with_account c b a s
  with_answer c b none s =
      block account_data_unavailable disconnected
        (record s { consecutive_acc_failures = suc s.consecutive_acc_failures })

  pub on_new_bar : Settings W → Bar W → Engine W → Outcome W
  unfolding account_of with_answer
  on_new_bar c b s =
      let s' = set_trade_permission false evaluating s in
      if ltb b.candles 50
      then record { engine = s'; sent = none }
      else with_answer c b (account_of b b.account s.consecutive_acc_failures) s'

  -- The ids of the positions that a bar opened.
  pub opened : Bar W → Outcome W → List ℕ
  opened b o = elim o.sent [
    | none ↦ []
    | some x ↦ elim b.accepted [ none ↦ [] | some id ↦ id ∷ [] ]
  ]

  -- The bars of one tick, in order.
  pub run_bars : Settings W → List (Bar W) → Engine W → Engine W × List ℕ
  unfolding opened
  run_bars c [] s = (s, [])
  run_bars c (b ∷ bs) s =
      let o = on_new_bar c b s in
      let rest = run_bars c bs o.engine in (rest.0, opened b o ++ rest.1)

  pub tick_bars : Settings W → List (Bar W) → Engine W → Engine W × List ℕ
  unfolding run_bars
  tick_bars c bs s = run_bars c bs (record s { trade_opened_this_tick = false })
