-- ===== src/Live/Gates/Session.antt =====
-- What `_on_new_bar` leaves behind, and what follows for a tick and for a session
-- (live_trading/trading/live_loop.py).
use scalping.Prelude.{
  ℕ, ◌≡◌, refl, Bool, true, false, not, ◌&&◌, Option, none, some, List, ltb, length, is_some,
  if◌then◌else◌, arith, Bool-cases, inl, inr,
}
use scalping.Float.{Float}
use scalping.Market.{Direction}
use scalping.Mt5.Positions.{Positions}
use scalping.Live.Engine.{Stage, evaluating, RobotStatus, Account, LogRow, Engine, log_trade}
use scalping.Live.Bar.{Settings, Bar, entry_log}
use scalping.Live.Gates.{
  Outcome, is_empty, filled, place, get_open_positions, signal_gates, confirm, pass_gates,
  with_positions, guard, with_account, account_of, with_answer, on_new_bar,
}
use scalping.Live.Gates.Cleared.{cleared, on_new_bar-sent}

-- What the engine remembers of its own trades, and whether it says that it may trade.
pub record Memory {ℓ} (W : Type ℓ) : Type ℓ where
  pub opened_this_tick : Bool
  pub last_entry : Option (ℕ × Direction)
  pub trade_history : List (LogRow W)
  pub allowed : Bool

module _ {ℓ} {W : Type ℓ} where
  abbrev pub memory : Engine W → Memory W
  memory s = record {
    opened_this_tick = s.trade_opened_this_tick;
    last_entry = s.last_entry;
    trade_history = s.trade_history;
    allowed = s.permission.allowed;
  }

  -- Nothing changes unless an order is sent and accepted; then the trade is remembered and logged.
  abbrev pub remembered : Settings W → Bar W → Bool → Engine W → Memory W
  remembered c b sent s = elim (if sent then b.accepted else none) [
    | none ↦ record (memory s) { allowed = false }
    | some id ↦ record {
      opened_this_tick = true;
      last_entry = some (b.bar_time, b.decision.direction);
      trade_history = log_trade c.max_trade_history b.now (entry_log id b) s.trade_history;
      allowed = true;
    }
  ]

  filled-memory :
      (c : Settings W) (b : Bar W) (a : Option ℕ) (s : Engine W)
      → b.accepted ≡ a
      → memory (filled c b a s) ≡ remembered c b true s
  unfolding filled
  filled-memory c b none s e = rw e refl
  filled-memory c b (some id) s e = rw e refl

module _ {ℓ} {W : Type ℓ} ⦃f : Float W⦄ where
  abbrev Follows : Settings W → Bar W → Engine W → Outcome W → Type ℓ
  Follows c b s o = memory o.engine ≡ remembered c b (is_some o.sent) s

  confirm-Follows :
      (c : Settings W) (b : Bar W) (q : Option (Positions W)) (s : Engine W)
      → Follows c b s (confirm c b q s)
  unfolding confirm place
  confirm-Follows c b none s = refl
  confirm-Follows c b (some p) s = elim (Bool-cases (is_empty p.result)) [
    | inl e ↦ rw e (filled-memory c b b.accepted s refl)
    | inr e ↦ rw e refl
  ]

  pass_gates-Follows :
      (c : Settings W) (b : Bar W) (g : Option (Stage × RobotStatus)) (s : Engine W)
      → Follows c b s (pass_gates c b g s)
  unfolding pass_gates
  pass_gates-Follows c b (some x) s = refl
  pass_gates-Follows c b none s = confirm-Follows c b (get_open_positions c b.confirm_positions s) s

  with_positions-Follows :
      (c : Settings W) (b : Bar W) (p : Option (Positions W)) (s : Engine W)
      → Follows c b s (with_positions c b p s)
  unfolding with_positions
  with_positions-Follows c b none s = refl
  with_positions-Follows c b (some p) s =
      elim (Bool-cases (not (is_empty p.dropped_unknown) && is_empty p.result)) [
        | inl e ↦ rw e refl
        | inr e ↦ rw e (pass_gates-Follows c b (signal_gates c b (length p.result) s) s)
      ]

  with_account-Follows :
      (c : Settings W) (b : Bar W) (a : Account W) (s : Engine W)
      → Follows c b s (with_account c b a s)
  unfolding with_account
  with_account-Follows c b a s =
      let s' = record s {
        last_acc_info = some a;
        consecutive_acc_failures = 0;
        guardian = (guard b a s).0.state;
      } in
      elim (Bool-cases (guard b a s).1.halted) [
        | inl e ↦ rw e refl
        | inr e ↦ rw e (with_positions-Follows c b (get_open_positions c b.positions s') s')
      ]

  with_answer-Follows :
      (c : Settings W) (b : Bar W) (a : Option (Account W)) (s : Engine W)
      → Follows c b s (with_answer c b a s)
  unfolding with_answer
  with_answer-Follows c b none s = refl
  with_answer-Follows c b (some a) s = with_account-Follows c b a s

  on_new_bar-Follows :
      (c : Settings W) (b : Bar W) (s : Engine W) → Follows c b s (on_new_bar c b s)
  unfolding on_new_bar
  on_new_bar-Follows c b s = elim (Bool-cases (ltb b.candles 50)) [
    | inl e ↦ rw e refl
    | inr e ↦ rw e (
        with_answer-Follows c b (account_of b b.account s.consecutive_acc_failures)
          (record s { permission = record { allowed = false; stage = evaluating } }))
  ]

  is_some-order :
      (c : Settings W) (b : Bar W) (s : Engine W) → is_some (on_new_bar c b s).sent ≡ cleared c b s
  is_some-order c b s = ground (arith, on_new_bar-sent c b s)

  -- After a bar the engine has logged a trade, marked the tick and reports permission exactly when
  -- every gate was open and the order was accepted; otherwise its memory is as before.
  pub on_new_bar-memory :
      (c : Settings W) (b : Bar W) (s : Engine W)
      → memory (on_new_bar c b s).engine ≡ remembered c b (cleared c b s) s
  on_new_bar-memory c b s = rw⁻¹ (is_some-order c b s) (on_new_bar-Follows c b s)
