-- ===== src/Live/Gates/Cleared.antt =====
-- When `_on_new_bar` sends an order (live_trading/trading/live_loop.py).
use scalping.Prelude.{
  ℕ, ◌≡◌, refl, ◌/◌, Bool, false, not, ◌&&◌, ◌||◌, Option, none, some, leb, length, is_some,
  if◌then◌else◌, arith, Bool-cases, inl, inr,
}
use scalping.Float.{Float}
use scalping.Market.{is_range}
use scalping.Risk.Guardian.{RiskGuardian, check}
use scalping.Signals.Mtf.{mtf_allows_trade}
use scalping.Mt5.Positions.{Positions}
use scalping.Live.Engine.{Stage, evaluating, RobotStatus, Account, Engine}
use scalping.Live.Bar.{
  Settings, Order, Bar, htf_bias_of, range_entries, in_cooldown, order_of, entry_of,
}
use scalping.Live.Gates.{
  is_empty, place, get_open_positions, signal_gates, confirm, pass_gates, with_positions,
  ready_guardian, guard, with_account, account_of, with_answer, on_new_bar,
}

module _ {ℓ} {W : Type ℓ} ⦃f : Float W⦄ where
  -- The account is known to be flat: the bridge answers, and with no position.
  abbrev pub is_flat_reply : Option (Positions W) → Bool
  is_flat_reply none = false
  is_flat_reply (some p) = is_empty p.result

  -- The bridge answers with fewer positions than the limit, and every ticket is recognised unless
  -- another position is.
  abbrev pub has_room : Settings W → Option (Positions W) → Bool
  has_room c none = false
  has_room c (some p) =
      not (leb c.max_open_trades (length p.result))
      && (is_empty p.dropped_unknown || not (is_empty p.result))

  -- The signal: allowed, within the session's limit if it is a range trade, confirmed by the higher
  -- timeframe, and no repetition of the last entry.
  abbrev pub has_signal : Settings W → Bar W → Engine W → Bool
  has_signal c b s =
      let bias = htf_bias_of c.mtf_enabled b.htf in
      b.decision.allowed
      && not (
          is_range b.decision.regime
          && leb c.max_range_trades_per_session
              (range_entries (b.bar_time / 86400) s.trade_history))
      && (not c.mtf_enabled || (mtf_allows_trade bias (entry_of c b bias)).0)
      && not (in_cooldown b s.last_entry)

  abbrev pub is_safe : Bar W → Option (Account W) → RiskGuardian W → Bool
  is_safe b none g = false
  is_safe b (some a) g =
      not (check b.today b.now a.balance a.equity (ready_guardian b a g)).1.halted

  -- All the conditions of an entry, in no order.
  abbrev pub cleared : Settings W → Bar W → Engine W → Bool
  cleared c b s =
      leb 50 b.candles
      && is_safe b (account_of b b.account s.consecutive_acc_failures) s.guardian
      && not s.trade_opened_this_tick
      && has_room c (get_open_positions c b.positions s)
      && has_signal c b s
      && is_flat_reply (get_open_positions c b.confirm_positions s)

  abbrev order_if : Bool → Bar W → Option (Order W)
  order_if ok b = if ok then some (order_of b.decision) else none

  confirm-sent :
      (c : Settings W) (b : Bar W) (q : Option (Positions W)) (s : Engine W)
      → (confirm c b q s).sent ≡ order_if (is_flat_reply q) b
  unfolding confirm place
  confirm-sent c b none s = refl
  confirm-sent c b (some p) s = ground arith

  signal_gates_none :
      (c : Settings W) (b : Bar W) (n : ℕ) (s : Engine W)
      → not (is_some (signal_gates c b n s))
        ≡ (not (leb c.max_open_trades n) && (not s.trade_opened_this_tick && has_signal c b s))
  unfolding signal_gates
  signal_gates_none c b n s = ground arith

  pass_gates-sent :
      (c : Settings W) (b : Bar W) (g : Option (Stage × RobotStatus)) (s : Engine W)
      → (pass_gates c b g s).sent
        ≡ order_if (not (is_some g) && is_flat_reply (get_open_positions c b.confirm_positions s)) b
  unfolding pass_gates
  pass_gates-sent c b (some x) s = refl
  pass_gates-sent c b none s = confirm-sent c b (get_open_positions c b.confirm_positions s) s

  with_positions-sent :
      (c : Settings W) (b : Bar W) (p : Option (Positions W)) (s : Engine W)
      → (with_positions c b p s).sent
        ≡ order_if
            (not s.trade_opened_this_tick
              && has_room c p
              && has_signal c b s
              && is_flat_reply (get_open_positions c b.confirm_positions s))
            b
  unfolding with_positions
  with_positions-sent c b none s = ground arith
  with_positions-sent c b (some p) s = ground (
    arith,
    pass_gates-sent c b (signal_gates c b (length p.result) s) s,
    signal_gates_none c b (length p.result) s,
  )

  with_account-sent :
      (c : Settings W) (b : Bar W) (a : Account W) (s : Engine W)
      → (with_account c b a s).sent
        ≡ order_if
            (is_safe b (some a) s.guardian
              && not s.trade_opened_this_tick
              && has_room c (get_open_positions c b.positions s)
              && has_signal c b s
              && is_flat_reply (get_open_positions c b.confirm_positions s))
            b
  unfolding with_account guard get_open_positions
  with_account-sent c b a s = elim (Bool-cases (guard b a s).1.halted) [
    | inl e ↦ rw e refl
    | inr e ↦ rw e (
        with_positions-sent c b (get_open_positions c b.positions s) (record s {
          last_acc_info = some a;
          consecutive_acc_failures = 0;
          guardian = (guard b a s).0.state;
        }))
  ]

  with_answer-sent :
      (c : Settings W) (b : Bar W) (a : Option (Account W)) (s : Engine W)
      → (with_answer c b a s).sent
        ≡ order_if
            (is_safe b a s.guardian
              && not s.trade_opened_this_tick
              && has_room c (get_open_positions c b.positions s)
              && has_signal c b s
              && is_flat_reply (get_open_positions c b.confirm_positions s))
            b
  unfolding with_answer
  with_answer-sent c b none s = refl
  with_answer-sent c b (some a) s = with_account-sent c b a s

  -- A bar sends an order exactly when every gate is open, and then it is the decision's order.
  pub on_new_bar-sent :
      (c : Settings W) (b : Bar W) (s : Engine W)
      → (on_new_bar c b s).sent ≡ (if cleared c b s then some (order_of b.decision) else none)
  unfolding on_new_bar get_open_positions
  on_new_bar-sent c b s = ground (
    arith,
    with_answer-sent c b (account_of b b.account s.consecutive_acc_failures)
        (record s { permission = record { allowed = false; stage = evaluating } }),
  )
