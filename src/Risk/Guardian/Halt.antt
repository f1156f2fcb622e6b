-- ===== src/Risk/Guardian/Halt.antt =====
-- When `check` halts trading, and how long a halt lasts (live_trading/risk/guardian.py).
use scalping.Prelude.{
  ℕ, ◌≤◌, ◌≡◌, Bool, true, false, not, ◌&&◌, ◌||◌, Option, none, some, List, [], ◌∷◌, arith, All,
  if◌then◌else◌,
}
use scalping.Float.{Float, ◌≤?◌, nought, max_of}
use scalping.Risk.Guardian.{
  RiskGuardian, Reason, mentions_daily_loss, is_new_day, loss_limit_hit, drawdown_hit, check,
  reset_halt,
}

-- One call of `check`: the day, the instant, and the account's figures.
pub record Tick {ℓ} (W : Type ℓ) : Type ℓ where
  pub today : ℕ
  pub now : ℕ
  pub balance : W
  pub equity : W

module _ {ℓ} {W : Type ℓ} ⦃f : Float W⦄ where
  -- The baselines that `check` measures against: the day's opening balance and the peak so far.
  pub measured : (today : ℕ) (balance equity : W) → RiskGuardian W → RiskGuardian W
  unfolding max_of is_new_day
  measured today balance equity g = record g {
    day_open_balance = if is_new_day today g.last_day then balance else g.day_open_balance;
    equity_peak = max_of g.equity_peak equity;
  }

  -- Before the breakers are looked at: a halt for a daily loss ends with its day.
  pub still_halted : ℕ → RiskGuardian W → Bool
  unfolding is_new_day mentions_daily_loss
  still_halted today g =
      g.halted && not (is_new_day today g.last_day && mentions_daily_loss g.halt_reason)

  -- An initialized guardian is halted after `check` exactly when a halt from before goes on, the
  -- day's loss is at its limit, or the pullback from the peak is.
  pub check_halted :
      (today now : ℕ) (balance equity : W) (g : RiskGuardian W)
      → g.initialized ≡ true
      → let m = measured today balance equity g in
        (check today now balance equity g).0.state.halted
        ≡ (still_halted today g || (loss_limit_hit balance m || drawdown_hit equity m))
  unfolding check loss_limit_hit drawdown_hit measured still_halted
  check_halted today now balance equity g h = ground arith

  -- Until `initialize`, `check` reports a halt and changes and saves nothing.
  pub check_not_initialized :
      (today now : ℕ) (balance equity : W) (g : RiskGuardian W)
      → g.initialized ≡ false
      → ((check today now balance equity g).1.halted ≡ true)
        × ((check today now balance equity g).0.state ≡ g)
        × ((check today now balance equity g).0.saves ≡ [])
  unfolding check
  check_not_initialized today now balance equity g h = ground arith

  unfoldable pub checks : List (Tick W) → RiskGuardian W → RiskGuardian W
  checks [] g = g
  checks (t ∷ ts) g = checks ts (check t.today t.now t.balance t.equity g).0.state

  -- Halted since `at` for `reason`.
  pub record IsHalted (reason : Reason W) (at : Option ℕ) (g : RiskGuardian W) : Type ℓ where
    pub initialized : g.initialized ≡ true
    pub halted : g.halted ≡ true
    pub same_reason : g.halt_reason ≡ reason
    pub same_time : g.triggered_at ≡ at

  check-IsHalted :
      (t : Tick W) (g : RiskGuardian W) {reason : Reason W} {at : Option ℕ}
      → still_halted t.today g ≡ true
      → IsHalted reason at g
      → IsHalted reason at (check t.today t.now t.balance t.equity g).0.state
  unfolding check still_halted
  check-IsHalted t g s h = ground arith

  check-last_day :
      (t : Tick W) (g : RiskGuardian W) {d : ℕ}
      → g.last_day ≡ some d
      → t.today ≤ d
      → (check t.today t.now t.balance t.equity g).0.state.last_day ≡ some d
  unfolding check
  check-last_day t g e h = ground arith

  still_halted_in_day :
      (today : ℕ) (g : RiskGuardian W) {d : ℕ}
      → g.last_day ≡ some d
      → today ≤ d
      → g.halted ≡ true
      → still_halted today g ≡ true
  unfolding still_halted
  still_halted_in_day today g e h k = ground arith

  -- Within a day no number of checks, at whatever figures, ends a halt or changes its reason.
  pub checks-IsHalted :
      (ts : List (Tick W)) (d : ℕ) (g : RiskGuardian W) {reason : Reason W} {at : Option ℕ}
      → g.last_day ≡ some d
      → All (λ t. t.today ≤ d) ts
      → IsHalted reason at g
      → IsHalted reason at (checks ts g)
  unfolding checks
  checks-IsHalted [] d g e a h = h
  checks-IsHalted (t ∷ ts) d g e (a, as') h =
      checks-IsHalted ts d (check t.today t.now t.balance t.equity g).0.state
        (check-last_day t g e a) as'
        (check-IsHalted t g (still_halted_in_day t.today g e a h.halted) h)

  still_halted_of_reason :
      (today : ℕ) (g : RiskGuardian W)
      → mentions_daily_loss g.halt_reason ≡ false
      → g.halted ≡ true
      → still_halted today g ≡ true
  unfolding still_halted
  still_halted_of_reason today g e h = ground arith

  -- A halt for another reason than a daily loss outlives every change of day.
  pub checks_drawdown-IsHalted :
      (ts : List (Tick W)) (g : RiskGuardian W) (reason : Reason W) {at : Option ℕ}
      → mentions_daily_loss reason ≡ false
      → IsHalted reason at g
      → IsHalted reason at (checks ts g)
  unfolding checks
  checks_drawdown-IsHalted [] g reason e h = h
  checks_drawdown-IsHalted (t ∷ ts) g reason e h =
      checks_drawdown-IsHalted ts (check t.today t.now t.balance t.equity g).0.state reason e
        (check-IsHalted t g (still_halted_of_reason t.today g (rw h.same_reason e) h.halted) h)

  -- A reset is refused when the daily baseline is to be reset without a positive balance; otherwise it
  -- ends the halt.
  unfoldable pub reset_accepted : Bool → Option W → Bool
  reset_accepted false b = true
  reset_accepted true none = false
  reset_accepted true (some b) = not (b ≤? nought)

  pub reset_halt_lem :
      (today : ℕ) (reset_daily : Bool) (balance : Option W) (g : RiskGuardian W)
      → let r = reset_halt today reset_daily balance g in
        (r.1 ≡ reset_accepted reset_daily balance)
        × (r.0.state.halted ≡ (g.halted && not (reset_accepted reset_daily balance)))
  unfolding reset_halt reset_accepted
  reset_halt_lem today true none g = ground arith
  reset_halt_lem today true (some b) g = ground arith
  reset_halt_lem today false b g = ground arith
