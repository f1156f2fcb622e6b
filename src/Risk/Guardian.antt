-- ===== src/Risk/Guardian.antt =====
-- live_trading/risk/guardian.py: `RiskGuardian`. A method takes the clock (the day and the instant)
-- as arguments, and returns the new state with the snapshots that it hands to `_save_state`, oldest
-- first. Log lines are left out. A reason keeps the numbers of its text and whether the text holds
-- "DAILY LOSS", which is all that the code reads of it.
use Prim.Native.String.{String}
use text.Mathlib.Text.{◌==◌ as str_eq}
use scalping.Prelude.{
  ℕ, suc, ◌+◌, ◌%◌, Bool, true, false, not, ◌&&◌, ◌||◌, Option, none, some, List, [], ◌∷◌, ◌++◌,
  ltb, or_else, if◌then◌else◌,
}
use scalping.Float.{Float, ◌⊖◌, ◌⊗◌, ◌⊘◌, ◌<?◌, ◌≤?◌, nought}
pub mod Halt
pub mod Peak
pub mod Saved
pub mod Restored
mod Tests

pub data Reason {ℓ} (W : Type ℓ) : Type ℓ where
  empty not_initialized : Reason W
  daily_loss : (pnl pct limit : W) → Reason W
  max_drawdown : (drawdown equity peak limit : W) → Reason W

pub record GuardianStatus {ℓ} (W : Type ℓ) : Type ℓ where
  pub halted : Bool
  pub reason : Reason W
  pub daily_pnl : W
  pub daily_pnl_pct : W
  pub drawdown_pct : W
  pub equity_peak : W
  pub session_open_balance : W
  pub daily_loss_limit_pct : W
  pub max_drawdown_pct : W
  pub triggered_at : Option ℕ

pub record RiskGuardian {ℓ} (W : Type ℓ) : Type ℓ where
  pub daily_loss_limit_pct : W
  pub max_drawdown_pct : W
  pub account_login : String
  pub account_server : String
  pub initialized : Bool
  pub halted : Bool
  pub halt_reason : Reason W
  pub triggered_at : Option ℕ
  pub equity_peak : W
  pub session_open_balance : W
  pub day_open_balance : W
  pub last_day : Option ℕ
  pub halt_log_count : ℕ

-- The dictionary that `_save_state` writes, without `written_at`.
pub record Snapshot {ℓ} (W : Type ℓ) : Type ℓ where
  pub halted : Bool
  pub halt_reason : Reason W
  pub triggered_at : Option ℕ
  pub equity_peak : W
  pub session_open_balance : W
  pub day_open_balance : W
  pub last_day : Option ℕ
  pub account_login : String
  pub account_server : String
  pub daily_loss_limit_pct : W
  pub max_drawdown_pct : W

-- A dictionary that `restore_state` is handed: every key may be missing. `last_day` and the limits
-- are texts or values that may fail to parse, which is the inner `none`.
pub record SavedState {ℓ} (W : Type ℓ) : Type ℓ where
  pub halted : Option Bool
  pub halt_reason : Option (Reason W)
  pub triggered_at : Option ℕ
  pub equity_peak : Option W
  pub session_open_balance : Option W
  pub day_open_balance : Option W
  pub last_day : Option (Option ℕ)
  pub account_login : Option String
  pub account_server : Option String
  pub daily_loss_limit_pct : Option (Option W)
  pub max_drawdown_pct : Option (Option W)

-- A method's new state, and what it saved on the way.
pub record Saving {ℓ} (W : Type ℓ) : Type ℓ where
  pub state : RiskGuardian W
  pub saves : List (Snapshot W)

-- `today > self._last_day`, or no day yet.
unfoldable pub is_new_day : ℕ → Option ℕ → Bool
is_new_day today none = true
is_new_day today (some d) = ltb d today

-- A missing day leaves the field as it is, one that does not parse clears it.
restored_day : Option (Option ℕ) → Option ℕ → Option ℕ
restored_day none old = old
restored_day (some parsed) old = parsed

module _ {ℓ} {W : Type ℓ} where
  -- `"DAILY LOSS" in reason`.
  pub mentions_daily_loss : Reason W → Bool
  mentions_daily_loss (daily_loss _ _ _) = true
  mentions_daily_loss _ = false

  pub snapshot : RiskGuardian W → Snapshot W
  snapshot g = record {
    halted = g.halted;
    halt_reason = g.halt_reason;
    triggered_at = g.triggered_at;
    equity_peak = g.equity_peak;
    session_open_balance = g.session_open_balance;
    day_open_balance = g.day_open_balance;
    last_day = g.last_day;
    account_login = g.account_login;
    account_server = g.account_server;
    daily_loss_limit_pct = g.daily_loss_limit_pct;
    max_drawdown_pct = g.max_drawdown_pct;
  }

  abbrev pub save : RiskGuardian W → Saving W
  save g = record { state = g; saves = snapshot g ∷ [] }

  abbrev pub quiet : RiskGuardian W → Saving W
  quiet g = record { state = g; saves = [] }

  -- One step after another, with their saves in order.
  infixl 5 ◌then_do◌
  abbrev pub ◌then_do◌ : Saving W → (RiskGuardian W → Saving W) → Saving W
  m then_do k = let r = k m.state in record { state = r.state; saves = m.saves ++ r.saves }

  -- `_trigger`.
  unfoldable pub trigger : ℕ → Reason W → RiskGuardian W → Saving W
  trigger now reason g = save (record g {
    halted = true;
    halt_reason = reason;
    triggered_at = some now;
    halt_log_count = 0;
  })

  clear_halt : RiskGuardian W → RiskGuardian W
  clear_halt g = record g {
    halted = false;
    halt_reason = empty;
    triggered_at = none;
    halt_log_count = 0;
  }

  -- `_maybe_day_reset`.
  unfoldable pub maybe_day_reset : ℕ → W → RiskGuardian W → Saving W
  unfolding clear_halt is_new_day mentions_daily_loss
  maybe_day_reset today balance g =
      if is_new_day today g.last_day
      then (let g' = record g { day_open_balance = balance; last_day = some today } in
          save (if g.halted && mentions_daily_loss g.halt_reason then clear_halt g' else g'))
      else quiet g

  pub initialize : ℕ → (balance equity : W) → RiskGuardian W → Saving W
  initialize today balance equity g = save (record g {
    equity_peak = equity;
    session_open_balance = balance;
    day_open_balance = balance;
    last_day = some today;
    initialized = true;
  })

  pub set_account_identity : (login server : String) → RiskGuardian W → RiskGuardian W
  set_account_identity login server g = record g { account_login = login; account_server = server }

module _ {ℓ} {W : Type ℓ} ⦃f : Float W⦄ where
  -- `_status`.
  unfoldable pub status :
      Bool → Reason W → (pnl pct drawdown : W) → RiskGuardian W → GuardianStatus W
  status halted reason pnl pct drawdown g = record {
    halted = halted;
    reason = reason;
    daily_pnl = f.round pnl 2;
    daily_pnl_pct = f.round pct 4;
    drawdown_pct = f.round drawdown 4;
    equity_peak = f.round g.equity_peak 2;
    session_open_balance = f.round g.session_open_balance 2;
    daily_loss_limit_pct = g.daily_loss_limit_pct;
    max_drawdown_pct = g.max_drawdown_pct;
    triggered_at = g.triggered_at;
  }

  unfoldable pub raise_peak : W → RiskGuardian W → Saving W
  raise_peak equity g =
      if g.equity_peak <? equity then save (record g { equity_peak = equity }) else quiet g

  -- The running loss of the day and the pullback from the peak, in percent.
  unfoldable pub daily_pct : W → RiskGuardian W → W
  daily_pct balance g =
      if nought <? g.day_open_balance
      then (balance ⊖ g.day_open_balance) ⊘ g.day_open_balance ⊗ f.dec 100 0
      else nought

  unfoldable pub drawdown : W → RiskGuardian W → W
  drawdown equity g =
      if nought <? g.equity_peak
      then (g.equity_peak ⊖ equity) ⊘ g.equity_peak ⊗ f.dec 100 0
      else nought

  -- `daily_pct <= -limit` and `drawdown >= limit`.
  unfoldable pub loss_limit_hit : W → RiskGuardian W → Bool
  unfolding daily_pct
  loss_limit_hit balance g = daily_pct balance g ≤? f.neg g.daily_loss_limit_pct

  unfoldable pub drawdown_hit : W → RiskGuardian W → Bool
  unfolding drawdown
  drawdown_hit equity g = g.max_drawdown_pct ≤? drawdown equity g

  -- The circuit breakers: sticky once halted.
  unfoldable pub evaluate : ℕ → (balance equity : W) → RiskGuardian W → Saving W
  unfolding trigger
  evaluate now balance equity g =
      if not g.halted
      then if loss_limit_hit balance g
        then trigger now
            (daily_loss (balance ⊖ g.day_open_balance) (daily_pct balance g) g.daily_loss_limit_pct)
            g
        else if drawdown_hit equity g
        then trigger now (max_drawdown (drawdown equity g) equity g.equity_peak g.max_drawdown_pct)
            g
        else quiet g
      else quiet (record g { halt_log_count = suc g.halt_log_count })

  unfoldable pub check :
      (today now : ℕ) (balance equity : W) → RiskGuardian W → Saving W × GuardianStatus W
  unfolding maybe_day_reset raise_peak evaluate status
  check today now balance equity g =
      if not g.initialized
      then (quiet g, status true not_initialized nought nought nought g)
      else let ready = maybe_day_reset today balance g then_do raise_peak equity in
        let r = ready then_do evaluate now balance equity in
        (
          r,
          status r.state.halted r.state.halt_reason (balance ⊖ ready.state.day_open_balance)
              (daily_pct balance ready.state) (drawdown equity ready.state) r.state,
        )

  -- `current_balance is None or current_balance <= 0`.
  bad_balance : Option W → Bool
  bad_balance none = true
  bad_balance (some b) = b ≤? nought

  -- `reset_halt`: `true` where the code returns True.
  pub reset_halt :
      ℕ
      → (reset_daily_baseline : Bool) → (current_balance : Option W) → RiskGuardian W
      → Saving W × Bool
  unfolding bad_balance clear_halt
  reset_halt today true none g = (quiet g, false)
  reset_halt today true (some b) g =
      if bad_balance (some b)
      then (quiet g, false)
      else (save (clear_halt (record g { day_open_balance = b; last_day = some today })), true)
  reset_halt today false _ g = (save (clear_halt g), true)

  -- The account of a saved state is another one than the guardian's.
  pub is_foreign : RiskGuardian W → SavedState W → Bool
  is_foreign g d =
      let login = or_else d.account_login "" in
      let server = or_else d.account_server "" in
      (not (str_eq g.account_login "") || not (str_eq g.account_server ""))
      && (not (str_eq login "") && not (str_eq server ""))
      && (not (str_eq login g.account_login) || not (str_eq server g.account_server))

  pub has_bad_baseline : SavedState W → Bool
  has_bad_baseline d =
      or_else d.equity_peak nought ≤? nought
      || or_else d.day_open_balance nought ≤? nought
      || or_else d.session_open_balance nought ≤? nought

  -- The value in the environment wins, and so does the old one if the saved one is no number.
  restored_limit : Bool → Option (Option W) → W → W
  restored_limit false (some (some v)) old = v
  restored_limit _ _ old = old

  pub restore_state :
      (daily_in_env drawdown_in_env : Bool) → SavedState W → RiskGuardian W → RiskGuardian W × Bool
  unfolding is_foreign has_bad_baseline restored_day restored_limit
  restore_state daily_in_env drawdown_in_env d g =
      if is_foreign g d || has_bad_baseline d then (g, false) else (
        record g {
          halted = or_else d.halted false;
          halt_reason = or_else d.halt_reason empty;
          triggered_at = d.triggered_at;
          equity_peak = or_else d.equity_peak nought;
          session_open_balance = or_else d.session_open_balance nought;
          day_open_balance = or_else d.day_open_balance nought;
          last_day = restored_day d.last_day g.last_day;
          daily_loss_limit_pct =
              restored_limit daily_in_env d.daily_loss_limit_pct g.daily_loss_limit_pct;
          max_drawdown_pct = restored_limit drawdown_in_env d.max_drawdown_pct g.max_drawdown_pct;
          initialized = true;
        },
        true,
      )

  -- The JSON of a snapshot, read again: a day that is null counts as missing.
  pub read_back : Snapshot W → SavedState W
  read_back s = record {
    halted = some s.halted;
    halt_reason = some s.halt_reason;
    triggered_at = s.triggered_at;
    equity_peak = some s.equity_peak;
    session_open_balance = some s.session_open_balance;
    day_open_balance = some s.day_open_balance;
    last_day = elim s.last_day [ none ↦ none | some d ↦ some (some d) ];
    account_login = some s.account_login;
    account_server = some s.account_server;
    daily_loss_limit_pct = some (some s.daily_loss_limit_pct);
    max_drawdown_pct = some (some s.max_drawdown_pct);
  }
