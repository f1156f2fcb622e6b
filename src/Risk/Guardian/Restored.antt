-- ===== src/Risk/Guardian/Restored.antt =====
-- A restart: `restore_state` on what `_save_state` wrote (live_trading/risk/guardian.py).
use text.Mathlib.TextPositions.{eq_refl}
use text.Mathlib.TextEquality.{eq_iff}
use scalping.Prelude.{◌≡◌, ◌≢◌, ◌⊎◌, Bool, true, false, not, ◌||◌, none, arith, or_else}
use scalping.Float.{Float, ◌≤?◌, nought}
use scalping.Risk.Guardian.{
  RiskGuardian, SavedState, is_foreign, has_bad_baseline, read_back, restore_state, snapshot,
}

module _ {ℓ} {W : Type ℓ} ⦃f : Float W⦄ where
  -- The three baselines are positive.
  pub record HasBaselines (g : RiskGuardian W) : Type 0 where
    pub peak : (g.equity_peak ≤? nought) ≡ false
    pub day : (g.day_open_balance ≤? nought) ≡ false
    pub session : (g.session_open_balance ≤? nought) ≡ false

  -- A guardian started for the account, before anything is restored.
  pub record IsFresh (g new : RiskGuardian W) : Type 0 where
    pub login : new.account_login ≡ g.account_login
    pub server : new.account_server ≡ g.account_server
    pub day : new.last_day ≡ none
    pub log_count : new.halt_log_count ≡ 0

  -- A restart with the limits left to the store resumes the guardian that was saved, its halt, its
  -- reason and its baselines included; only the count of suppressed log lines starts again.
  pub restore_state-read_back :
      (g new : RiskGuardian W)
      → g.initialized ≡ true
      → HasBaselines g
      → IsFresh g new
      → restore_state false false (read_back (snapshot g)) new
        ≡ (record g { halt_log_count = 0 }, true)
  unfolding restore_state read_back snapshot
  restore_state-read_back g new i b n =
      ground (arith, eq_refl g.account_login, eq_refl g.account_server)

  -- What a guardian with another login or another server saved is refused and changes nothing, if
  -- both texts of the saved account and the new guardian's login are not empty.
  pub restore_state_foreign :
      (daily drawdown : Bool) (g new : RiskGuardian W)
      → g.account_login ≢ ""
      → g.account_server ≢ ""
      → new.account_login ≢ ""
      → (g.account_login ≢ new.account_login) ⊎ (g.account_server ≢ new.account_server)
      → restore_state daily drawdown (read_back (snapshot g)) new ≡ (new, false)
  unfolding restore_state read_back snapshot
  restore_state_foreign daily drawdown g new a b c d = ground (
    arith,
    eq_iff g.account_login "",
    eq_iff g.account_server "",
    eq_iff new.account_login "",
    eq_iff g.account_login new.account_login,
    eq_iff g.account_server new.account_server,
  )

  -- `restore_state` accepts exactly what is neither foreign nor short of a positive baseline; what
  -- it refuses leaves the guardian as it was, and what it accepts leaves it initialized, with the
  -- saved halt and with a peak and a day's balance that are not at or below zero.
  pub restore_state_effect :
      (daily drawdown : Bool) (d : SavedState W) (g : RiskGuardian W)
      → let (g', accepted) = restore_state daily drawdown d g in
        (accepted ≡ not (is_foreign g d || has_bad_baseline d))
        × (((accepted ≡ false) × (g' ≡ g))
            ⊎ ((accepted ≡ true)
                × (g'.initialized ≡ true)
                × (g'.halted ≡ or_else d.halted false)
                × ((g'.equity_peak ≤? nought) ≡ false)
                × ((g'.day_open_balance ≤? nought) ≡ false)))
  unfolding restore_state
  restore_state_effect daily drawdown d g = ground arith
