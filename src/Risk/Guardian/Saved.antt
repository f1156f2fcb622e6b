-- ===== src/Risk/Guardian/Saved.antt =====
-- What the store holds is what the guardian knows (`_save_state` of live_trading/risk/guardian.py).
use scalping.Prelude.{ℕ, ◌≡◌, refl, Bool, Option, List, [], ◌∷◌, ◌++◌, arith}
use scalping.Float.{Float}
use scalping.Risk.Guardian.{RiskGuardian, Snapshot, Saving, snapshot, initialize, check, reset_halt}

-- The calls of a session.
pub data Call {ℓ} (W : Type ℓ) : Type ℓ where
  on_initialize : (today : ℕ) (balance equity : W) → Call W
  on_check : (today now : ℕ) (balance equity : W) → Call W
  on_reset : (today : ℕ) (reset_daily_baseline : Bool) (current_balance : Option W) → Call W

module _ {ℓ} {W : Type ℓ} where
  -- The store after some saves: each replaces the one before.
  pub stored : Snapshot W → List (Snapshot W) → Snapshot W
  stored old [] = old
  stored old (s ∷ ss) = stored s ss

  stored-append :
      (old : Snapshot W) (xs ys : List (Snapshot W))
      → stored old (xs ++ ys) ≡ stored (stored old xs) ys
  unfolding stored
  stored-append old [] ys = refl
  stored-append old (x ∷ xs) ys = stored-append x xs ys

  initialize_saved :
      (today : ℕ) (balance equity : W) (g : RiskGuardian W)
      → let r = initialize today balance equity g in stored (snapshot g) r.saves ≡ snapshot r.state
  unfolding initialize stored
  initialize_saved today balance equity g = refl

module _ {ℓ} {W : Type ℓ} ⦃f : Float W⦄ where
  check_saved :
      (today now : ℕ) (balance equity : W) (g : RiskGuardian W)
      → let r = (check today now balance equity g).0 in
        stored (snapshot g) r.saves ≡ snapshot r.state
  unfolding check stored snapshot
  check_saved today now balance equity g = ground arith

  reset_saved :
      (today : ℕ) (daily : Bool) (balance : Option W) (g : RiskGuardian W)
      → let r = (reset_halt today daily balance g).0 in
        stored (snapshot g) r.saves ≡ snapshot r.state
  unfolding reset_halt stored snapshot
  reset_saved today daily balance g = ground arith

  pub call : Call W → RiskGuardian W → Saving W
  call (on_initialize today balance equity) g = initialize today balance equity g
  call (on_check today now balance equity) g = (check today now balance equity g).0
  call (on_reset today daily balance) g = (reset_halt today daily balance g).0

  pub session : List (Call W) → RiskGuardian W → Saving W
  session [] g = record { state = g; saves = [] }
  session (c ∷ cs) g =
      let r = call c g in
      let rest = session cs r.state in record { state = rest.state; saves = r.saves ++ rest.saves }

  call_saved :
      (c : Call W) (g : RiskGuardian W)
      → stored (snapshot g) (call c g).saves ≡ snapshot (call c g).state
  unfolding call
  call_saved (on_initialize today balance equity) g = initialize_saved today balance equity g
  call_saved (on_check today now balance equity) g = check_saved today now balance equity g
  call_saved (on_reset today daily balance) g = reset_saved today daily balance g

  -- Whatever calls are made, if the store holds the guardian's state before, it holds it after.
  pub session_saved :
      (cs : List (Call W)) (g : RiskGuardian W)
      → let r = session cs g in stored (snapshot g) r.saves ≡ snapshot r.state
  unfolding session stored
  session_saved [] g = refl
  session_saved (c ∷ cs) g =
      rw (stored-append (snapshot g) (call c g).saves (session cs (call c g).state).saves)
        (rw (call_saved c g) (session_saved cs (call c g).state))
