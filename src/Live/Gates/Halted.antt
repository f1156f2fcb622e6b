-- ===== src/Live/Gates/Halted.antt =====
-- What a halt of the guardian does to `_on_new_bar` (live_trading/trading/live_loop.py).
use scalping.Prelude.{◌≤◌, ◌≡◌, refl, true, false, none, some, ltb, arith}
use scalping.Float.{Float}
use scalping.Live.Engine.{guardian_halted, evaluating, Account, Engine}
use scalping.Live.Bar.{Settings, Bar}
use scalping.Live.Gates.{guard, with_account, account_of, with_answer, on_new_bar}

module _ {ℓ} {W : Type ℓ} ⦃f : Float W⦄ where
  with_account_halted :
      (c : Settings W) (b : Bar W) (a : Account W) (s : Engine W)
      → (guard b a s).1.halted ≡ true
      → let o = with_account c b a s in
        (o.sent ≡ none)
        × (o.engine.paused ≡ true)
        × (o.engine.permission.stage ≡ guardian_halted)
        × (o.engine.guardian ≡ (guard b a s).0.state)
  unfolding with_account
  with_account_halted c b a s h = rw h (refl, refl, refl, refl)

  -- When the guardian halts at a bar, no order is sent, the robot pauses itself, and the stage says
  -- why; the guardian is the one that `check` returned.
  pub on_new_bar_halted :
      (c : Settings W) (b : Bar W) (a : Account W) (s : Engine W)
      → 50 ≤ b.candles
      → account_of b b.account s.consecutive_acc_failures ≡ some a
      → (guard b a s).1.halted ≡ true
      → let o = on_new_bar c b s in
        (o.sent ≡ none)
        × (o.engine.paused ≡ true)
        × (o.engine.permission.stage ≡ guardian_halted)
        × (o.engine.guardian ≡ (guard b a s).0.state)
  unfolding on_new_bar with_answer guard
  on_new_bar_halted c b a s n e h =
      let long : ltb b.candles 50 ≡ false = ground arith in
      rw (long, e)
        (with_account_halted c b a
          (record s { permission = record { allowed = false; stage = evaluating } }) h)
