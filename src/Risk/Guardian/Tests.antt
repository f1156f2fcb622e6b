-- ===== src/Risk/Guardian/Tests.antt =====
-- A day of an account of 1000, in fixed-point numbers.
use scalping.Prelude.{ℕ, ◌*◌, ◌≡◌, refl, true, false, ◌||◌, none, some, List, [], ◌∷◌, arith}
use scalping.Prelude.Int.{pos}
use scalping.Float.Fixed.{Fixed, fixed_float}
use scalping.Risk.Guardian.{
  Reason, RiskGuardian, max_drawdown, loss_limit_hit, drawdown_hit, check, initialize,
  restore_state, read_back, snapshot, empty,
}
use scalping.Risk.Guardian.Halt.{
  Tick, measured, still_halted, check_halted, check_not_initialized, checks, IsHalted,
  checks-IsHalted,
}
use scalping.Risk.Guardian.Saved.{Call, on_initialize, on_check}
use scalping.Risk.Guardian.Restored.{restore_state-read_back}

abbrev dollars : ℕ → Fixed
dollars n = pos (n * 10000)

-- Limits of 3 % and 8 %.
abbrev cold : RiskGuardian Fixed
cold = record {
  daily_loss_limit_pct = dollars 3;
  max_drawdown_pct = dollars 8;
  account_login = "7001";
  account_server = "AMarkets-Demo";
  initialized = false;
  halted = false;
  halt_reason = empty;
  triggered_at = none;
  equity_peak = pos 0;
  session_open_balance = pos 0;
  day_open_balance = pos 0;
  last_day = none;
  halt_log_count = 0;
}

abbrev warm : RiskGuardian Fixed
warm = record cold {
  initialized = true;
  equity_peak = dollars 1000;
  session_open_balance = dollars 1000;
  day_open_balance = dollars 1000;
  last_day = some 5;
}

initialize-cold : (initialize 5 (dollars 1000) (dollars 1000) cold).state ≡ warm
unfolding initialize
initialize-cold = refl

abbrev fallen : Reason Fixed
fallen = max_drawdown (dollars 10) (dollars 900) (dollars 1000) (dollars 8)

abbrev halted_now : RiskGuardian Fixed
halted_now = record warm { halted = true; halt_reason = fallen; triggered_at = some 77 }

-- A pullback of 10 % halts.
check_falls : (check 5 77 (dollars 1000) (dollars 900) warm).0.state ≡ halted_now
unfolding check loss_limit_hit drawdown_hit
check_falls = refl

-- A loss of 4 % halts for the day, and the next day opens again.
check_loses :
    let g = (check 5 77 (dollars 960) (dollars 960) warm).0.state in
    (g.halted ≡ true) × ((check 6 90 (dollars 960) (dollars 960) g).0.state.halted ≡ false)
unfolding check loss_limit_hit drawdown_hit
check_loses = (refl, refl)

check_halted_example :
    let m = measured 5 (dollars 1000) (dollars 900) warm in
    (check 5 77 (dollars 1000) (dollars 900) warm).0.state.halted
    ≡ (still_halted 5 warm || (loss_limit_hit (dollars 1000) m || drawdown_hit (dollars 900) m))
check_halted_example = check_halted 5 77 (dollars 1000) (dollars 900) warm refl

cold_is_halted :
    ((check 5 77 (dollars 1000) (dollars 900) cold).1.halted ≡ true)
    × ((check 5 77 (dollars 1000) (dollars 900) cold).0.state ≡ cold)
    × ((check 5 77 (dollars 1000) (dollars 900) cold).0.saves ≡ [])
cold_is_halted = check_not_initialized 5 77 (dollars 1000) (dollars 900) cold refl

abbrev recovery : List (Tick Fixed)
recovery =
    record { today = 5; now = 80; balance = dollars 1000; equity = dollars 1000 }
    ∷ record { today = 5; now = 90; balance = dollars 1100; equity = dollars 1100 }
    ∷ []

halted_now-IsHalted : IsHalted fallen (some 77) halted_now
halted_now-IsHalted = record {
  initialized = refl;
  halted = refl;
  same_reason = refl;
  same_time = refl;
}

checks-IsHalted_example : IsHalted fallen (some 77) (checks recovery halted_now)
checks-IsHalted_example =
    checks-IsHalted recovery 5 halted_now refl (omega arith) halted_now-IsHalted

abbrev day : List (Call Fixed)
day =
    on_initialize 5 (dollars 1000) (dollars 1000) ∷ on_check 5 77 (dollars 1000) (dollars 900) ∷ []

restore_state-read_back_example :
    restore_state false false (read_back (snapshot halted_now)) cold ≡ (halted_now, true)
restore_state-read_back_example =
    restore_state-read_back halted_now cold refl
      (record { peak = refl; day = refl; session = refl })
      (record { login = refl; server = refl; day = refl; log_count = refl })
