-- ===== src/Server/Supervisor.antt =====
-- live_trading/server.py: `_robot_supervisor`, the endless loop that runs the engine and waits between
-- two attempts. How each attempt ends is an argument; waits are in seconds.
use scalping.Prelude.{
  ℕ, ◌+◌, ◌*◌, ◌^◌, min, Bool, true, false, Option, none, some, List, [], ◌∷◌, if◌then◌else◌,
}
pub mod Backoff
mod Tests

-- `_run_robot_once`: settings that are missing when it looks at them, what `engine.start()` returns, an
-- exception, or `SystemExit`, which the import of live_trading/config.py raises for a setting that it
-- cannot read.
pub data Attempt : Type 0 where
  no_config : Attempt
  returned : (ok : Bool) → Attempt
  raised exited : Attempt

-- `none` is a clean exit; the wait is part of the status "RETRY_IN_{wait}s" after an error.
pub record Supervisor : Type 0 where
  pub backoff : ℕ
  pub retry_in : Option ℕ

abbrev pub backoff_base : ℕ
backoff_base = 15

abbrev pub backoff_max : ℕ
backoff_max = 120

abbrev pub start : Supervisor
start = record { backoff = backoff_base; retry_in = none }

-- `except Exception`: the new state, and the seconds that it sleeps.
abbrev pub retry : Supervisor → Supervisor × ℕ
retry s =
    let wait = min s.backoff backoff_max in
    (record { backoff = min (s.backoff * 2) backoff_max; retry_in = some wait }, wait)

-- One round of the loop, if the loop goes on after it: `SystemExit` is not caught.
unfoldable pub supervise : Attempt → Supervisor → Option (Supervisor × ℕ)
supervise no_config s = some (retry s)
supervise (returned true) s =
    some (record { backoff = backoff_base; retry_in = none }, backoff_base)
supervise (returned false) s = some (retry s)
supervise raised s = some (retry s)
supervise exited s = none

-- Any number of rounds, as far as the loop goes: the state after them, and the waits in their order.
unfoldable pub rounds : List Attempt → Supervisor → Supervisor × List ℕ
unfolding supervise
rounds [] s = (s, [])
rounds (a ∷ ends) s = elim (supervise a s) [
  | none ↦ (s, [])
  | some x ↦ let rest = rounds ends x.0 in (rest.0, x.1 ∷ rest.1)
]
