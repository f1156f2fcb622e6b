-- ===== src/Server/Supervisor/Tests.antt =====
-- Runs of `_robot_supervisor` of live_trading/server.py.
use scalping.Prelude.{◌≡◌, refl, true, false, List, [], ◌∷◌, ◌++◌, length}
use scalping.Server.Supervisor.{
  Attempt, no_config, returned, raised, exited, start, supervise, rounds,
}
use scalping.Server.Supervisor.Backoff.{doubling, rounds_backoff}

abbrev failing : List Attempt
failing = raised ∷ returned false ∷ no_config ∷ raised ∷ raised ∷ []

waits : (rounds (returned true ∷ failing) start).1 ≡ 15 ∷ 15 ∷ 30 ∷ 60 ∷ 120 ∷ 120 ∷ []
unfolding rounds supervise
waits = refl

rounds_backoff_example :
    let run = (raised ∷ []) ++ returned true ∷ failing in
    ((rounds run start).1 ≡ (rounds (raised ∷ []) start).1 ++ 15 ∷ doubling 0 (length failing))
    × (rounds (run ++ exited ∷ raised ∷ []) start ≡ rounds run start)
rounds_backoff_example =
    rounds_backoff (raised ∷ []) failing (raised ∷ []) (refl, tt)
      (refl, (refl, (refl, (refl, (refl, tt)))))
