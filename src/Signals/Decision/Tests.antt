-- ===== src/Signals/Decision/Tests.antt =====
-- Runs of `run_decision_engine` (live_trading/signals/decision_engine.py).
use scalping.Prelude.{◌≡◌, refl, none, some, if◌then◌else◌}
use scalping.Float.Fixed.{fixed_float}
use scalping.Market.{buy}
use scalping.Risk.Capital.{calc_trade_parameters}
use scalping.Signals.Decision.{
  get_latest_structure_event, newest, newest_of, candidate_direction, capital_input,
  run_decision_engine,
}
use scalping.Signals.Decision.Accepted.{acceptable, context_of, trade_of, run_decision_engine_trade}
use scalping.Signals.Samples.{structure, analysis, rules}

-- On the same bar the CHoCH counts as the newer event.
candidate-structure : candidate_direction structure ≡ buy
unfolding candidate_direction get_latest_structure_event newest_of newest
candidate-structure = refl

run_decision_engine_trade_example :
    let d = candidate_direction analysis.smc in
    trade_of (run_decision_engine analysis rules) ≡ (
      if acceptable analysis rules
      then some (
        d,
        analysis.confidence d,
        calc_trade_parameters (capital_input analysis rules d (context_of analysis rules)),
      )
      else none)
run_decision_engine_trade_example = run_decision_engine_trade analysis rules
