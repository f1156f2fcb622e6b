-- ===== src/Live/Orders.antt =====
-- live_trading/trading/live_loop.py: a bar whose decision is the one of `run_decision_engine`
-- (live_trading/signals/decision_engine.py), step 5 of `_on_new_bar`.
use scalping.Prelude.{true, false}
use scalping.Float.{Float}
use scalping.Signals.Decision.{
  Analysis, EngineRules, DecisionResult, refused, accepted, run_decision_engine,
}
use scalping.Live.Bar.{Decision, Bar}
pub mod Safe
mod Tests

module _ {ℓ} {W : Type ℓ} where
  -- What the gates read of a result. A refused one is only read for `allowed`; the rest is left as in
  -- the decision `old`.
  abbrev pub decision_from : Analysis W → DecisionResult W → (old : Decision W) → Decision W
  decision_from a (refused x) old = record old { allowed = false }
  decision_from a (accepted d c t) old = record {
    allowed = true;
    direction = d;
    regime = a.regime;
    confidence = c;
    trade_params = t;
  }

module _ {ℓ} {W : Type ℓ} ⦃f : Float W⦄ where
  abbrev pub decided : Analysis W → EngineRules W → Bar W → Bar W
  decided a r b = record b { decision = decision_from a (run_decision_engine a r) b.decision }
