-- ===== src/Signals/Range/Context.antt =====
-- live_trading/signals/decision_engine.py: the range gate as `run_decision_engine` calls it, on the
-- liquidity sweeps of the same candles.
use scalping.Prelude.{false, Option, none, some, List}
use scalping.Float.{Float, nought}
use scalping.Market.{Candle}
use scalping.Signals.Decision.{RangeContext, Analysis, EngineRules}
use scalping.Signals.Smc.Analyze.{analyze_smc_structure}
use scalping.Signals.Range.{RangeEntry, RangeRules, Reversals, evaluate_range_entry}

module _ {ℓ} {W : Type ℓ} ⦃f : Float W⦄ where
  -- An exception of the gate ends the call, so there is no entry either.
  abbrev pub range_context : Option (RangeEntry W) → RangeContext W
  range_context none = record { valid = false; support = nought; resistance = nought }
  range_context (some e) = record {
    valid = e.valid;
    support = e.support;
    resistance = e.resistance;
  }

  abbrev pub range_rules : EngineRules W → (edge : W) → RangeRules W
  range_rules r edge = record {
    min_confirmations = r.range_min_confirmations;
    lookback = 20;
    edge_atr_distance = edge;
    strict_filters = r.range_entry_filters_enabled;
  }

  -- The analysis with the range gate of the candles.
  abbrev pub with_range :
      List (Candle W) → Reversals → EngineRules W → (edge : W) → Analysis W → Analysis W
  with_range cs pa r edge a = record a {
    range_entry = λ d n. range_context (
        evaluate_range_entry cs d (analyze_smc_structure cs).liquidity_sweeps pa n
          (range_rules r edge));
  }
