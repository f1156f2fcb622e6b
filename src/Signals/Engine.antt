-- ===== src/Signals/Engine.antt =====
-- live_trading/signals/decision_engine.py: `run_decision_engine` on candles. The engines feed one
-- another here as they do there; the hour of the last candle is an argument.
use scalping.Prelude.{
  ℕ, Bool, true, false, Option, none, some, List, map, get_last?, or_else, is_some,
}
use scalping.Float.{Float, nought}
use scalping.Market.{Candle, Direction}
use scalping.Signals.Decision.{
  Event, Analysis, EngineRules, DecisionResult, get_latest_structure_event, run_decision_engine,
}
use scalping.Signals.Smc.Blocks.{detect_order_block_fake_breakout}
use scalping.Signals.Smc.Analyze.{analyze_smc_structure, result_of}
use scalping.Signals.Trend.{analyze_trend}
use scalping.Signals.Wyckoff.{WyckoffConfig, WyckoffResult, analyze_wyckoff}
use scalping.Signals.PriceAction.Analyze.{analyze_price_action, reversals_of, patterns_of}
use scalping.Signals.Regime.{Thresholds, detect_market_regime}
use scalping.Signals.Divergence.{analyze_divergence}
use scalping.Signals.Confidence.{Wyckoff, calc_confidence}
use scalping.Signals.Quality.{QualityRules, get_session_quality, apply_quality_filter}
use scalping.Signals.Range.Context.{with_range}
pub mod Accepted
mod Tests

-- What the engines read besides the candles: the configuration, and the calibration of Wyckoff.
pub record Settings {ℓ} (W : Type ℓ) : Type ℓ where
  pub thresholds : Thresholds W
  pub quality : QualityRules W
  pub calibrated : Option (WyckoffConfig W)
  pub use_atr_high_vol : Bool
  pub range_edge_atr_distance : W

module _ {ℓ} {W : Type ℓ} where
  abbrev bar_of : Option (Event W) → Option ℕ
  bar_of none = none
  bar_of (some e) = some e.bar_index

  -- The fields that `_calc_wyckoff_score` reads.
  abbrev wyckoff_of : WyckoffResult W → Wyckoff W
  wyckoff_of w = record {
    signal = w.wyckoff_signal;
    score = w.wyckoff_score;
    spring = w.spring;
    upthrust = w.upthrust;
    volume_confirmed = w.volume_confirmed;
  }

module _ {ℓ} {W : Type ℓ} ⦃f : Float W⦄ where
  -- All but the gate of ranges.
  unfoldable pub unranged : Settings W → (hour : Option ℕ) → List (Candle W) → Analysis W
  unranged s hour candles =
      let smc = analyze_smc_structure candles in
      let wyckoff = analyze_wyckoff s.calibrated candles in
      let pa = analyze_price_action candles in
      let trend = analyze_trend candles in
      let regime =
        detect_market_regime s.thresholds candles trend wyckoff.phase s.use_atr_high_vol in
      let session = get_session_quality hour in
      let divergence = analyze_divergence candles in
      let bar = bar_of (get_latest_structure_event (result_of smc)) in
      record {
        smc = result_of smc;
        ema_trend = trend.trend;
        pa_signal = pa.pa_signal;
        wyckoff_signal = wyckoff.wyckoff_signal;
        regime = regime.regime;
        rules = regime.rules;
        atr = regime.atr;
        close = or_else (get_last? (map (λ c. c.close) candles)) nought;
        range_entry = λ d n. record { valid = false; support = nought; resistance = nought };
        confidence = λ d.
            (calc_confidence smc (wyckoff_of wyckoff) (patterns_of pa d) trend regime.adx
              regime.atr_ratio session d divergence.signal).total;
        quality =
            λ d c. (apply_quality_filter s.quality candles hour d c bar (some regime.adx)).allowed;
        fake_breakout = λ d.
            is_some
              (detect_order_block_fake_breakout candles smc.order_blocks smc.mitigation_blocks d 3);
      }

  unfoldable pub analyse :
      Settings W → EngineRules W → (hour : Option ℕ) → List (Candle W) → Analysis W
  analyse s r hour candles =
      with_range candles (reversals_of (analyze_price_action candles)) r s.range_edge_atr_distance
        (unranged s hour candles)

  -- The whole call.
  pub decide : Settings W → EngineRules W → (hour : Option ℕ) → List (Candle W) → DecisionResult W
  decide s r hour candles = run_decision_engine (analyse s r hour candles) r
