-- ===== src/Signals/Decision/Accepted.antt =====
-- What `run_decision_engine` has checked of a trade that it accepts
-- (live_trading/signals/decision_engine.py).
use scalping.Prelude.{
  ◌≡◌, inl, inr, Bool, true, not, ◌&&◌, Option, none, some, if◌then◌else◌, arith, Bool-cases,
}
use scalping.Float.{Float, ◌<?◌, ◌≼◌, nought, IsNumber}
use scalping.Float.Laws.{IsOrdered, IsRounded}
use scalping.Market.{Direction, is_neutral, is_range}
use scalping.Risk.Capital.{CapitalOutput, calc_trade_parameters}
use scalping.Risk.Capital.Stop.{IsCloser, stop_entry_target}
use scalping.Signals.Decision.{
  RangeContext, Analysis, EngineRules, DecisionResult, refused, accepted, candidate_direction,
  entry_filter_of, votes_suffice, allows, capital_input, priced, judged, in_range,
  run_decision_engine,
}

module _ {ℓ} {W : Type ℓ} ⦃f : Float W⦄ where
  -- The context of a range trade: the one of its direction and its votes.
  abbrev pub context_of : Analysis W → EngineRules W → Option (RangeContext W)
  context_of a r =
      let d = candidate_direction a.smc in
      if is_range a.regime
      then some (a.range_entry d (entry_filter_of a r d).confirmation_count)
      else none

  abbrev pub is_valid_context : EngineRules W → Option (RangeContext W) → Bool
  is_valid_context r none = true
  is_valid_context r (some x) = r.range_trading_enabled && x.valid

  -- All that an entry in a direction must meet, in no order.
  abbrev pub acceptable : Analysis W → EngineRules W → Bool
  acceptable a r =
      let d = candidate_direction a.smc in
      let conf = a.confidence d in
      let t = calc_trade_parameters (capital_input a r d (context_of a r)) in
      not (is_neutral d)
      && votes_suffice a r (entry_filter_of a r d)
      && is_valid_context r (context_of a r)
      && allows a.rules d
      && not (conf <? r.conf_hard_min)
      && a.quality d conf
      && not (a.fake_breakout d)
      && not ((conf <? a.rules.min_confidence) && (t.risk_reward_ratio <? f.dec 13 1))
      && not (t.risk_reward_ratio <? (if is_range a.regime then r.range_min_rr else a.rules.min_rr))

  abbrev pub trade_of : DecisionResult W → Option (Direction × W × CapitalOutput W)
  trade_of (refused x) = none
  trade_of (accepted d c t) = some (d, c, t)

  judged_trade :
      (a : Analysis W) (r : EngineRules W) (d : Direction) (x : Option (RangeContext W))
      → let conf = a.confidence d in
        let t = calc_trade_parameters (capital_input a r d x) in
        trade_of (judged a r d x) ≡ (
          if allows a.rules d
            && not (conf <? r.conf_hard_min)
            && a.quality d conf
            && not (a.fake_breakout d)
            && not ((conf <? a.rules.min_confidence) && (t.risk_reward_ratio <? f.dec 13 1))
            && not (
                t.risk_reward_ratio
                <? (if is_range a.regime then r.range_min_rr else a.rules.min_rr))
          then some (d, conf, t)
          else none)
  unfolding judged priced
  judged_trade a r d x = ground arith

  -- The engine accepts exactly the entries that are acceptable, with the direction of the market
  -- structure, its confidence, and the trade that the capital manager makes of it.
  pub run_decision_engine_trade :
      (a : Analysis W) (r : EngineRules W)
      → let d = candidate_direction a.smc in
        trade_of (run_decision_engine a r) ≡ (
          if acceptable a r
          then some
              (d, a.confidence d, calc_trade_parameters (capital_input a r d (context_of a r)))
          else none)
  unfolding run_decision_engine in_range
  run_decision_engine_trade a r =
      let d = candidate_direction a.smc in
      let x = a.range_entry d (entry_filter_of a r d).confirmation_count in
      elim (Bool-cases (is_range a.regime)) [
        | inl e ↦ ground (arith, judged_trade a r d (some x))
        | inr e ↦ ground (arith, judged_trade a r d none)
      ]

  -- The entry lies between the stop and the target, as prices are rounded.
  abbrev pub HasLevels : Option (Direction × W × CapitalOutput W) → Type 0
  HasLevels none = Unit
  HasLevels (some (d, c, t)) =
      IsCloser d t.entry_price t.stop_loss × IsCloser d t.take_profit t.entry_price

  -- The levels of a trade are numbers, if there is a trade.
  abbrev pub HasNumbers : Option (Direction × W × CapitalOutput W) → Type 0
  HasNumbers none = Unit
  HasNumbers (some (d, c, t)) = IsNumber t.stop_loss × IsNumber t.take_profit

  reward-IsNonneg :
      (a : Analysis W) (r : EngineRules W) (d : Direction) (x : Option (RangeContext W))
      → nought ≼ r.range_min_rr
      → nought ≼ r.fixed_tp_rr
      → nought ≼ (capital_input a r d x).take_profit_rr
  unfolding capital_input
  reward-IsNonneg a r d x p q = elim (Bool-cases (is_range a.regime)) [
    | inl e ↦ rw e p
    | inr e ↦ rw e q
  ]

module _ {ℓ} {W : Type ℓ} ⦃f : Float W⦄ (laws : IsOrdered W) (rounding : IsRounded W) where
  -- For an ATR and reward ratios that are not negative, a trade that the engine accepts, with levels that
  -- are not NaN, has its stop on the losing side of the entry and its target on the winning side.
  pub run_decision_engine-HasLevels :
      (a : Analysis W) (r : EngineRules W)
      → nought ≼ a.atr
      → nought ≼ r.range_min_rr
      → nought ≼ r.fixed_tp_rr
      → HasNumbers (trade_of (run_decision_engine a r))
      → HasLevels (trade_of (run_decision_engine a r))
  unfolding capital_input
  run_decision_engine-HasLevels a r h p q num =
      let d = candidate_direction a.smc in
      let i = capital_input a r d (context_of a r) in
      let priced_trade : Direction × W × CapitalOutput W =
        (d, a.confidence d, calc_trade_parameters i) in
      let e = run_decision_engine_trade a r in
      rw e (elim (Bool-cases (acceptable a r)) [
        | inl ok ↦
            let numbers : HasNumbers (some priced_trade) = rw ok at (rw e at num) in
            rw ok (
              stop_entry_target laws rounding i h (reward-IsNonneg a r d (context_of a r) p q)
                numbers.0 numbers.1)
        | inr refused_it ↦ rw refused_it tt
      ])
