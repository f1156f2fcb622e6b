-- ===== src/Signals/Engine/Accepted.antt =====
-- What candles must show before the engine trades on them (live_trading/signals/decision_engine.py).
use scalping.Prelude.{
  ℕ, ◌≡◌, ◌≤◌, true, false, Option, none, some, List, length, is_some, arith, Bool-cases, inl, inr,
}
use scalping.Float.{Float, ◌<?◌, ◌≼◌}
use scalping.Float.Laws.{IsOrdered, IsRounded}
use scalping.Market.{Candle, Direction, is_range}
use scalping.Risk.Capital.{CapitalOutput}
use scalping.Signals.Decision.{Analysis, EngineRules, candidate_direction, allows}
use scalping.Signals.Decision.Accepted.{acceptable, trade_of, run_decision_engine_trade}
use scalping.Signals.Quality.Allowed.{apply_quality_filter_allowed}
use scalping.Signals.Confidence.Bounds.{calc_confidence-le}
use scalping.Signals.PriceAction.Analyze.{analyze_price_action, reversals_of}
use scalping.Signals.Range.Closed.{range_trade_never}
use scalping.Signals.Engine.{Settings, unranged, analyse, decide}

module _ {ℓ} {W : Type ℓ} ⦃f : Float W⦄ where
  -- What is seen of a trade: its direction and its confidence.
  abbrev pub IsBacked :
      Analysis W
      → EngineRules W
      → (hour : Option ℕ) → List (Candle W)
      → Option (Direction × W × CapitalOutput W)
      → Type 0
  IsBacked a r hour cs none = Unit
  IsBacked a r hour cs (some (d, c, t)) =
      (30 ≤ length cs)
      × (is_some hour ≡ true)
      × (allows a.rules d ≡ true)
      × ((c <? r.conf_hard_min) ≡ false)
      × (c ≼ f.dec 100 0)

  acceptable-parts :
      (a : Analysis W) (r : EngineRules W)
      → acceptable a r ≡ true
      → let d = candidate_direction a.smc in
        (allows a.rules d ≡ true)
        × ((a.confidence d <? r.conf_hard_min) ≡ false)
        × (a.quality d (a.confidence d) ≡ true)
  acceptable-parts a r h = ground arith

module _ {ℓ} {W : Type ℓ} ⦃f : Float W⦄ (laws : IsOrdered W) (rounding : IsRounded W) where
  confidence-le :
      (s : Settings W) (r : EngineRules W) (hour : Option ℕ) (cs : List (Candle W)) (d : Direction)
      → (analyse s r hour cs).confidence d ≼ f.dec 100 0
  unfolding analyse unranged
  confidence-le s r hour cs d = calc_confidence-le laws rounding _ _ _ _ _ _ _ _ _

  -- For ordered and correctly rounded floats, on any candles: a trade that the engine accepts has thirty
  -- candles behind it, the last of a readable time; the regime of the candles allows its direction; and
  -- its confidence is at most 100 and not below the hard minimum.
  pub decide-IsBacked :
      (s : Settings W) (r : EngineRules W) (hour : Option ℕ) (cs : List (Candle W))
      → IsBacked (analyse s r hour cs) r hour cs (trade_of (decide s r hour cs))
  unfolding decide analyse unranged
  decide-IsBacked s r hour cs =
      let a = analyse s r hour cs in
      let d = candidate_direction a.smc in
      rw (run_decision_engine_trade a r) (elim (Bool-cases (acceptable a r)) [
        | inl e ↦
            let (allowed, sure, good) = acceptable-parts a r e in
            let (long, _, readable, _, _, _) =
              apply_quality_filter_allowed s.quality cs hour d (a.confidence d) _ _ good in
            rw e (long, readable, allowed, sure, confidence-le s r hour cs d)
        | inr e ↦ rw e tt
      ])

  -- With the filters of range entries on, no candles whose regime is a range are traded.
  pub decide-range :
      (s : Settings W) (r : EngineRules W) (hour : Option ℕ) (cs : List (Candle W))
      → r.range_entry_filters_enabled ≡ true
      → is_range (analyse s r hour cs).regime ≡ true
      → trade_of (decide s r hour cs) ≡ none
  unfolding decide analyse
  decide-range s r hour cs on h =
      range_trade_never laws rounding cs (reversals_of (analyze_price_action cs)) r
        s.range_edge_atr_distance (unranged s hour cs) on h
