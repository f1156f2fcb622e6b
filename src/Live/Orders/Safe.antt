-- ===== src/Live/Orders/Safe.antt =====
-- The orders that the loop sends (live_trading/trading/live_loop.py).
use scalping.Prelude.{◌≡◌, refl, true, Option, none, some, Bool-cases, inl, inr, arith}
use scalping.Float.{Float, ◌≼◌, nought, IsNumber}
use scalping.Float.Laws.{IsOrdered, IsRounded}
use scalping.Market.{Direction}
use scalping.Risk.Capital.{CapitalOutput, calc_trade_parameters, min_lot, max_lot}
use scalping.Risk.Capital.Stop.{IsCloser}
use scalping.Risk.Capital.Lots.{lot_size_bounds}
use scalping.Signals.Decision.{
  RangeContext, Analysis, EngineRules, DecisionResult, refused, accepted, candidate_direction,
  capital_input, run_decision_engine,
}
use scalping.Signals.Decision.Accepted.{
  context_of, acceptable, trade_of, run_decision_engine_trade, HasLevels, HasNumbers,
  run_decision_engine-HasLevels,
}
use scalping.Live.Engine.{Engine}
use scalping.Live.Bar.{Settings, Decision, Order, Bar, order_of}
use scalping.Live.Gates.{on_new_bar}
use scalping.Live.Gates.Cleared.{cleared, on_new_bar-sent}
use scalping.Live.Orders.{decision_from, decided}

module _ {ℓ} {W : Type ℓ} ⦃f : Float W⦄ where
  -- The lot is within the limits, and the entry is the last closing price as prices are rounded.
  abbrev HasLot : W → Option (Direction × W × CapitalOutput W) → Type ℓ
  HasLot close none = Unit
  HasLot close (some (d, c, t)) =
      (min_lot ≼ t.lot_size) × (t.lot_size ≼ max_lot) × (t.entry_price ≡ f.round close 2)

  -- An order has its stop and its target on the right sides of a price, and a lot within the limits.
  abbrev pub IsSafe : (price : W) → Option (Order W) → Type 0
  IsSafe price none = Unit
  IsSafe price (some o) =
      IsCloser o.direction price o.sl
      × IsCloser o.direction o.tp price
      × (min_lot ≼ o.lot_size)
      × (o.lot_size ≼ max_lot)

  -- The levels of an order are numbers, if there is an order.
  abbrev pub AreNumbers : Option (Order W) → Type 0
  AreNumbers none = Unit
  AreNumbers (some o) = IsNumber o.sl × IsNumber o.tp

  order-HasNumbers :
      (a : Analysis W) (x : DecisionResult W) (old : Decision W)
      → AreNumbers (some (order_of (decision_from a x old)))
      → (decision_from a x old).allowed ≡ true
      → HasNumbers (trade_of x)
  unfolding order_of
  order-HasNumbers a (refused x) old n h = tt
  order-HasNumbers a (accepted d c t) old n h = n

  order-IsSafe :
      (a : Analysis W) (x : DecisionResult W) (old : Decision W)
      → HasLevels (trade_of x)
      → HasLot a.close (trade_of x)
      → (decision_from a x old).allowed ≡ true
      → IsSafe (f.round a.close 2) (some (order_of (decision_from a x old)))
  unfolding order_of
  order-IsSafe a (refused x) old l n h = ground arith
  order-IsSafe a (accepted d c t) old (s, g) (lo, hi, e) h = rw⁻¹ e (s, g, lo, hi)

module _ {ℓ} {W : Type ℓ} ⦃f : Float W⦄ (laws : IsOrdered W) (rounding : IsRounded W) where
  entry_price-rounded :
      (a : Analysis W) (r : EngineRules W) (d : Direction) (x : Option (RangeContext W))
      → (calc_trade_parameters (capital_input a r d x)).entry_price ≡ f.round a.close 2
  unfolding calc_trade_parameters capital_input
  entry_price-rounded a r d x = refl

  run_decision_engine-HasLot :
      (a : Analysis W) (r : EngineRules W) → HasLot a.close (trade_of (run_decision_engine a r))
  run_decision_engine-HasLot a r =
      let d = candidate_direction a.smc in
      rw (run_decision_engine_trade a r) (elim (Bool-cases (acceptable a r)) [
        | inl e ↦
            let i = capital_input a r d (context_of a r) in
            let (lo, hi) = lot_size_bounds laws rounding i in
            rw e (lo, hi, entry_price-rounded a r d (context_of a r))
        | inr e ↦ rw e tt
      ])

  allowed_of_cleared :
      (c : Settings W) (b : Bar W) (s : Engine W) → cleared c b s ≡ true → b.decision.allowed ≡ true
  allowed_of_cleared c b s h = ground arith

  -- In floats that are ordered and rounded as IEEE doubles are, when a bar is decided by the decision
  -- engine, for an ATR and reward ratios that are not negative: an order that it sends, if neither its
  -- stop nor its target is NaN, has its stop and its target on the right sides of the last closing price,
  -- as prices are rounded, and from 0.01 to 50 lots, whatever the market, the account and the settings.
  pub on_new_bar-IsSafe :
      (c : Settings W) (a : Analysis W) (r : EngineRules W) (b : Bar W) (s : Engine W)
      → nought ≼ a.atr
      → nought ≼ r.range_min_rr
      → nought ≼ r.fixed_tp_rr
      → AreNumbers (on_new_bar c (decided a r b) s).sent
      → IsSafe (f.round a.close 2) (on_new_bar c (decided a r b) s).sent
  on_new_bar-IsSafe c a r b s h p q num =
      rw (on_new_bar-sent c (decided a r b) s) (elim (Bool-cases (cleared c (decided a r b) s)) [
        | inl e ↦
            let sent : AreNumbers (some (order_of (decided a r b).decision)) =
              rw e at (rw (on_new_bar-sent c (decided a r b) s) at num) in
            let x = run_decision_engine a r in
            let allowed = allowed_of_cleared c (decided a r b) s e in
            let levels =
              run_decision_engine-HasLevels laws rounding a r h p q
                (order-HasNumbers a x b.decision sent allowed) in
            rw e (order-IsSafe a x b.decision levels (run_decision_engine-HasLot a r) allowed)
        | inr e ↦ rw e tt
      ])
