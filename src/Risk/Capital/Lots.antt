-- ===== src/Risk/Capital/Lots.antt =====
-- The lot size of a trade (live_trading/risk/capital_manager.py).
use scalping.Prelude.{arith, Bool-cases, inl, inr}
use scalping.Float.{Float, ◌≤?◌, ◌≼◌, nought}
use scalping.Float.Laws.{IsOrdered, IsRounded, clamp_bounds}
use scalping.Risk.Capital.{
  CapitalInput, clamp, min_lot, max_lot, calc_lot_size, calc_trade_parameters,
}

module _ {ℓ} {W : Type ℓ} ⦃f : Float W⦄ where
  module _ (laws : IsOrdered W) (rounding : IsRounded W) where
    open rounding use {dec_mono, round_mono, round-dec}

    round-clamp_bounds :
        (x : W)
        → (min_lot ≼ f.round (clamp x min_lot max_lot) 4)
          × (f.round (clamp x min_lot max_lot) 4 ≼ max_lot)
    unfolding clamp
    round-clamp_bounds x =
        let (lo, hi) = clamp_bounds laws min_lot max_lot x (dec_mono 1 5000 2 (omega arith)) in
        (
          rw (round-dec 1 2 4 (omega arith)) at (round_mono _ _ 4 lo),
          rw (round-dec 5000 2 4 (omega arith)) at (round_mono _ _ 4 hi),
        )

    calc_lot_size_bounds :
        (dist balance risk : W)
        → let lots = (calc_lot_size dist balance risk).0 in (min_lot ≼ lots) × (lots ≼ max_lot)
    unfolding calc_lot_size
    calc_lot_size_bounds dist balance risk = elim (Bool-cases (dist ≤? nought)) [
      | inl e ↦ rw e (dec_mono 1 1 2 (omega arith), dec_mono 1 5000 2 (omega arith))
      | inr e ↦ rw e (round-clamp_bounds _)
    ]

    -- Every trade is sized from 0.01 to 50 lots, whatever the balance, the risk and the stop.
    pub lot_size_bounds :
        (i : CapitalInput W)
        → let lots = (calc_trade_parameters i).lot_size in (min_lot ≼ lots) × (lots ≼ max_lot)
    unfolding calc_trade_parameters
    lot_size_bounds i = calc_lot_size_bounds _ i.account_balance i.risk_percent
