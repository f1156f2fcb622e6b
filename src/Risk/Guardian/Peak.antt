-- ===== src/Risk/Guardian/Peak.antt =====
-- The equity peak is a high-water mark (live_trading/risk/guardian.py).
use scalping.Prelude.{ℕ, ◌≡◌, true, List, [], ◌∷◌, arith, All}
use scalping.Float.{Float, ◌≼◌, IsNumber, max_of}
use scalping.Float.Laws.{IsOrdered, max_of_bounds}
use scalping.Risk.Guardian.{RiskGuardian, check}
use scalping.Risk.Guardian.Halt.{Tick, checks}

module _ {ℓ} {W : Type ℓ} ⦃f : Float W⦄ where
  check-equity_peak :
      (today now : ℕ) (balance equity : W) (g : RiskGuardian W)
      → g.initialized ≡ true
      → let g' = (check today now balance equity g).0.state in
        (g'.equity_peak ≡ max_of g.equity_peak equity) × (g'.initialized ≡ true)
  unfolding check max_of
  check-equity_peak today now balance equity g h = ground arith

  module _ (laws : IsOrdered W) where
    open laws use {refl_of_le, le_trans}

    -- After any checks at figures that are numbers, the peak is at least what it was and at least
    -- every equity that was seen.
    pub checks-equity_peak :
        (ts : List (Tick W)) (g : RiskGuardian W)
        → g.initialized ≡ true
        → IsNumber g.equity_peak
        → All (λ t. IsNumber t.equity) ts
        → let top = (checks ts g).equity_peak in
          (g.equity_peak ≼ top) × All (λ t. t.equity ≼ top) ts
    unfolding checks
    checks-equity_peak [] g i p n = (p, tt)
    checks-equity_peak (t ∷ ts) g i p (n, ns) =
        let g' = (check t.today t.now t.balance t.equity g).0.state in
        let (e, i') = check-equity_peak t.today t.now t.balance t.equity g i in
        let (old, new) = max_of_bounds laws g.equity_peak t.equity p n in
        let old' : g.equity_peak ≼ g'.equity_peak = rw e old in
        let new' : t.equity ≼ g'.equity_peak = rw e new in
        let (up, rest) = checks-equity_peak ts g' i' (refl_of_le _ _ old').1 ns in
        (le_trans _ _ _ old' up, (le_trans _ _ _ new' up, rest))
