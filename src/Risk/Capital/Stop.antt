-- ===== src/Risk/Capital/Stop.antt =====
-- Where the stop and the target of a trade lie (live_trading/risk/capital_manager.py).
use scalping.Prelude.{◌≡◌, refl, Option, none, some, arith, if◌then◌else◌}
use scalping.Float.{Float, ◌⊕◌, ◌⊖◌, ◌⊗◌, ◌≼◌, nought, IsNumber}
use scalping.Float.Laws.{IsOrdered, IsRounded, clamp_bounds, le-max_of}
use scalping.Market.{Direction, buy, sell, neutral, is_buy}
use scalping.Risk.Capital.{
  CapitalInput, clamp, clamped_distance, calc_smart_sl, min_sl_atr_mult, max_sl_atr_mult,
  calc_trade_parameters, take_profit_of, target_at, range_target,
}

module _ {ℓ} {W : Type ℓ} ⦃f : Float W⦄ where
  -- A distance away from the entry against the trade, and with it, as prices are rounded.
  abbrev pub against : Direction → (entry distance : W) → W
  against d entry dist = f.round (if is_buy d then entry ⊖ dist else entry ⊕ dist) 2

  abbrev pub with_trade : Direction → (entry distance : W) → W
  with_trade d entry dist = f.round (if is_buy d then entry ⊕ dist else entry ⊖ dist) 2

  -- `x` is not past `y`, seen against the trade.
  abbrev pub IsCloser : Direction → W → W → Type 0
  IsCloser d x y = if is_buy d then y ≼ x else x ≼ y

  module _ (laws : IsOrdered W) (rounding : IsRounded W) where
    open laws use {le_trans, le_of_lt, refl_of_le}
    open rounding use {
      sub_anti, add_mono, mul_mono, dec_mono, round_mono, sub-le, le-add, mul_nonneg, dec-zero,
      abs_nonneg, round-dec, number_of_round, numbers_of_add, numbers_of_sub, number_of_abs,
      numbers_of_mul,
    }

    clamped_distance_bounds :
        (i : CapitalInput W)
        → nought ≼ i.atr
        → IsNumber (i.atr ⊗ min_sl_atr_mult)
        → IsNumber (i.atr ⊗ max_sl_atr_mult)
        → (i.atr ⊗ min_sl_atr_mult ≼ clamped_distance i)
          × (clamped_distance i ≼ i.atr ⊗ max_sl_atr_mult)
    unfolding clamped_distance clamp
    clamped_distance_bounds i h lo hi =
        clamp_bounds laws _ _ _ (mul_mono _ _ i.atr h (dec_mono 50 300 2 (omega arith)) lo hi)

    against-IsCloser :
        (d : Direction) (entry x y : W)
        → x ≼ y
        → IsNumber (against d entry x)
        → IsNumber (against d entry y)
        → IsCloser d (against d entry x) (against d entry y)
    against-IsCloser buy entry x y h p q =
        round_mono _ _ 2 (sub_anti x y entry h (number_of_round _ 2 p) (number_of_round _ 2 q))
    against-IsCloser sell entry x y h p q =
        round_mono _ _ 2 (add_mono x y entry h (number_of_round _ 2 p) (number_of_round _ 2 q))
    against-IsCloser neutral entry x y h p q =
        round_mono _ _ 2 (add_mono x y entry h (number_of_round _ 2 p) (number_of_round _ 2 q))

    against-AreNumbers :
        (d : Direction) (entry x : W) → IsNumber (against d entry x) → IsNumber entry × IsNumber x
    against-AreNumbers buy entry x h = numbers_of_sub entry x (number_of_round _ 2 h)
    against-AreNumbers sell entry x h = numbers_of_add entry x (number_of_round _ 2 h)
    against-AreNumbers neutral entry x h = numbers_of_add entry x (number_of_round _ 2 h)

    against_entry :
        (d : Direction) (entry x : W)
        → nought ≼ x
        → IsNumber (against d entry x)
        → IsCloser d (f.round entry 2) (against d entry x)
    against_entry buy entry x h p = round_mono _ _ 2 (sub-le entry x h (number_of_round _ 2 p))
    against_entry sell entry x h p = round_mono _ _ 2 (le-add entry x h (number_of_round _ 2 p))
    against_entry neutral entry x h p = round_mono _ _ 2 (le-add entry x h (number_of_round _ 2 p))

    with_entry :
        (d : Direction) (entry x : W)
        → nought ≼ x
        → IsNumber (with_trade d entry x)
        → IsCloser d (with_trade d entry x) (f.round entry 2)
    with_entry buy entry x h p = round_mono _ _ 2 (le-add entry x h (number_of_round _ 2 p))
    with_entry sell entry x h p = round_mono _ _ 2 (sub-le entry x h (number_of_round _ 2 p))
    with_entry neutral entry x h p = round_mono _ _ 2 (sub-le entry x h (number_of_round _ 2 p))

    with_trade-IsNumber :
        (d : Direction) (entry x : W) → IsNumber (with_trade d entry x) → IsNumber x
    with_trade-IsNumber buy entry x h = (numbers_of_add entry x (number_of_round _ 2 h)).1
    with_trade-IsNumber sell entry x h = (numbers_of_sub entry x (number_of_round _ 2 h)).1
    with_trade-IsNumber neutral entry x h = (numbers_of_sub entry x (number_of_round _ 2 h)).1

    -- In floats that are ordered and rounded as IEEE doubles are, for an ATR that is not negative, where
    -- neither the stop nor the two levels at half an ATR and at three ATRs against the trade, each
    -- rounded to two decimals, is NaN: the stop lies between these two rounded levels, whatever supports
    -- and resistances the market offers.
    pub stop_loss_bounds :
        (i : CapitalInput W)
        → nought ≼ i.atr
        → IsNumber (calc_trade_parameters i).stop_loss
        → IsNumber (against i.direction i.entry_price (i.atr ⊗ min_sl_atr_mult))
        → IsNumber (against i.direction i.entry_price (i.atr ⊗ max_sl_atr_mult))
        → let sl = (calc_trade_parameters i).stop_loss in
          IsCloser i.direction sl (against i.direction i.entry_price (i.atr ⊗ max_sl_atr_mult))
          × IsCloser i.direction (against i.direction i.entry_price (i.atr ⊗ min_sl_atr_mult)) sl
    unfolding calc_trade_parameters calc_smart_sl
    stop_loss_bounds i h at near far =
        let least = (against-AreNumbers i.direction i.entry_price _ near).1 in
        let most = (against-AreNumbers i.direction i.entry_price _ far).1 in
        let (lo, hi) = clamped_distance_bounds i h least most in
        (
          against-IsCloser i.direction i.entry_price _ _ hi at far,
          against-IsCloser i.direction i.entry_price _ _ lo near at,
        )

    range_target-IsCloser :
        (d : Direction) (entry : W) (o : Option W) {level : W}
        → range_target d entry o ≡ some level
        → IsCloser d (f.round level 2) (f.round entry 2)
    range_target-IsCloser d entry none e = cc
    range_target-IsCloser buy entry (some x) e =
        ground (arith, round_mono entry x 2, le_of_lt entry x)
    range_target-IsCloser sell entry (some x) e =
        ground (arith, round_mono x entry 2, le_of_lt x entry)
    range_target-IsCloser neutral entry (some x) e = cc

    target_at-IsCloser :
        (i : CapitalInput W) (dist : W) (o : Option W)
        → range_target i.direction i.entry_price i.take_profit_level ≡ o
        → (IsNumber dist → nought ≼ dist)
        → nought ≼ i.take_profit_rr
        → IsNumber (target_at i dist o).0
        → IsCloser i.direction (target_at i dist o).0 (f.round i.entry_price 2)
    unfolding target_at
    target_at-IsCloser i dist none e h r p =
        let product = with_trade-IsNumber i.direction i.entry_price _ p in
        let positive = h (numbers_of_mul dist i.take_profit_rr product).0 in
        with_entry i.direction i.entry_price _ (mul_nonneg dist i.take_profit_rr positive r product)
          p
    target_at-IsCloser i dist (some level) e h r p =
        range_target-IsCloser i.direction i.entry_price i.take_profit_level e

    rounded_abs_nonneg : (x : W) → IsNumber (f.round (f.abs x) 2) → nought ≼ f.round (f.abs x) 2
    rounded_abs_nonneg x p =
        rw (round-dec 0 0 2 (omega arith)) at
          (round_mono _ _ 2 (abs_nonneg x (number_of_abs x (number_of_round _ 2 p))))

    clamped_distance-nonneg :
        (i : CapitalInput W)
        → nought ≼ i.atr
        → IsNumber (clamped_distance i)
        → nought ≼ clamped_distance i
    unfolding clamped_distance clamp
    clamped_distance-nonneg i h p =
        let half = le-max_of laws _ _ p in
        le_trans _ _ _
          (mul_nonneg i.atr min_sl_atr_mult h (rw (dec-zero 2) at (dec_mono 0 50 2 (omega arith)))
            (refl_of_le _ _ half).0)
          half

    -- For an ATR and a reward ratio that are not negative, where neither the stop nor the target is NaN,
    -- the entry lies between the stop, on the losing side, and the target, on the winning side, as
    -- prices are rounded.
    pub stop_entry_target :
        (i : CapitalInput W)
        → nought ≼ i.atr
        → nought ≼ i.take_profit_rr
        → let out = calc_trade_parameters i in
          IsNumber out.stop_loss
          → IsNumber out.take_profit
          → IsCloser i.direction out.entry_price out.stop_loss
            × IsCloser i.direction out.take_profit out.entry_price
    unfolding calc_trade_parameters calc_smart_sl take_profit_of
    stop_entry_target i h r p q = (
      against_entry i.direction i.entry_price _
          (clamped_distance-nonneg i h (against-AreNumbers i.direction i.entry_price _ p).1) p,
      target_at-IsCloser i _ _ refl (rounded_abs_nonneg _) r q,
    )
