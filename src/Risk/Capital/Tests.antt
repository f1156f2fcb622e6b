-- ===== src/Risk/Capital/Tests.antt =====
-- A purchase at 2000 with an ATR of 4 and a broken low at 1994, in fixed-point numbers.
use scalping.Prelude.{ℕ, ◌*◌, ◌≡◌, refl, none, some}
use scalping.Prelude.Int.{pos}
use scalping.Float.{◌≼◌, ◌⊗◌}
use scalping.Float.Fixed.{Fixed, fixed_float, Fixed-IsOrdered, Fixed-IsRounded, Fixed-IsNumber}
use scalping.Market.{buy}
use scalping.Risk.Capital.{
  CapitalInput, min_sl_atr_mult, max_sl_atr_mult, raw_sl, clamp, clamped_distance, calc_smart_sl,
  calc_lot_size, take_profit_of, calc_trade_parameters,
}
use scalping.Risk.Capital.Stop.{against, stop_loss_bounds}

abbrev dollars : ℕ → Fixed
dollars n = pos (n * 10000)

abbrev setup : CapitalInput Fixed
setup = record {
  direction = buy;
  entry_price = dollars 2000;
  atr = dollars 4;
  account_balance = dollars 1000;
  risk_percent = dollars 1;
  take_profit_rr = dollars 2;
  take_profit_level = none;
  order_block_top = none;
  order_block_bottom = some (dollars 1990);
  swing_high = none;
  swing_low = some (dollars 1994);
  resistance_level = none;
  support_level = some (dollars 2001);
}

-- The stop goes a quarter of an ATR under the nearer level, and the target twice as far up.
setup_levels :
    let out = calc_trade_parameters setup in
    (out.stop_loss ≡ dollars 1993) × (out.take_profit ≡ dollars 2014)
unfolding calc_trade_parameters calc_smart_sl clamped_distance clamp raw_sl take_profit_of
setup_levels = (refl, refl)

setup_lots : (calc_trade_parameters setup).lot_size ≡ pos 142
unfolding calc_trade_parameters calc_smart_sl clamped_distance clamp raw_sl calc_lot_size
setup_lots = refl

stop_loss_bounds_example :
    (against buy (dollars 2000) (dollars 4 ⊗ max_sl_atr_mult)
      ≼ (calc_trade_parameters setup).stop_loss)
    × ((calc_trade_parameters setup).stop_loss
        ≼ against buy (dollars 2000) (dollars 4 ⊗ min_sl_atr_mult))
stop_loss_bounds_example =
    stop_loss_bounds Fixed-IsOrdered Fixed-IsRounded setup refl
      (Fixed-IsNumber (calc_trade_parameters setup).stop_loss)
      (Fixed-IsNumber (against buy (dollars 2000) (dollars 4 ⊗ min_sl_atr_mult)))
      (Fixed-IsNumber (against buy (dollars 2000) (dollars 4 ⊗ max_sl_atr_mult)))
