-- ===== src/Mt5/Executor/Tests.antt =====
-- Runs of live_trading/mt5/executor.py.
use scalping.Prelude.{◌≡◌, refl, true, false, none, some}
use scalping.Prelude.Int.{pos}
use scalping.Float.{max_of, min_of}
use scalping.Float.Fixed.{fixed_float, Fixed-IsOrdered, Fixed-IsRounded}
use scalping.Market.{buy}
use scalping.Mt5.Executor.{
  answered, normalise_lot, send_change, read_order, read_change, send_close, place_market_order,
  modify_position, close_position, bridge_error,
}
use scalping.Mt5.Executor.Sent.{IsPlaced, place_market_order-IsPlaced}
use scalping.Signals.Samples.{dollars}

-- 0.23 lots are on the step; 600 lots are cut to the maximum.
to_the_step : normalise_lot (pos 2300) (pos 100) (pos 100) (dollars 500) ≡ some (pos 2300)
unfolding normalise_lot max_of min_of
to_the_step = refl

no_lot : normalise_lot (pos 0) (pos 100) (pos 100) (dollars 500) ≡ none
unfolding normalise_lot
no_lot = refl

no_status : (read_order (answered 500 false (some 7))).success ≡ false
unfolding read_order
no_status = refl

closes : (close_position true (some 7) (answered 200 false none)).1.success ≡ true
unfolding close_position send_close read_change
closes = refl

refuses_change :
    (modify_position true (some 7) (dollars 1990) (dollars 2010) (answered 200 true none)).1.message
    ≡ bridge_error
unfolding modify_position send_change read_change
refuses_change = refl

place_market_order-IsPlaced_example : IsPlaced buy (answered 200 false (some 7)) (
    place_market_order true buy
      (pos 2340)
      (dollars 1990)
      (dollars 2010)
      (answered 200 false (some 7)))
place_market_order-IsPlaced_example =
    place_market_order-IsPlaced Fixed-IsOrdered Fixed-IsRounded true buy (pos 2340) (dollars 1990)
      (dollars 2010) (answered 200 false (some 7))

cut_to_maximum : normalise_lot (dollars 600) (pos 100) (pos 100) (dollars 500) ≡ some (dollars 500)
unfolding normalise_lot max_of min_of
cut_to_maximum = refl
