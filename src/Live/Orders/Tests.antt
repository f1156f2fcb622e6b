-- ===== src/Live/Orders/Tests.antt =====
-- A bar that the decision engine decides (live_trading/trading/live_loop.py).
use scalping.Float.Fixed.{Fixed, fixed_float, Fixed-IsOrdered, Fixed-IsRounded, Fixed-IsNumber}
use scalping.Prelude.{refl, Option, none, some}
use scalping.Signals.Samples.{analysis, rules}
use scalping.Live.Bar.{Order}
use scalping.Live.Gates.{on_new_bar}
use scalping.Live.Orders.{decided}
use scalping.Live.Orders.Safe.{AreNumbers, IsSafe, on_new_bar-IsSafe}
use scalping.Live.Samples.{engine, settings, bar}

fixed_numbers : (o : Option (Order Fixed)) → AreNumbers o
fixed_numbers none = tt
fixed_numbers (some o) = (Fixed-IsNumber o.sl, Fixed-IsNumber o.tp)

on_new_bar-IsSafe_example :
    IsSafe
      (fixed_float.round analysis.close 2)
      (on_new_bar settings (decided analysis rules bar) engine).sent
on_new_bar-IsSafe_example =
    on_new_bar-IsSafe Fixed-IsOrdered Fixed-IsRounded settings analysis rules bar engine refl refl
      refl (fixed_numbers (on_new_bar settings (decided analysis rules bar) engine).sent)
