-- ===== src/Live/Upkeep/Moves.antt =====
-- What a pass of `_manage_trailing_stop` does to stops and baselines
-- (live_trading/trading/live_loop.py).
use scalping.Float.{Float}
use scalping.Risk.Trailing.{NoWorse}
use scalping.Live.Upkeep.{Move, Trailing}

module _ {ℓ} {W : Type ℓ} ⦃f : Float W⦄ where
  -- The new stop is no worse for the trade than the old one.
  abbrev pub IsRatchet : Move W → Type 0
  IsRatchet m = NoWorse m.direction m.old_sl m.new_sl
