-- ===== src/Risk/Trailing/Gap.antt =====
-- How close to the price the staircase may place a stop (live_trading/risk/trailing_stop.py).
use scalping.Prelude.{◌≡◌, true, some, arith}
use scalping.Float.{Float, ◌<?◌, nought, IsNumber}
use scalping.Float.Laws.{IsOrdered, IsRounded, max_of_bounds, min_of_bounds}
use scalping.Market.{Direction, buy, sell, neutral}
use scalping.Risk.Trailing.{
  TrailingConfig, NoWorse, gap_limit, stair_level, gap_floor, compute_staircase_sl,
}

module _ {ℓ} {W : Type ℓ} ⦃f : Float W⦄ (laws : IsOrdered W) (rounding : IsRounded W) where
  open rounding use {round_mono}

  gap_floor-NoWorse :
      (d : Direction) (candidate price atr : W) (cfg : TrailingConfig W)
      → IsNumber candidate
      → IsNumber (gap_limit d price atr cfg)
      → (nought <? atr) ≡ true
      → NoWorse d (gap_floor d candidate price atr cfg) (gap_limit d price atr cfg)
        × NoWorse d (gap_floor d candidate price atr cfg) candidate
  unfolding gap_floor
  gap_floor-NoWorse buy c price atr cfg num far h =
      let limit = gap_limit buy price atr cfg in ground (arith, min_of_bounds laws c limit num far)
  gap_floor-NoWorse sell c price atr cfg num far h =
      let limit = gap_limit sell price atr cfg in ground (arith, max_of_bounds laws c limit num far)
  gap_floor-NoWorse neutral c price atr cfg num far h =
      let limit = gap_limit neutral price atr cfg in
      ground (arith, max_of_bounds laws c limit num far)

  round-NoWorse : (d : Direction) (x y : W) → NoWorse d x y → NoWorse d (f.round x 2) (f.round y 2)
  round-NoWorse buy x y h = round_mono x y 2 h
  round-NoWorse sell x y h = round_mono y x 2 h
  round-NoWorse neutral x y h = round_mono y x 2 h

  -- Where an ATR is known and neither the gap's limit nor the staircase's level is NaN, a stop that the staircase proposes for a purchase is at most the price
  -- less the gap and at most the staircase's own level, as prices are rounded; for a sale it is at
  -- least the price plus the gap and at least that level.
  pub compute_staircase_sl_gap :
      (d : Direction) (entry risk price atr : W) (cfg : TrailingConfig W) {sl : W}
      → IsNumber (stair_level d entry risk price cfg)
      → IsNumber (gap_limit d price atr cfg)
      → (nought <? atr) ≡ true
      → compute_staircase_sl d entry risk price atr cfg ≡ some sl
      → NoWorse d sl (f.round (gap_limit d price atr cfg) 2)
        × NoWorse d sl (f.round (stair_level d entry risk price cfg) 2)
  unfolding compute_staircase_sl
  compute_staircase_sl_gap d entry risk price atr cfg {sl} num far h e =
      let level = stair_level d entry risk price cfg in
      let (p, q) = gap_floor-NoWorse d level price atr cfg num far h in
      let placed : sl ≡ f.round (gap_floor d level price atr cfg) 2 = ground arith in
      rw placed (round-NoWorse d _ _ p, round-NoWorse d _ _ q)
