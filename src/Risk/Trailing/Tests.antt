-- ===== src/Risk/Trailing/Tests.antt =====
-- A purchase at 2000 with a stop at 1990, in fixed-point numbers.
use scalping.Prelude.{ℕ, ◌*◌, ◌≡◌, refl, true, false, none, some, List, [], ◌∷◌}
use scalping.Prelude.Int.{pos}
use scalping.Float.{◌≼◌}
use scalping.Float.Fixed.{Fixed, fixed_float, Fixed-IsOrdered, Fixed-IsRounded}
use scalping.Market.{buy}
use scalping.Risk.Trailing.{
  TrailingConfig, Baseline, Quote, compute_staircase_sl, stair_level, gap_limit, gap_floor,
  should_apply, trail, trail_all,
}
use scalping.Risk.Trailing.Ratchet.{trail_all-NoWorse}

abbrev dollars : ℕ → Fixed
dollars n = pos (n * 10000)

abbrev cfg : TrailingConfig Fixed
cfg = record {
  enabled = true;
  activation_r = pos 10000;
  step_r = pos 5000;
  lock_buffer_r = pos 1000;
  atr_gap_mult = pos 5000;
  min_step_price = pos 500;
}

abbrev long : Baseline Fixed
long = record { direction = buy; entry = dollars 2000; risk_distance = dollars 10 }

-- At 1.6 R the second stair locks 0.6 R.
second_stair :
    compute_staircase_sl buy (dollars 2000) (dollars 10) (dollars 2016) (dollars 4) cfg
    ≡ some (dollars 2006)
unfolding compute_staircase_sl stair_level gap_floor gap_limit
second_stair = refl

-- Below 1 R nothing moves, nor without a fall of the price below the last stair.
before_activation :
    compute_staircase_sl buy (dollars 2000) (dollars 10) (dollars 2009) (dollars 4) cfg ≡ none
unfolding compute_staircase_sl
before_activation = refl

abbrev prices : List (Quote Fixed)
prices =
    record { price = dollars 2016; atr = dollars 4; accepted = true }
    ∷ record { price = dollars 2011; atr = dollars 4; accepted = true }
    ∷ record { price = dollars 2030; atr = dollars 4; accepted = false }
    ∷ []

trail_prices : trail_all cfg long prices (dollars 1990) ≡ dollars 2006
unfolding trail_all trail compute_staircase_sl stair_level gap_floor should_apply gap_limit
trail_prices = refl

trail_all-NoWorse_example : dollars 1990 ≼ trail_all cfg long prices (dollars 1990)
trail_all-NoWorse_example =
    trail_all-NoWorse Fixed-IsOrdered Fixed-IsRounded cfg long prices (dollars 1990) refl refl
