-- ===== src/Signals/Smc.antt =====
-- live_trading/signals/smc_engine.py: its configuration, candle helpers and swing points. A swing point
-- carries the high or low that the code looks up by its index.
use scalping.Prelude.{
  ℕ, zero, suc, ◌+◌, ◌-◌, Bool, true, false, ◌&&◌, ◌||◌, Option, none, some, List, [], ◌∷◌, length,
  ◌==◌, if◌then◌else◌,
}
use scalping.Float.{Float, ◌⊖◌, ◌⊘◌, ◌<?◌, nought}
use scalping.Market.{Candle}
pub mod Swings
pub mod Structure
pub mod Blocks
pub mod Gaps
pub mod Sweeps
pub mod Levels
pub mod Score
pub mod Analyze
mod Tests

-- `SmcConfig`, and `CFG_M5` of it.
pub record SmcConfig {ℓ} (W : Type ℓ) : Type ℓ where
  pub swing_lookback : ℕ
  pub fvg_min_size : W
  pub equal_level_tolerance : W
  pub liquidity_sweep_min : W
  pub min_sweep_close_margin : W
  pub near_ob_threshold : W
  pub near_fvg_threshold : W
  pub min_ob_body_size : W
  pub min_ob_body_ratio : W
  pub min_break_distance : W
  pub min_bos_body_ratio : W
  pub max_order_blocks : ℕ
  pub max_fvgs : ℕ
  pub max_bos : ℕ
  pub max_choch : ℕ
  pub max_sweeps : ℕ

pub record Swing {ℓ} (W : Type ℓ) : Type ℓ where
  pub bar_index : ℕ
  pub level : W

module _ {ℓ} {A : Type ℓ} where
  abbrev pub get_elem? : List A → ℕ → Option A
  get_elem? [] i = none
  get_elem? (x ∷ xs) zero = some x
  get_elem? (x ∷ xs) (suc i) = get_elem? xs i

abbrev pub member : ℕ → List ℕ → Bool
member k [] = false
member k (x ∷ xs) = (x == k) || member k xs

module _ {ℓ} {W : Type ℓ} where
  -- The test of the value of the candle at an index. Python raises where there is none.
  abbrev pub at_bar : (Candle W → W) → List (Candle W) → ℕ → (W → Bool) → Bool
  at_bar val cs i p = elim (get_elem? cs i) [ none ↦ false | some c ↦ p (val c) ]

  -- `all(...)` over the j candles on either side: each value lies behind the level.
  unfoldable pub stands_out :
      (behind : W → W → Bool) (val : Candle W → W)
      → List (Candle W)
      → (i : ℕ) (level : W) (j : ℕ) → Bool
  stands_out behind val cs i level zero = true
  stands_out behind val cs i level (suc j) =
      (at_bar val cs (i - suc j) (λ x. behind x level)
        && at_bar val cs (i + suc j) (λ x. behind x level))
      && stands_out behind val cs i level j

  -- `for i in range(...)`, over n indices from i.
  unfoldable pub swings_from :
      (behind : W → W → Bool) (val : Candle W → W)
      → List (Candle W)
      → (lookback i n : ℕ) → List (Swing W)
  swings_from behind val cs lookback i zero = []
  swings_from behind val cs lookback i (suc n) =
      let rest = swings_from behind val cs lookback (i + 1) n in
      elim (get_elem? cs i) [
        | none ↦ rest
        | some c ↦
            if stands_out behind val cs i (val c) lookback
            then record { bar_index = i; level = val c } ∷ rest
            else rest
      ]

module _ {ℓ} {W : Type ℓ} ⦃f : Float W⦄ where
  abbrev pub cfg_m5 : SmcConfig W
  cfg_m5 = record {
    swing_lookback = 5;
    fvg_min_size = f.dec 10 2;
    equal_level_tolerance = f.dec 15 2;
    liquidity_sweep_min = f.dec 15 2;
    min_sweep_close_margin = f.dec 10 2;
    near_ob_threshold = f.dec 50 2;
    near_fvg_threshold = f.dec 30 2;
    min_ob_body_size = f.dec 15 2;
    min_ob_body_ratio = f.dec 30 2;
    min_break_distance = f.dec 20 2;
    min_bos_body_ratio = f.dec 35 2;
    max_order_blocks = 6;
    max_fvgs = 6;
    max_bos = 5;
    max_choch = 3;
    max_sweeps = 5;
  }

  unfoldable pub candle_body : Candle W → W
  candle_body c = f.abs (c.close ⊖ c.open_price)

  abbrev candle_range : Candle W → W
  candle_range c = c.high ⊖ c.low

  unfoldable pub body_ratio : Candle W → W
  unfolding candle_body
  body_ratio c = if nought <? candle_range c then candle_body c ⊘ candle_range c else nought

  unfoldable pub detect_swing_highs : List (Candle W) → (lookback : ℕ) → List (Swing W)
  detect_swing_highs cs lookback =
      swings_from (λ x h. x <? h) (λ c. c.high) cs lookback lookback
        (length cs - lookback - lookback)

  unfoldable pub detect_swing_lows : List (Candle W) → (lookback : ℕ) → List (Swing W)
  detect_swing_lows cs lookback =
      swings_from (λ x l. l <? x) (λ c. c.low) cs lookback lookback
        (length cs - lookback - lookback)
