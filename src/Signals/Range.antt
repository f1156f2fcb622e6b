-- ===== src/Signals/Range.antt =====
-- live_trading/signals/range_strategy.py: the gate of range entries.
use scalping.Prelude.{
  ℕ, suc, ◌+◌, ◌-◌, Bool, true, false, not, ◌&&◌, ◌||◌, Option, none, some, List, [], ◌∷◌, map, any,
  but_last, last_n, length, get_last?, leb, ltb, if◌then◌else◌,
}
use scalping.Float.{Float, ◌⊕◌, ◌⊖◌, ◌⊗◌, ◌⊘◌, ◌≤?◌, nought, max_list, min_list, sum_from}
use scalping.Market.{
  Candle, Direction, buy, sell, neutral, is_buy, is_neutral, same_trend, trend_of,
}
use scalping.Signals.Indicators.{true_ranges}
use scalping.Signals.Smc.Sweeps.{Sweep}
pub mod Context
pub mod Closed
mod Tests

-- `RangeLocation`: "SUPPORT", "RESISTANCE", "MIDDLE" or "UNKNOWN". The code never says "OUTSIDE".
pub data Location : Type 0 where
  at_support at_resistance middle unknown : Location

-- The candle patterns of `PriceActionResult` that count as a reversal.
pub record Reversals : Type 0 where
  pub bullish_engulf : Bool
  pub bullish_pin_bar : Bool
  pub strong_bullish : Bool
  pub bearish_engulf : Bool
  pub bearish_pin_bar : Bool
  pub strong_bearish : Bool

-- `RangeContext`, less its reason.
pub record RangeEntry {ℓ} (W : Type ℓ) : Type ℓ where
  pub valid : Bool
  pub direction : Direction
  pub support : W
  pub resistance : W
  pub atr : W
  pub edge_distance : W
  pub location : Location
  pub liquidity_sweep : Bool
  pub reversal_candle : Bool
  pub confirmation_count : ℕ

-- The arguments of a call but the candles, the direction and the engines' results.
pub record RangeRules {ℓ} (W : Type ℓ) : Type ℓ where
  pub min_confirmations : ℕ
  pub lookback : ℕ
  pub edge_atr_distance : W
  pub strict_filters : Bool

abbrev pub is_reversal : Reversals → Direction → Bool
is_reversal pa d =
    if is_buy d
    then pa.bullish_engulf || pa.bullish_pin_bar || pa.strong_bullish
    else pa.bearish_engulf || pa.bearish_pin_bar || pa.strong_bearish

-- The edge that the code wants for the direction.
abbrev pub is_correct_edge : Direction → Location → Bool
is_correct_edge buy at_support = true
is_correct_edge sell at_resistance = true
is_correct_edge _ _ = false

abbrev pub locate : Direction → (near_support near_resistance : Bool) → Location
locate d s r =
    if s && not r
    then at_support
    else if r && not s
    then at_resistance
    else if s && r
    then (if is_buy d then at_support else at_resistance)
    else middle

module _ {ℓ} {W : Type ℓ} where
  -- A sweep on the last bar or the one before it.
  pub latest_sweep : List (Sweep W) → Direction → (last_bar : ℕ) → Bool
  latest_sweep sweeps d last_bar =
      any (λ s. same_trend s.type (trend_of d) && leb (last_bar - 1) s.bar_index) sweeps

module _ {ℓ} {W : Type ℓ} ⦃f : Float W⦄ where
  mean : List W → W
  unfolding sum_from
  mean [] = nought
  mean (x ∷ xs) = sum_from nought (x ∷ xs) ⊘ f.dec (length (x ∷ xs)) 0

  -- `_atr`: the plain average of the last true ranges.
  atr_of : List (Candle W) → (period : ℕ) → W
  unfolding mean
  atr_of candles period = mean (last_n period (true_ranges candles))

  abbrev pub neutral_entry : (confirmation_count : ℕ) → RangeEntry W
  neutral_entry n = record {
    valid = false;
    direction = neutral;
    support = nought;
    resistance = nought;
    atr = nought;
    edge_distance = nought;
    location = unknown;
    liquidity_sweep = false;
    reversal_candle = false;
    confirmation_count = n;
  }

  -- The entry at given edges.
  entry_at :
      RangeRules W
      → Direction
      → (signal : Candle W) → (support resistance atr : W)
      → (sweep reversal : Bool) (confirmation_count : ℕ) → RangeEntry W
  entry_at r d signal support resistance atr sweep reversal n =
      let edge = atr ⊗ r.edge_atr_distance in
      let location = locate d (signal.low ≤? support ⊕ edge) (resistance ⊖ edge ≤? signal.high) in
      let valid =
        if not r.strict_filters
        then true
        else is_correct_edge d location && sweep && reversal && leb r.min_confirmations n in
      record {
        valid = valid;
        direction = if valid then d else neutral;
        support = f.round support 2;
        resistance = f.round resistance 2;
        atr = f.round atr 5;
        edge_distance = f.round edge 5;
        location = location;
        liquidity_sweep = sweep;
        reversal_candle = reversal;
        confirmation_count = n;
      }

  -- The candles before the last one make the range. Python raises for an empty history.
  entry_of :
      RangeRules W
      → Direction
      → List (Candle W)
      → (history : List (Candle W)) → Option (Candle W)
      → (sweep reversal : Bool) (confirmation_count : ℕ) → Option (RangeEntry W)
  unfolding min_list max_list atr_of entry_at
  entry_of r d cs [] signal sweep reversal n = none
  entry_of r d cs (c ∷ history) none sweep reversal n = none
  entry_of r d cs (c ∷ history) (some signal) sweep reversal n =
      let support = min_list c.low (map (λ x. x.low) history) in
      let resistance = max_list c.high (map (λ x. x.high) history) in
      let atr = atr_of cs 14 in
      if (atr ≤? nought) || (resistance ≤? support)
      then some (neutral_entry n)
      else some (entry_at r d signal support resistance atr sweep reversal n)

  pub evaluate_range_entry :
      List (Candle W)
      → Direction
      → List (Sweep W)
      → Reversals
      → (confirmation_count : ℕ) → RangeRules W
      → Option (RangeEntry W)
  evaluate_range_entry cs d sweeps pa n r =
      if is_neutral d || ltb (length cs) (r.lookback + 1)
      then some (neutral_entry n)
      else entry_of r d cs (but_last (last_n (r.lookback + 1) cs)) (get_last? cs)
          (latest_sweep sweeps d (length cs - 1)) (is_reversal pa d) n
