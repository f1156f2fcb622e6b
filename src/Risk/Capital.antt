-- ===== src/Risk/Capital.antt =====
-- live_trading/risk/capital_manager.py: stop, target and lot size of a trade.
use scalping.Prelude.{
  ℕ, Bool, true, false, ◌&&◌, ◌||◌, Option, none, some, List, [], ◌∷◌, ◌++◌, if◌then◌else◌,
}
use scalping.Float.{
  Float, ◌⊕◌, ◌⊖◌, ◌⊗◌, ◌⊘◌, ◌<?◌, ◌≤?◌, nought, max_of, min_of, max_list, min_list,
}
use scalping.Market.{Direction, buy, sell, neutral, is_buy, is_sell}
pub mod Stop
pub mod Lots
mod Tests

pub record CapitalInput {ℓ} (W : Type ℓ) : Type ℓ where
  pub direction : Direction
  pub entry_price : W
  pub atr : W
  pub account_balance : W
  pub risk_percent : W
  pub take_profit_rr : W
  pub take_profit_level : Option W
  pub order_block_top : Option W
  pub order_block_bottom : Option W
  pub swing_high : Option W
  pub swing_low : Option W
  pub resistance_level : Option W
  pub support_level : Option W

pub record CapitalOutput {ℓ} (W : Type ℓ) : Type ℓ where
  pub entry_price : W
  pub stop_loss : W
  pub take_profit : W
  pub risk_reward_ratio : W
  pub trailing_stop_distance : W
  pub trailing_activation_at : W
  pub break_even_at : W
  pub break_even_sl : W
  pub lot_size : W
  pub risk_amount : W
  pub sl_distance_usd : W
  pub sl_distance_pips : W

module _ {ℓ} {W : Type ℓ} ⦃f : Float W⦄ where
  -- The constants of the module.
  abbrev pub atr_buffer_mult : W
  atr_buffer_mult = f.dec 25 2

  abbrev pub min_sl_atr_mult : W
  min_sl_atr_mult = f.dec 50 2

  abbrev pub max_sl_atr_mult : W
  max_sl_atr_mult = f.dec 300 2

  abbrev pub lot_dollar_per_unit : W
  lot_dollar_per_unit = f.dec 100 0

  abbrev pub min_lot : W
  min_lot = f.dec 1 2

  abbrev pub max_lot : W
  max_lot = f.dec 5000 2

  pub clamp : (val lo hi : W) → W
  unfolding max_of min_of
  clamp val lo hi = max_of lo (min_of hi val)

  -- A level below the entry, or above it, is a candidate.
  abbrev below : W → Option W → List W
  below entry none = []
  below entry (some x) = if x <? entry then x ∷ [] else []

  abbrev above : W → Option W → List W
  above entry none = []
  above entry (some x) = if entry <? x then x ∷ [] else []

  supports : CapitalInput W → List W
  supports i =
      below i.entry_price i.order_block_bottom
      ++ (below i.entry_price i.swing_low ++ below i.entry_price i.support_level)

  resistances : CapitalInput W → List W
  resistances i =
      above i.entry_price i.order_block_top
      ++ (above i.entry_price i.swing_high ++ above i.entry_price i.resistance_level)

  -- `raw_sl` of `_calc_smart_sl`, from the nearest level.
  raw_buy_sl : (entry buffer : W) → List W → Option W
  unfolding max_list
  raw_buy_sl entry buffer [] = none
  raw_buy_sl entry buffer (x ∷ xs) = some (entry ⊖ (entry ⊖ max_list x xs ⊕ buffer))

  raw_sell_sl : (entry buffer : W) → List W → Option W
  unfolding min_list
  raw_sell_sl entry buffer [] = none
  raw_sell_sl entry buffer (x ∷ xs) = some (entry ⊕ (min_list x xs ⊖ entry ⊕ buffer))

  raw_sl : CapitalInput W → Option W
  unfolding supports resistances raw_buy_sl raw_sell_sl
  raw_sl i =
      if is_buy i.direction
      then raw_buy_sl i.entry_price (i.atr ⊗ atr_buffer_mult) (supports i)
      else raw_sell_sl i.entry_price (i.atr ⊗ atr_buffer_mult) (resistances i)

  sl_dist : (entry fallback : W) → Option W → W
  sl_dist entry fallback none = fallback
  sl_dist entry fallback (some raw) = f.abs (entry ⊖ raw)

  -- The distance that `_calc_smart_sl` takes off the entry.
  pub clamped_distance : CapitalInput W → W
  unfolding sl_dist
  clamped_distance i =
      clamp (sl_dist i.entry_price (i.atr ⊗ f.dec 15 1) (raw_sl i)) (i.atr ⊗ min_sl_atr_mult)
        (i.atr ⊗ max_sl_atr_mult)

  pub calc_smart_sl : CapitalInput W → W
  calc_smart_sl i =
      f.round
        (if is_buy i.direction
          then i.entry_price ⊖ clamped_distance i
          else i.entry_price ⊕ clamped_distance i)
        2

  -- The lot size and the amount at risk.
  pub calc_lot_size : (sl_dist_usd balance risk_pct : W) → W × W
  calc_lot_size dist balance risk_pct =
      if dist ≤? nought
      then (min_lot, nought)
      else (let risk_amount = balance ⊗ risk_pct ⊘ f.dec 100 0 in
          let raw_lot = risk_amount ⊘ (dist ⊗ lot_dollar_per_unit) in
          let lot_size = f.round (clamp raw_lot min_lot max_lot) 4 in
          (lot_size, f.round (lot_size ⊗ dist ⊗ lot_dollar_per_unit) 2))

  -- A target given by the range counts where it is on the trade's side of the entry.
  abbrev range_target : Direction → W → Option W → Option W
  range_target d entry none = none
  range_target d entry (some level) =
      if is_buy d && entry <? level || is_sell d && level <? entry then some level else none

  -- The target and its distance, from the range's target if it counts.
  target_at : CapitalInput W → (sl_dist : W) → Option W → W × W
  target_at i dist (some level) = (f.round level 2, f.abs (f.round level 2 ⊖ i.entry_price))
  target_at i dist none =
      let tp_dist = dist ⊗ i.take_profit_rr in
      (
        f.round (if is_buy i.direction then i.entry_price ⊕ tp_dist else i.entry_price ⊖ tp_dist) 2,
        tp_dist,
      )

  take_profit_of : CapitalInput W → (sl_dist : W) → W × W
  unfolding target_at
  take_profit_of i dist =
      target_at i dist (range_target i.direction i.entry_price i.take_profit_level)

  unfoldable pub calc_trade_parameters : CapitalInput W → CapitalOutput W
  unfolding take_profit_of
  calc_trade_parameters i =
      let entry = i.entry_price in
      let sl = calc_smart_sl i in
      let dist = f.round (f.abs (entry ⊖ sl)) 2 in
      let target = take_profit_of i dist in
      let lots = calc_lot_size dist i.account_balance i.risk_percent in
      let be_dist = dist ⊗ f.dec 10 1 in
      let be_at = f.round (if is_buy i.direction then entry ⊕ be_dist else entry ⊖ be_dist) 2 in
      record {
        entry_price = f.round entry 2;
        stop_loss = sl;
        take_profit = target.0;
        risk_reward_ratio = if nought <? dist then f.round (target.1 ⊘ dist) 2 else nought;
        trailing_stop_distance = f.round (dist ⊗ f.dec 5 1) 2;
        trailing_activation_at = be_at;
        break_even_at = be_at;
        break_even_sl = entry;
        lot_size = lots.0;
        risk_amount = lots.1;
        sl_distance_usd = dist;
        sl_distance_pips = f.round (dist ⊗ f.dec 100 0) 2;
      }
