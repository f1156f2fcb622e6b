-- ===== src/Mt5/Executor.antt =====
-- live_trading/mt5/executor.py: orders, closes and changes of stops, as requests to the bridge. What the
-- bridge answers is an argument; a function returns the request that it sends, if any, and its result.
use scalping.Prelude.{
  ℕ, Bool, true, false, not, ◌&&◌, ◌||◌, Option, none, some, is_some, ◌==◌, if◌then◌else◌,
}
use scalping.Float.{Float, ◌⊕◌, ◌⊖◌, ◌⊗◌, ◌⊘◌, ◌<?◌, ◌≤?◌, nought, max_of, min_of}
use scalping.Market.{Direction, is_buy, is_neutral}
pub mod Sent
mod Tests

-- An exception of the call, or a status with what the code reads of the document.
pub data Answer : Type 0 where
  raised : Answer
  answered : (status : ℕ) (is_error : Bool) (ticket : Option ℕ) → Answer

pub data Message : Type 0 where
  not_connected invalid_direction invalid_lot invalid_prices : Message
  bridge_error unexpected_response raised_error done : Message

pub record TradeResult : Type 0 where
  pub success : Bool
  pub position_id : Option ℕ
  pub message : Message

pub record Order {ℓ} (W : Type ℓ) : Type ℓ where
  pub operation : ℕ
  pub volume : W
  pub stoploss : W
  pub takeprofit : W

pub record Change {ℓ} (W : Type ℓ) : Type ℓ where
  pub ticket : ℕ
  pub stoploss : W
  pub takeprofit : W

abbrev failed : Message → TradeResult
failed m = record { success = false; position_id = none; message = m }

abbrev succeeded : ℕ → TradeResult
succeeded t = record { success = true; position_id = some t; message = done }

-- `OrderSendSafe`: a ticket with status 200.
read_order : Answer → TradeResult
read_order raised = failed raised_error
read_order (answered s true t) = failed bridge_error
read_order (answered s false none) = failed unexpected_response
read_order (answered s false (some t)) =
    if s == 200 then succeeded t else failed unexpected_response

-- `OrderCloseSafe` and `OrderModifySafe`: status 200.
read_change : (position_id : ℕ) → Answer → TradeResult
read_change p raised = failed raised_error
read_change p (answered s true t) = failed bridge_error
read_change p (answered s false t) = if s == 200 then succeeded p else failed unexpected_response

module _ {ℓ} {W : Type ℓ} ⦃f : Float W⦄ where
  -- `none` is a ValueError. Lots so large (above 10 ^ 306) that the quotient is infinite, for which
  -- Python's `round` raises OverflowError, are left out.
  pub normalise_lot : (lot vol_min vol_step vol_max : W) → Option W
  unfolding max_of min_of
  normalise_lot lot lo step hi =
      let steps = f.round ((lot ⊖ lo) ⊘ step) 0 in
      let result = lo ⊕ steps ⊗ step in
      if not (f.is_finite lot) || (lot ≤? nought)
      then none
      else if (step ≤? nought) || (lo ≤? nought) || (hi <? lo)
      then none
      else some (max_of lo (min_of hi (f.round result 4)))

  -- The default limits: 0.01, 0.01 and 500.00.
  abbrev default_lot : (lot : W) → Option W
  default_lot lot = normalise_lot lot (f.dec 1 2) (f.dec 1 2) (f.dec 50000 2)

  abbrev is_price : W → Bool
  is_price x = f.is_finite x && (nought <? x)

  abbrev order_of : Direction → (lot sl tp : W) → Order W
  order_of d lot sl tp = record {
    operation = if is_buy d then 0 else 1;
    volume = lot;
    stoploss = f.round sl 2;
    takeprofit = f.round tp 2;
  }

  -- The order of a lot that is normalised.
  send_order : Direction → (lot : Option W) (sl tp : W) → Answer → Option (Order W) × TradeResult
  unfolding read_order
  send_order d none sl tp a = (none, failed invalid_lot)
  send_order d (some lot) sl tp a =
      if not (is_price sl && is_price tp)
      then (none, failed invalid_prices)
      else (some (order_of d lot sl tp), read_order a)

  -- A direction other than "BUY" and "SELL" is neutral.
  unfoldable pub place_market_order :
      (connected : Bool)
      → Direction
      → (lot_size sl tp : W) → Answer
      → Option (Order W) × TradeResult
  unfolding send_order
  place_market_order connected d lot sl tp a =
      if not connected
      then (none, failed not_connected)
      else if is_neutral d
      then (none, failed invalid_direction)
      else send_order d (default_lot lot) sl tp a

  -- The ticket that the text of an id spells, `none` where it spells no number.
  send_change : (position_id : Option ℕ) (sl tp : W) → Answer → Option (Change W) × TradeResult
  unfolding read_change
  send_change none sl tp a = (none, failed raised_error)
  send_change (some p) sl tp a = (
    some (record { ticket = p; stoploss = f.round sl 2; takeprofit = f.round tp 2 }),
    read_change p a,
  )

  pub modify_position :
      (connected : Bool) (position_id : Option ℕ) (sl tp : W)
      → Answer
      → Option (Change W) × TradeResult
  unfolding send_change
  modify_position connected p sl tp a =
      if not connected then (none, failed not_connected) else send_change p sl tp a

-- The ticket to close.
send_close : (position_id : Option ℕ) → Answer → Option ℕ × TradeResult
unfolding read_change
send_close none a = (none, failed raised_error)
send_close (some p) a = (some p, read_change p a)

pub close_position : (connected : Bool) (position_id : Option ℕ) → Answer → Option ℕ × TradeResult
unfolding send_close
close_position connected p a =
    if not connected then (none, failed not_connected) else send_close p a
