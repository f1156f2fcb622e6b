-- ===== src/Live/Trades.antt =====
-- live_trading/trading/live_loop.py: how a position that is gone is settled in the log of trades
-- (`classify_close_reason`, `_apply_close_history`, `_reconcile_closed_trades`), and how the baseline of
-- a trailing stop is found again (`_restore_trail_baseline`).
use Prim.Native.String.{String}
use text.Mathlib.Text.{◌==◌ as str_eq}
use scalping.Prelude.{
  ℕ, ◌+◌, Bool, true, false, not, ◌&&◌, ◌||◌, Option, none, some, List, [], ◌∷◌, any, ltb, ◌==◌,
  is_some, or_else, if◌then◌else◌,
}
use scalping.Float.{Float, ◌⊕◌, ◌⊖◌, ◌⊗◌, ◌<?◌, ◌≤?◌, nought, max_of}
use scalping.Market.{Direction}
use scalping.Risk.Trailing.{Baseline}
use scalping.Mt5.Positions.{Ticket, same_ticket, Row, position_direction}
use scalping.Live.Engine.{Action, trail_sl, CloseReason, tp, sl, be, trailing, manual, LogRow}
pub mod Settled
mod Tests

-- A record of the broker's history, as far as it parses. `comment_words` are the lower-case words of
-- its comment.
pub record CloseHistory {ℓ} (W : Type ℓ) : Type ℓ where
  pub close_price : Option W
  pub close_time : Option ℕ
  pub profit : Option W
  pub commission : Option W
  pub swap : Option W
  pub fee : Option W
  pub comment_words : List String

abbrev has_word : String → List String → Bool
has_word w ws = any (str_eq w) ws

-- What the comment alone says.
reason_of_comment : List String → Option CloseReason
reason_of_comment ws =
    if has_word "takeprofit" ws || (has_word "take" ws && has_word "profit" ws) || has_word "tp" ws
    then some tp
    else if has_word "stoploss" ws || (has_word "stop" ws && has_word "loss" ws) || has_word "sl" ws
    then some sl
    else if has_word "breakeven" ws || (has_word "break" ws && has_word "even" ws)
    then some be
    else if has_word "trailing" ws || has_word "trail" ws
    then some trailing
    else none

module _ {ℓ} {W : Type ℓ} ⦃f : Float W⦄ where
  -- Two prices that are both known, and no further apart than the tolerance.
  near : W → Option W → Option W → Bool
  near tolerance (some x) (some y) = f.abs (x ⊖ y) ≤? tolerance
  near tolerance _ _ = false

  tolerance_of : Option W → W
  tolerance_of close_price = max_of (f.abs (or_else close_price nought) ⊗ f.dec 5 5) (f.dec 1 2)

  reason_of_price : Option W → LogRow W → Option W → CloseReason
  unfolding near tolerance_of
  reason_of_price close_price entry trailing_stop =
      let tolerance = tolerance_of close_price in
      if near tolerance close_price entry.tp
      then tp
      else if near tolerance close_price entry.sl
      then sl
      else if near tolerance close_price trailing_stop
      then (if is_some entry.sl && near tolerance trailing_stop entry.entry then be else trailing)
      else manual

  pub classify_close_reason : CloseHistory W → LogRow W → Option W → CloseReason
  unfolding reason_of_comment reason_of_price
  classify_close_reason history entry trailing_stop =
      or_else (reason_of_comment history.comment_words)
        (reason_of_price history.close_price entry trailing_stop)

  -- The stop of the last "TRAIL_SL" row of a position.
  pub last_trailing_stop : Ticket → List (LogRow W) → Option W → Option W
  last_trailing_stop t [] found = found
  last_trailing_stop t (r ∷ rs) found =
      last_trailing_stop t rs
        (if same_ticket r.position_id t && is_trail r.action then r.new_sl else found)
    where
      is_trail : Option Action → Bool
      is_trail (some trail_sl) = true
      is_trail _ = false

  net_profit : CloseHistory W → W
  net_profit h =
      or_else h.profit nought
      ⊕ or_else h.commission nought
      ⊕ or_else h.swap nought
      ⊕ or_else h.fee nought

  -- `_apply_close_history`: `none` for a record without a price or a time.
  pub apply_close_history : List (LogRow W) → LogRow W → CloseHistory W → Option (LogRow W)
  unfolding net_profit
  apply_close_history log entry h =
      if is_some h.close_price && is_some h.close_time
      then some (record entry {
        close_time = h.close_time;
        close_reason =
            some (classify_close_reason h entry (last_trailing_stop entry.position_id log none));
        profit = some (net_profit h);
      })
      else none

-- What one pass of `_reconcile_closed_trades` knows: which positions are open, the loop's clock, and the
-- broker's history of a position (`none` if it has none yet, or the request failed).
pub record Broker {ℓ} (W : Type ℓ) : Type ℓ where
  pub is_open : ℕ → Bool
  pub now : ℕ
  pub history : ℕ → Option (CloseHistory W)

-- `_close_history_checked_at`, 0 for a position that was never asked for.
abbrev pub CheckedAt : Type 0
CheckedAt = ℕ → ℕ

abbrev set_checked : ℕ → ℕ → CheckedAt → CheckedAt
set_checked id now checked id' = if id == id' then now else checked id'

abbrev pub has_ticket : ℕ → List ℕ → Bool
has_ticket id ids = any (λ x. x == id) ids

mark_seen : Option ℕ → List ℕ → List ℕ
mark_seen none seen = seen
mark_seen (some id) seen = id ∷ seen

module _ {ℓ} {W : Type ℓ} where
  -- An entry that is not settled, whose position is not open: its ticket, unless an earlier entry has it.
  pub candidate : Broker W → List ℕ → LogRow W → Option ℕ
  candidate k seen r = of_ticket r.position_id
    where
      of_ticket : Option ℕ → Option ℕ
      of_ticket none = none
      of_ticket (some id) =
          if is_some r.close_time
            || not (is_some r.entry || is_some r.lot)
            || k.is_open id
            || has_ticket id seen
          then none
          else some id

module _ {ℓ} {W : Type ℓ} ⦃f : Float W⦄ where
  apply_history : List (LogRow W) → LogRow W → Option (CloseHistory W) → LogRow W
  apply_history log r none = r
  apply_history log r (some h) = or_else (apply_close_history log r h) r

  -- A candidate is asked for at most once in 60 seconds.
  abbrev is_due : Broker W → CheckedAt → ℕ → Bool
  is_due k checked id = not (ltb k.now (checked id + 60))

  settle : Broker W → List (LogRow W) → CheckedAt → Option ℕ → LogRow W → LogRow W
  unfolding apply_history
  settle k log checked none r = r
  settle k log checked (some id) r =
      if is_due k checked id then apply_history log r (k.history id) else r

  mark_checked : Broker W → Option ℕ → CheckedAt → CheckedAt
  mark_checked k none checked = checked
  mark_checked k (some id) checked =
      if is_due k checked id then set_checked id k.now checked else checked

  reconcile_rows :
      Broker W
      → List (LogRow W)
      → List ℕ
      → CheckedAt
      → List (LogRow W)
      → List (LogRow W) × CheckedAt
  unfolding settle mark_checked mark_seen
  reconcile_rows k log seen checked [] = ([], checked)
  reconcile_rows k log seen checked (r ∷ rs) =
      let id = candidate k seen r in
      let rest = reconcile_rows k log (mark_seen id seen) (mark_checked k id checked) rs in
      (settle k log checked id r ∷ rest.0, rest.1)

  -- `_reconcile_closed_trades`, when the open positions are known.
  pub reconcile_closed_trades : Broker W → CheckedAt → List (LogRow W) → List (LogRow W) × CheckedAt
  unfolding reconcile_rows
  reconcile_closed_trades k checked log = reconcile_rows k log [] checked log

  -- `_restore_trail_baseline`: the last entry of the position with an entry and a stop, or else the
  -- position itself; `none` without a risk distance.
  baseline_from : Direction → W → W → Option (Baseline W)
  baseline_from d entry stop =
      let risk = f.abs (entry ⊖ stop) in
      if nought <? risk
      then some (record { direction = d; entry = entry; risk_distance = risk })
      else none

  logged_levels : LogRow W → Ticket → Option (W × W)
  logged_levels r t = of_levels r.entry r.sl
    where
      of_levels : Option W → Option W → Option (W × W)
      of_levels (some entry) (some stop) =
          if same_ticket r.position_id t then some (entry, stop) else none
      of_levels _ _ = none

  -- The last row of the log that has the levels of the position.
  pub last_levels :
      List (LogRow W) → Ticket → Option (Direction × W × W) → Direction → Option (Direction × W × W)
  unfolding logged_levels
  last_levels [] t found d = found
  last_levels (r ∷ rs) t found d =
      last_levels rs t
        (elim (logged_levels r t) [
          | none ↦ found
          | some (entry, stop) ↦ some (or_else r.direction d, entry, stop)
        ])
        d

  from_log : Option (Direction × W × W) → Option (Baseline W)
  unfolding baseline_from
  from_log none = none
  from_log (some (d, entry, stop)) = baseline_from d entry stop

  unfoldable pub or_baseline : Option (Baseline W) → Option (Baseline W) → Option (Baseline W)
  or_baseline none fallback = fallback
  or_baseline (some b) fallback = some b

  pub restore_trail_baseline : List (LogRow W) → Row W → Option (Baseline W)
  unfolding from_log baseline_from last_levels or_baseline
  restore_trail_baseline log r =
      let d = position_direction r.type r.order_type in
      or_baseline (from_log (last_levels log r.ticket none d)) (baseline_from d r.open_price r.sl)
