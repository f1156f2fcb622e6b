-- ===== src/Live/Upkeep.antt =====
-- live_trading/trading/live_loop.py: `_manage_trailing_stop`, one pass over all open positions. The
-- telemetry of each position is left out.
use scalping.Prelude.{
  ℕ, Bool, true, false, not, ◌&&◌, Option, none, some, List, [], ◌∷◌, any, if◌then◌else◌,
}
use scalping.Float.{Float}
use scalping.Market.{Direction, is_buy}
use scalping.Risk.Trailing.{TrailingConfig, Baseline, compute_staircase_sl, should_apply}
use scalping.Mt5.Positions.{Ticket, same_ticket, Row}
use scalping.Live.Engine.{trail_sl, LogRow, log_trade}
use scalping.Live.Trades.{or_baseline, restore_trail_baseline}
pub mod Moves
mod Tests

-- A change of a stop that the broker accepted.
pub record Move {ℓ} (W : Type ℓ) : Type ℓ where
  pub ticket : Ticket
  pub direction : Direction
  pub old_sl : W
  pub new_sl : W

-- `_trail_baselines` and the log, with the changes of this pass, the latest first.
pub record Trailing {ℓ} (W : Type ℓ) : Type ℓ where
  pub baselines : Ticket → Option (Baseline W)
  pub log : List (LogRow W)
  pub moves : List (Move W)

-- What a pass reads: the settings, the last ATR, the price on both sides, the clock, and which changes
-- the broker accepts.
pub record Prices {ℓ} (W : Type ℓ) : Type ℓ where
  pub cfg : TrailingConfig W
  pub atr : W
  pub bid : W
  pub ask : W
  pub now : ℕ
  pub max_trade_history : ℕ
  pub accepts : Ticket → Bool

module _ {ℓ} {W : Type ℓ} where
  abbrev pub is_live : List (Row W) → Ticket → Bool
  is_live rows t = any (λ r. same_ticket r.ticket t) rows

  -- The baselines of positions that are no longer open are dropped.
  pub drop_closed : List (Row W) → (Ticket → Option (Baseline W)) → Ticket → Option (Baseline W)
  drop_closed rows baselines t = if is_live rows t then baselines t else none

  pub set_baseline :
      Ticket → Baseline W → (Ticket → Option (Baseline W)) → Ticket → Option (Baseline W)
  set_baseline t b baselines t' = if same_ticket t t' then some b else baselines t'

  trail_row : Move W → LogRow W
  trail_row m = record {
    position_id = m.ticket;
    action = some trail_sl;
    direction = some m.direction;
    entry = none;
    sl = none;
    tp = none;
    lot = none;
    regime = none;
    bar_time = none;
    logged_at = none;
    new_sl = some m.new_sl;
    close_time = none;
    close_reason = none;
    profit = none;
  }

module _ {ℓ} {W : Type ℓ} ⦃f : Float W⦄ where
  -- The stop is sent if it is a step better, and the change is logged if the broker accepts it.
  try_move : Prices W → Row W → Direction → Option W → Trailing W → Trailing W
  unfolding trail_row
  try_move q r d none s = s
  try_move q r d (some candidate) s =
      let m : Move W = record {
        ticket = r.ticket;
        direction = d;
        old_sl = r.sl;
        new_sl = candidate;
      } in
      if should_apply d r.sl (some candidate) q.cfg.min_step_price && q.accepts r.ticket
      then record s {
        log = log_trade q.max_trade_history q.now (trail_row m) s.log;
        moves = m ∷ s.moves;
      }
      else s

  trail_from : Prices W → Row W → Option (Baseline W) → Trailing W → Trailing W
  unfolding try_move set_baseline
  trail_from q r none s = s
  trail_from q r (some b) s =
      let price = if is_buy b.direction then q.bid else q.ask in
      try_move q r b.direction
        (compute_staircase_sl b.direction b.entry b.risk_distance price q.atr q.cfg)
        (record s { baselines = set_baseline r.ticket b s.baselines })

  -- A position without a baseline that can be restored is not trailed.
  trail_position : Prices W → Row W → Trailing W → Trailing W
  unfolding trail_from
  trail_position q r s =
      trail_from q r (or_baseline (s.baselines r.ticket) (restore_trail_baseline s.log r)) s

  pub trail_positions : Prices W → List (Row W) → Trailing W → Trailing W
  unfolding trail_position
  trail_positions q [] s = s
  trail_positions q (r ∷ rs) s = trail_positions q rs (trail_position q r s)

  abbrev with_live : Option (Prices W) → List (Row W) → Trailing W → Trailing W
  with_live none rows s = s
  with_live (some q) rows s = trail_positions q rows s

  -- Without open positions every baseline is forgotten; without a quote nothing is moved.
  pub manage_trailing_stop :
      (trailing_enabled : Bool)
      → Option (List (Row W))
      → Option (Prices W)
      → Trailing W
      → Trailing W
  unfolding drop_closed trail_positions
  manage_trailing_stop false rows quote s = s
  manage_trailing_stop true none quote s = s
  manage_trailing_stop true (some rows) quote s =
      with_live quote rows (record s { baselines = drop_closed rows s.baselines })
