-- ===== src/Live/Bar.antt =====
-- live_trading/trading/live_loop.py: what one call of `_on_new_bar` reads. What the bridge, the
-- decision engine and the clock answer during the call is the record `Bar`.
use scalping.Prelude.{
  ℕ, suc, ◌+◌, ◌*◌, ◌/◌, Bool, true, false, not, ◌&&◌, ◌||◌, Option, none, some, List, [], ◌∷◌, ltb,
  ◌==◌, is_some, if◌then◌else◌,
}
use scalping.Market.{
  Direction, same_direction, Regime, range, accumulation, distribution, high_volatility, is_range,
}
use scalping.Risk.Capital.{CapitalOutput}
use scalping.Signals.Mtf.{MtfBias, HtfAnalysis, Entry, compute_mtf_bias}
use scalping.Mt5.Positions.{Ticket, Row, Known}
use scalping.Live.Engine.{Account, LogRow}

-- The settings of live_trading/config.py that the gates read, and the table of recovered positions.
pub record Settings {ℓ} (W : Type ℓ) : Type ℓ where
  pub max_open_trades : ℕ
  pub max_range_trades_per_session : ℕ
  pub conf_hard_min : W
  pub option_two_min_confidence : W
  pub option_two_min_timeframes : ℕ
  pub mtf_enabled : Bool
  pub max_trade_history : ℕ
  pub recovered : Ticket → Option (Known W)

-- `DecisionResult`, as far as the gates read it.
pub record Decision {ℓ} (W : Type ℓ) : Type ℓ where
  pub allowed : Bool
  pub direction : Direction
  pub regime : Regime
  pub confidence : W
  pub trade_params : CapitalOutput W

-- The answer to `OpenedOrders`.
pub record Reply {ℓ} (W : Type ℓ) : Type ℓ where
  pub payload : Option (List (Option (Row W)))
  pub status : ℕ

-- The higher timeframe: how many candles came (`none` if the fetch raised), what
-- `validate_h1_candles` and `matches_ema` say of them, and what the engines make of them.
pub record Htf : Type 0 where
  pub candles : Option ℕ
  pub is_h1 : Bool
  pub h1_valid : Bool
  pub matches_ema : Bool
  pub analysis : Option HtfAnalysis

pub record Order {ℓ} (W : Type ℓ) : Type ℓ where
  pub direction : Direction
  pub lot_size : W
  pub sl : W
  pub tp : W

-- One call of `_on_new_bar`. `accepted` is the id of the position if the order succeeds.
pub record Bar {ℓ} (W : Type ℓ) : Type ℓ where
  pub bar_time : ℕ
  pub tf_minutes : ℕ
  pub today : ℕ
  pub now : ℕ
  pub candles : ℕ
  pub htf : Htf
  pub account : Option (Account W)
  pub retried_account : Option (Account W)
  pub positions : Reply W
  pub confirm_positions : Reply W
  pub decision : Decision W
  pub accepted : Option ℕ

-- `_RANGE_COOLDOWN_REGIMES`.
unfoldable pub in_cooldown_regimes : Regime → Bool
in_cooldown_regimes range = true
in_cooldown_regimes accumulation = true
in_cooldown_regimes distribution = true
in_cooldown_regimes high_volatility = true
in_cooldown_regimes _ = false

unfoldable pub bias_of : Option ℕ → Htf → Option MtfBias
bias_of none h = none
bias_of (some n) h =
    if ltb n 50 || (h.is_h1 && not (h.h1_valid && h.matches_ema))
    then none
    else some (compute_mtf_bias n h.analysis)

-- The bias of the higher timeframe, `none` where its data is refused.
unfoldable pub htf_bias_of : Bool → Htf → Option MtfBias
unfolding bias_of
htf_bias_of false h = none
htf_bias_of true h = bias_of h.candles h

-- A row counts for a session if it is a range trade of that date; a time that is missing or does not
-- parse does not count.
abbrev is_date : ℕ → Option (Option ℕ) → Option (Option ℕ) → Bool
is_date date (some (some t)) logged_at = t / 86400 == date
is_date date (some none) logged_at = false
is_date date none (some (some t)) = t / 86400 == date
is_date date none _ = false

abbrev is_range_row : Option Regime → Bool
is_range_row none = false
is_range_row (some r) = is_range r

module _ {ℓ} {W : Type ℓ} where
  unfoldable pub counts : ℕ → LogRow W → Bool
  counts date r = is_range_row r.regime && is_date date r.bar_time r.logged_at

  unfoldable pub range_entries : ℕ → List (LogRow W) → ℕ
  range_entries date [] = 0
  range_entries date (r ∷ rs) =
      if counts date r then suc (range_entries date rs) else range_entries date rs

  -- A trade in the same direction less than two bars ago, in a choppy regime.
  unfoldable pub in_cooldown : Bar W → Option (ℕ × Direction) → Bool
  unfolding in_cooldown_regimes
  in_cooldown b none = false
  in_cooldown b (some (t, d)) =
      same_direction d b.decision.direction
      && in_cooldown_regimes b.decision.regime
      && ltb b.bar_time (t + 120 * b.tf_minutes)

  unfoldable pub order_of : Decision W → Order W
  order_of d = record {
    direction = d.direction;
    lot_size = d.trade_params.lot_size;
    sl = d.trade_params.stop_loss;
    tp = d.trade_params.take_profit;
  }

  unfoldable pub entry_log : ℕ → Bar W → LogRow W
  entry_log position_id b = record {
    position_id = some position_id;
    action = none;
    direction = some b.decision.direction;
    entry = some b.decision.trade_params.entry_price;
    sl = some b.decision.trade_params.stop_loss;
    tp = some b.decision.trade_params.take_profit;
    lot = some b.decision.trade_params.lot_size;
    regime = some b.decision.regime;
    bar_time = some (some b.bar_time);
    logged_at = none;
    new_sl = none;
    close_time = none;
    close_reason = none;
    profit = none;
  }

  -- The arguments of `mtf_allows_trade`.
  unfoldable pub entry_of : Settings W → Bar W → Option MtfBias → Entry W
  entry_of c b bias = record {
    m5_direction = b.decision.direction;
    confidence = some b.decision.confidence;
    confirmed_timeframes = if is_some bias then 2 else 0;
    min_confidence =
        if is_range b.decision.regime then c.conf_hard_min else c.option_two_min_confidence;
    min_timeframes = c.option_two_min_timeframes;
    allow_range_regime = is_range b.decision.regime;
  }
