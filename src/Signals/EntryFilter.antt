-- ===== src/Signals/EntryFilter.antt =====
-- live_trading/signals/entry_filter.py, and the two confirmation rules of
-- live_trading/signals/decision_engine.py that feed it.
use scalping.Prelude.{ℕ, ◌+◌, Bool, true, false, not, ◌&&◌, ◌||◌, max, min, ltb, leb, if◌then◌else◌}
use scalping.Market.{
  Direction, Trend, Regime, neutral, accumulation, distribution, high_volatility, same_direction,
  is_neutral, is_range, vote_of,
}
pub mod Votes
mod Tests

pub record EntryFilterResult : Type 0 where
  pub allowed : Bool
  pub direction : Direction
  pub confirmation_count : ℕ
  pub smc : Bool
  pub trend : Bool
  pub price_action : Bool
  pub wyckoff : Bool

-- The settings of one call of `apply_entry_filter`.
pub record EntryRules : Type 0 where
  pub min_confirmations : ℕ
  pub require_price_action : Bool
  pub require_smc_price_action_wyckoff : Bool

-- The signals of the four engines.
pub record Signals : Type 0 where
  pub smc_signal : Direction
  pub ema_trend : Trend
  pub pa_signal : Direction
  pub wyckoff_signal : Direction

abbrev blocked : EntryFilterResult
blocked = record {
  allowed = false;
  direction = neutral;
  confirmation_count = 0;
  smc = false;
  trend = false;
  price_action = false;
  wyckoff = false;
}

-- What `sum` makes of a Boolean.
abbrev pub as_count : Bool → ℕ
as_count true = 1
as_count false = 0

pub apply_entry_filter : Signals → EntryRules → EntryFilterResult
apply_entry_filter s r =
    if is_neutral s.smc_signal
    then blocked
    else (let d = s.smc_signal in
        let trend_ok = same_direction (vote_of s.ema_trend) d in
        let pa_ok = same_direction s.pa_signal d in
        let wyc_ok = same_direction s.wyckoff_signal d in
        let count = 1 + as_count trend_ok + as_count pa_ok + as_count wyc_ok in
        let allowed =
          if r.require_smc_price_action_wyckoff
          then pa_ok && wyc_ok
          else leb r.min_confirmations count && (not r.require_price_action || pa_ok) in
        record {
          allowed = allowed;
          direction = if allowed then d else neutral;
          confirmation_count = count;
          smc = true;
          trend = trend_ok;
          price_action = pa_ok;
          wyckoff = wyc_ok;
        })

-- `regime in _CHOPPY_REGIMES`.
abbrev is_choppy : Regime → Bool
is_choppy accumulation = true
is_choppy distribution = true
is_choppy high_volatility = true
is_choppy _ = false

pub effective_min_confirmations :
    (base_min_confirmations : ℕ)
    → Regime
    → (counter_trend : Bool) → (range_min_confirmations : ℕ) → ℕ
effective_min_confirmations base regime counter_trend range_min =
    if is_range regime
    then (let range_floor = max base range_min in
        if counter_trend then max range_floor (min (base + 1) 4) else range_floor)
    else if counter_trend
    then min (base + 1) 4
    else if is_choppy regime
    then min (base + 1) 4
    else base

-- `_range_confirmation_gate`: whether the votes suffice for the RANGE playbook.
pub range_confirmation_gate : EntryFilterResult → (min_confirmations : ℕ) → Bool
range_confirmation_gate ef min_confirmations =
    if ltb ef.confirmation_count min_confirmations
    then false
    else if not (ef.price_action || ef.wyckoff)
    then false
    else true
