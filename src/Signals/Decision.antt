-- ===== src/Signals/Decision.antt =====
-- live_trading/signals/decision_engine.py: `run_decision_engine`, from what the engines make of the
-- candles. An engine that is asked about a direction is a function of it; texts and telemetry are left
-- out.
use scalping.Prelude.{
  ℕ, suc, Bool, true, false, not, ◌&&◌, ◌||◌, Option, none, some, List, [], ◌∷◌, ◌++◌, get_last?,
  is_some, ltb, ◌==◌, if◌then◌else◌,
}
use scalping.Float.{Float, ◌<?◌, ◌≤?◌, nought}
use scalping.Market.{
  Direction, buy, sell, neutral, Trend, bullish, bearish, Regime, same_direction, same_trend,
  trend_of, vote_of, is_buy, is_neutral, is_range,
}
use scalping.Risk.Capital.{CapitalInput, CapitalOutput, calc_trade_parameters}
use scalping.Signals.EntryFilter.{
  EntryFilterResult, Signals, apply_entry_filter, effective_min_confirmations,
  range_confirmation_gate,
}
pub mod Accepted
mod Tests

-- A BOS or a CHoCH.
pub record Event {ℓ} (W : Type ℓ) : Type ℓ where
  pub type : Direction
  pub price : W
  pub bar_index : ℕ
  pub is_choch : Bool

pub record OrderBlock {ℓ} (W : Type ℓ) : Type ℓ where
  pub type : Trend
  pub high : W
  pub low : W

pub record SmcResult {ℓ} (W : Type ℓ) : Type ℓ where
  pub trend : Trend
  pub bos_signals : List (Event W)
  pub choch_signals : List (Event W)
  pub order_blocks : List (OrderBlock W)
  pub equal_highs : List W
  pub equal_lows : List W

pub record RegimeEntryRules {ℓ} (W : Type ℓ) : Type ℓ where
  pub min_confidence : W
  pub min_rr : W
  pub allow_long : Bool
  pub allow_short : Bool

pub record RangeContext {ℓ} (W : Type ℓ) : Type ℓ where
  pub valid : Bool
  pub support : W
  pub resistance : W

-- The engines' results for one series of candles.
pub record Analysis {ℓ} (W : Type ℓ) : Type ℓ where
  pub smc : SmcResult W
  pub ema_trend : Trend
  pub pa_signal : Direction
  pub wyckoff_signal : Direction
  pub regime : Regime
  pub rules : RegimeEntryRules W
  pub atr : W
  pub close : W
  pub range_entry : Direction → (confirmation_count : ℕ) → RangeContext W
  pub confidence : Direction → W
  pub quality : Direction → W → Bool
  pub fake_breakout : Direction → Bool

-- The arguments of `run_decision_engine` and the constants that it reads.
pub record EngineRules {ℓ} (W : Type ℓ) : Type ℓ where
  pub account_balance : W
  pub risk_percent : W
  pub min_confirmations : ℕ
  pub default_range_min_confirmations : ℕ
  pub require_price_action : Bool
  pub require_smc_price_action_wyckoff : Bool
  pub range_trading_enabled : Bool
  pub range_min_confirmations : ℕ
  pub range_min_rr : W
  pub range_risk_percent : Option W
  pub range_entry_filters_enabled : Bool
  pub conf_hard_min : W
  pub fixed_tp_rr : W

pub data Refusal : Type 0 where
  no_smc_signal votes_refused range_disabled range_refused regime_forbids low_confidence : Refusal
  low_quality fake_order_block marginal_confidence low_rr : Refusal

pub data DecisionResult {ℓ} (W : Type ℓ) : Type ℓ where
  refused : Refusal → DecisionResult W
  accepted : Direction → (confidence : W) → CapitalOutput W → DecisionResult W

counter_trend : Direction → Trend → Bool
counter_trend d t =
    not (is_neutral d) && not (is_neutral (vote_of t)) && not (same_direction d (vote_of t))

module _ {ℓ} {W : Type ℓ} where
  -- Later, or on the same bar and a CHoCH after a BOS.
  abbrev is_newer : Event W → Event W → Bool
  is_newer a b =
      ltb a.bar_index b.bar_index || ((a.bar_index == b.bar_index) && not a.is_choch && b.is_choch)

  -- `max`: the first of the newest.
  newest : Event W → List (Event W) → Event W
  newest e [] = e
  newest e (x ∷ xs) = newest (if is_newer e x then x else e) xs

  newest_of : List (Event W) → Option (Event W)
  unfolding newest
  newest_of [] = none
  newest_of (e ∷ es) = some (newest e es)

  pub get_latest_structure_event : SmcResult W → Option (Event W)
  unfolding newest_of
  get_latest_structure_event s = newest_of (s.bos_signals ++ s.choch_signals)

  pub candidate_direction : SmcResult W → Direction
  unfolding get_latest_structure_event
  candidate_direction s = elim (get_latest_structure_event s) [
    | none ↦ vote_of s.trend
    | some e ↦ e.type
  ]

  pub entry_filter_of : Analysis W → EngineRules W → Direction → EntryFilterResult
  unfolding counter_trend
  entry_filter_of a r d =
      apply_entry_filter
        (record {
          smc_signal = d;
          ema_trend = a.ema_trend;
          pa_signal = a.pa_signal;
          wyckoff_signal = a.wyckoff_signal;
        })
        (record {
          min_confirmations =
              effective_min_confirmations r.min_confirmations a.regime (counter_trend d a.ema_trend)
                r.default_range_min_confirmations;
          require_price_action = r.require_price_action && not (is_range a.regime);
          require_smc_price_action_wyckoff =
              r.require_smc_price_action_wyckoff && not (is_range a.regime);
        })

  -- The votes suffice: by the range's own rule in a range, if it is on, and by the filter elsewhere.
  pub votes_suffice : Analysis W → EngineRules W → EntryFilterResult → Bool
  votes_suffice a r ef =
      if is_range a.regime
      then not r.range_entry_filters_enabled || range_confirmation_gate ef r.range_min_confirmations
      else ef.allowed

  pub allows : RegimeEntryRules W → Direction → Bool
  allows rules buy = rules.allow_long
  allows rules sell = rules.allow_short
  allows rules neutral = true

module _ {ℓ} {W : Type ℓ} ⦃f : Float W⦄ where
  only_if : (W → Bool) → Option W → Option W
  only_if p none = none
  only_if p (some x) = if p x then some x else none

  -- The last price of the list for which the test holds.
  last_such : (W → Bool) → List W → Option W
  last_such p [] = none
  last_such p (x ∷ xs) = elim (last_such p xs) [
    | none ↦ if p x then some x else none
    | some y ↦ some y
  ]

  prices_of : Direction → List (Event W) → List W
  prices_of d [] = []
  prices_of d (e ∷ es) =
      let rest = prices_of d es in if same_direction e.type d then e.price ∷ rest else rest

  last_block : Trend → List (OrderBlock W) → Option (OrderBlock W)
  last_block t [] = none
  last_block t (b ∷ bs) = elim (last_block t bs) [
    | none ↦ if same_trend b.type t then some b else none
    | some c ↦ some c
  ]

  -- `range_level or equal_level`: a price of zero counts as none.
  or_level : Option W → Option W → Option W
  or_level none y = y
  or_level (some x) y = if (x ≤? nought) && (nought ≤? x) then y else some x

  or_percent : Option W → W → W
  or_percent none y = y
  or_percent (some x) y = x

  high_of : Option (OrderBlock W) → Option W
  high_of none = none
  high_of (some b) = some b.high

  low_of : Option (OrderBlock W) → Option W
  low_of none = none
  low_of (some b) = some b.low

  -- The levels below and above the entry, and the money at risk.
  unfoldable pub capital_input :
      Analysis W → EngineRules W → Direction → Option (RangeContext W) → CapitalInput W
  unfolding only_if last_such prices_of last_block or_level or_percent high_of low_of
  capital_input a r d context =
      let entry = a.close in
      let block = last_block (trend_of d) a.smc.order_blocks in
      let support : Option W = elim context [
        | none ↦ none
        | some x ↦ only_if (λ p. p <? entry) (some x.support)
      ] in
      let resistance : Option W = elim context [
        | none ↦ none
        | some x ↦ only_if (λ p. entry <? p) (some x.resistance)
      ] in
      record {
        direction = d;
        entry_price = entry;
        atr = a.atr;
        account_balance = r.account_balance;
        risk_percent =
            if is_range a.regime
            then or_percent r.range_risk_percent r.risk_percent
            else r.risk_percent;
        take_profit_rr = if is_range a.regime then r.range_min_rr else r.fixed_tp_rr;
        take_profit_level = if is_buy d then resistance else support;
        order_block_top = high_of block;
        order_block_bottom = low_of block;
        swing_high = last_such (λ p. entry <? p) (prices_of buy a.smc.bos_signals);
        swing_low = last_such (λ p. p <? entry) (prices_of sell a.smc.bos_signals);
        resistance_level =
            or_level resistance (only_if (λ p. entry <? p) (get_last? a.smc.equal_highs));
        support_level = or_level support (only_if (λ p. p <? entry) (get_last? a.smc.equal_lows));
      }

  -- 1.3.
  abbrev conf_marginal_rr : W
  conf_marginal_rr = f.dec 13 1

  -- The gates on the reward, once the trade is sized.
  priced : Analysis W → EngineRules W → Direction → W → CapitalOutput W → DecisionResult W
  priced a r d conf t =
      if (conf <? a.rules.min_confidence) && (t.risk_reward_ratio <? conf_marginal_rr)
      then refused marginal_confidence
      else if t.risk_reward_ratio <? (if is_range a.regime then r.range_min_rr else a.rules.min_rr)
      then refused low_rr
      else accepted d conf t

  -- From the direction of the regime on.
  judged : Analysis W → EngineRules W → Direction → Option (RangeContext W) → DecisionResult W
  unfolding priced
  judged a r d context =
      let conf = a.confidence d in
      let trade = priced a r d conf (calc_trade_parameters (capital_input a r d context)) in
      if not (allows a.rules d)
      then refused regime_forbids
      else if conf <? r.conf_hard_min
      then refused low_confidence
      else if not (a.quality d conf)
      then refused low_quality
      else if a.fake_breakout d
      then refused fake_order_block
      else trade

  -- The playbook of a range.
  in_range : Analysis W → EngineRules W → Direction → RangeContext W → DecisionResult W
  unfolding judged
  in_range a r d context =
      let rest = judged a r d (some context) in
      if not r.range_trading_enabled
      then refused range_disabled
      else if not context.valid
      then refused range_refused
      else rest

  pub run_decision_engine : Analysis W → EngineRules W → DecisionResult W
  unfolding candidate_direction entry_filter_of votes_suffice in_range
  run_decision_engine a r =
      let d = candidate_direction a.smc in
      let ef = entry_filter_of a r d in
      let range_entry = in_range a r d (a.range_entry d ef.confirmation_count) in
      let trend_entry = judged a r d none in
      if is_neutral d
      then refused no_smc_signal
      else if not (votes_suffice a r ef)
      then refused votes_refused
      else if is_range a.regime
      then range_entry
      else trend_entry
