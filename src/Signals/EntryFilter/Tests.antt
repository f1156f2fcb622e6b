-- ===== src/Signals/EntryFilter/Tests.antt =====
-- Votes of three engines for a purchase.
use scalping.Prelude.{◌≡◌, refl, true, false}
use scalping.Market.{buy, neutral, bullish, accumulation, range}
use scalping.Signals.EntryFilter.{
  Signals, EntryRules, apply_entry_filter, effective_min_confirmations,
}

abbrev three : Signals
three = record { smc_signal = buy; ema_trend = bullish; pa_signal = buy; wyckoff_signal = neutral }

abbrev two_votes : EntryRules
two_votes = record {
  min_confirmations = 2;
  require_price_action = true;
  require_smc_price_action_wyckoff = false;
}

three-allowed : (apply_entry_filter three two_votes).allowed ≡ true
unfolding apply_entry_filter
three-allowed = refl

-- A base above 4, which the settings allow, is weakened by a counter-trend.
weakened : effective_min_confirmations 6 range true 2 ≡ 6
unfolding effective_min_confirmations
weakened = refl

lowered : effective_min_confirmations 6 accumulation true 2 ≡ 4
unfolding effective_min_confirmations
lowered = refl
