-- ===== src/Signals/EntryFilter/Votes.antt =====
-- What the N-of-4 vote lets through (live_trading/signals/entry_filter.py).
use scalping.Prelude.{
  ℕ, ◌+◌, ◌≤◌, ◌≡◌, ◌≢◌, Bool, true, not, ◌||◌, List, [], ◌∷◌, arith, max, if◌then◌else◌,
}
use scalping.Market.{Direction, Regime, neutral, same_direction, vote_of}
use scalping.Signals.EntryFilter.{
  Signals, EntryRules, apply_entry_filter, effective_min_confirmations, range_confirmation_gate,
  as_count,
}

-- How many of some votes are for a direction.
abbrev pub count : Direction → List Direction → ℕ
count d [] = 0
count d (v ∷ vs) = as_count (same_direction v d) + count d vs

abbrev pub votes : Signals → List Direction
votes s = s.smc_signal ∷ vote_of s.ema_trend ∷ s.pa_signal ∷ s.wyckoff_signal ∷ []

-- An entry that the filter allows is in the direction of the market structure, which is not
-- neutral. Under the option-1 rule Price Action and Wyckoff point the same way; otherwise at least
-- the asked number of the four engines votes for it, Price Action among them where it is required.
pub apply_entry_filter_allowed :
    (s : Signals) (r : EntryRules)
    → (apply_entry_filter s r).allowed ≡ true
    → ((apply_entry_filter s r).direction ≡ s.smc_signal)
      × (s.smc_signal ≢ neutral)
      × (if r.require_smc_price_action_wyckoff
          then (s.pa_signal ≡ s.smc_signal) × (s.wyckoff_signal ≡ s.smc_signal)
          else (r.min_confirmations ≤ count s.smc_signal (votes s))
            × ((not r.require_price_action || same_direction s.pa_signal s.smc_signal) ≡ true))
unfolding apply_entry_filter
apply_entry_filter_allowed s r h = ground arith

-- The count that the filter reports is the number of engines that vote with the structure, from 1
-- to 4, unless the structure is neutral.
pub confirmation_count_lem :
    (s : Signals) (r : EntryRules)
    → s.smc_signal ≢ neutral
    → let n = (apply_entry_filter s r).confirmation_count in
      (n ≡ count s.smc_signal (votes s)) × (1 ≤ n) × (n ≤ 4)
unfolding apply_entry_filter
confirmation_count_lem s r h = ground arith

-- For a base of at most 4 no regime and no counter-trend weakens the gate below the base; in a
-- range it is at least the range's own floor as well, and it never asks for more votes than the
-- larger of the range's floor and 4.
pub effective_min_confirmations_bounds :
    (base : ℕ) (regime : Regime) (counter_trend : Bool) (range_min : ℕ)
    → base ≤ 4
    → let n = effective_min_confirmations base regime counter_trend range_min in
      (base ≤ n) × (n ≤ max 4 range_min)
unfolding effective_min_confirmations
effective_min_confirmations_bounds base regime counter_trend range_min h = ground arith

-- The votes that pass the range's gate are at least as many as asked, the structure has a
-- direction, and Price Action or Wyckoff votes with it: a trend alone never confirms a range entry.
pub range_confirmation_gate_sound :
    (s : Signals) (r : EntryRules) (n : ℕ)
    → 1 ≤ n
    → range_confirmation_gate (apply_entry_filter s r) n ≡ true
    → (n ≤ count s.smc_signal (votes s))
      × (s.smc_signal ≢ neutral)
      × (1 ≤ count s.smc_signal (s.pa_signal ∷ s.wyckoff_signal ∷ []))
unfolding apply_entry_filter range_confirmation_gate
range_confirmation_gate_sound s r n h e = ground arith
