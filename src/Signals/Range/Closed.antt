-- ===== src/Signals/Range/Closed.antt =====
-- What the range gate lets through (live_trading/signals/range_strategy.py).
use scalping.Prelude.{
  ℕ, ◌*◌, ◌+◌, ◌-◌, ◌≤◌, ◌≡◌, ◌∙◌, refl, Bool, true, false, map, ◌||◌, Option, none, some, List, [],
  ◌∷◌, but_last, last_n, length, get_last?, ltb, if◌then◌else◌, arith, Bool-cases, inl, inr,
}
use scalping.Float.{Float, ◌≼◌, ◌≤?◌, nought, min_list, max_list}
use scalping.Float.Laws.{IsOrdered, IsRounded}
use scalping.Market.{Candle, Direction, is_neutral, is_range}
use scalping.Signals.Decision.{
  Analysis, EngineRules, candidate_direction, entry_filter_of, run_decision_engine,
}
use scalping.Signals.Decision.Accepted.{
  trade_of, context_of, is_valid_context, acceptable, run_decision_engine_trade,
}
use scalping.Signals.Smc.{cfg_m5}
use scalping.Signals.Smc.Sweeps.{Sweep}
use scalping.Signals.Smc.Sweeps.Silent.{detect_liquidity_sweeps-nil}
use scalping.Signals.Smc.Analyze.{analyze_smc_structure}
use scalping.Signals.Range.Context.{range_context, with_range, range_rules}
use scalping.Signals.Range.{
  RangeEntry, RangeRules, Reversals, is_reversal, is_correct_edge, latest_sweep, entry_at, entry_of,
  evaluate_range_entry, neutral_entry, atr_of,
}

module _ {ℓ} {W : Type ℓ} ⦃f : Float W⦄ where
  abbrev is_valid : Option (RangeEntry W) → Bool
  is_valid none = false
  is_valid (some e) = e.valid

  range_context-valid : (o : Option (RangeEntry W)) → (range_context o).valid ≡ is_valid o
  range_context-valid none = refl
  range_context-valid (some e) = refl

  -- What a strict gate has seen of an entry.
  abbrev pub IsGranted :
      Direction → (sweep reversal : Bool) (least n : ℕ) → Option (RangeEntry W) → Type 0
  IsGranted d sweep reversal least n none = ⊥
  IsGranted d sweep reversal least n (some e) =
      (e.direction ≡ d)
      × (is_correct_edge d e.location ≡ true)
      × (sweep ≡ true)
      × (reversal ≡ true)
      × (least ≤ n)

  valid-if :
      (P : Option (RangeEntry W) → Type 0) (t : Bool) (n : ℕ) (x : Option (RangeEntry W))
      → (is_valid x ≡ true → P x)
      → is_valid (if t then some (neutral_entry n) else x) ≡ true
      → P (if t then some (neutral_entry n) else x)
  valid-if P true n x p h = cc
  valid-if P false n x p h = p h

  entry_at-IsGranted :
      (r : RangeRules W) (d : Direction) (signal : Candle W) (support resistance atr : W)
      (sweep reversal : Bool) (n : ℕ)
      → r.strict_filters ≡ true
      → (entry_at r d signal support resistance atr sweep reversal n).valid ≡ true
      → IsGranted d sweep reversal r.min_confirmations n
          (some (entry_at r d signal support resistance atr sweep reversal n))
  unfolding entry_at
  entry_at-IsGranted r d signal support resistance atr sweep reversal n s h = ground arith

  entry_of-IsGranted :
      (r : RangeRules W) (d : Direction) (cs history : List (Candle W)) (signal : Option (Candle W))
      (sweep reversal : Bool) (n : ℕ)
      → r.strict_filters ≡ true
      → is_valid (entry_of r d cs history signal sweep reversal n) ≡ true
      → IsGranted d sweep reversal r.min_confirmations n
          (entry_of r d cs history signal sweep reversal n)
  unfolding entry_of
  entry_of-IsGranted r d cs [] signal sweep reversal n s h = cc
  entry_of-IsGranted r d cs (c ∷ history) none sweep reversal n s h = cc
  entry_of-IsGranted r d cs (c ∷ history) (some signal) sweep reversal n s h =
      let low = min_list c.low (map (λ x. x.low) history) in
      let high = max_list c.high (map (λ x. x.high) history) in
      let atr = atr_of cs 14 in
      valid-if (IsGranted d sweep reversal r.min_confirmations n) ((atr ≤? nought) || (high ≤? low))
        n (some (entry_at r d signal low high atr sweep reversal n))
        (entry_at-IsGranted r d signal low high atr sweep reversal n s) h

  -- With strict filters an entry that the gate accepts is at the edge of its direction, after a fresh
  -- sweep and on a reversal candle, with the confirmations required.
  pub evaluate_range_entry-IsGranted :
      (cs : List (Candle W)) (d : Direction) (sweeps : List (Sweep W)) (pa : Reversals) (n : ℕ)
      (r : RangeRules W)
      → r.strict_filters ≡ true
      → is_valid (evaluate_range_entry cs d sweeps pa n r) ≡ true
      → IsGranted d
          (latest_sweep sweeps d (length cs - 1))
          (is_reversal pa d)
          r.min_confirmations
          n
          (evaluate_range_entry cs d sweeps pa n r)
  unfolding evaluate_range_entry
  evaluate_range_entry-IsGranted cs d sweeps pa n r s h =
      let sweep = latest_sweep sweeps d (length cs - 1) in
      let history = but_last (last_n (r.lookback + 1) cs) in
      valid-if (IsGranted d sweep (is_reversal pa d) r.min_confirmations n)
        (is_neutral d || ltb (length cs) (r.lookback + 1)) n
        (entry_of r d cs history (get_last? cs) sweep (is_reversal pa d) n)
        (entry_of-IsGranted r d cs history (get_last? cs) sweep (is_reversal pa d) n s) h

  -- Without a sweep there is no entry.
  no_sweep_no_entry :
      (cs : List (Candle W)) (d : Direction) (pa : Reversals) (n : ℕ) (r : RangeRules W)
      → r.strict_filters ≡ true
      → is_valid (evaluate_range_entry cs d [] pa n r) ≡ false
  unfolding latest_sweep
  no_sweep_no_entry cs d pa n r s =
      let e = evaluate_range_entry cs d [] pa n r in
      elim (Bool-cases (is_valid e)) [
        | inl h ↦ sweepless e (evaluate_range_entry-IsGranted cs d [] pa n r s h)
        | inr h ↦ h
      ]
    where
      sweepless :
          (e : Option (RangeEntry W))
          → IsGranted d false (is_reversal pa d) r.min_confirmations n e
          → is_valid e ≡ false
      sweepless none g = refl
      sweepless (some e) g = cc (g.2)

module _ {ℓ} {W : Type ℓ} ⦃f : Float W⦄ (laws : IsOrdered W) (rounding : IsRounded W) where
  pub dec_nonneg : (m k : ℕ) → nought ≼ f.dec m k
  dec_nonneg m k = rw (← rounding.dec-zero k) (rounding.dec_mono 0 m k (omega arith))

  pub analyze_smc_structure-liquidity_sweeps :
      (cs : List (Candle W)) → (analyze_smc_structure cs).liquidity_sweeps ≡ []
  unfolding analyze_smc_structure
  analyze_smc_structure-liquidity_sweeps cs =
      elim (Bool-cases (ltb (length cs) ((cfg_m5 {W = W}).swing_lookback * 2 + 10))) [
        | inl e ↦ rw e
        | inr e ↦ rw e (detect_liquidity_sweeps-nil laws rounding cs cfg_m5 (dec_nonneg 15 2))
      ]

  range_entry-closed :
      (cs : List (Candle W)) (pa : Reversals) (r : EngineRules W) (edge : W) (a : Analysis W)
      (d : Direction) (n : ℕ)
      → r.range_entry_filters_enabled ≡ true
      → ((with_range cs pa r edge a).range_entry d n).valid ≡ false
  range_entry-closed cs pa r edge a d n s = rw (analyze_smc_structure-liquidity_sweeps cs) (
      range_context-valid (evaluate_range_entry cs d [] pa n (range_rules r edge))
      ∙ no_sweep_no_entry cs d pa n (range_rules r edge) s)

  -- While the filters of range entries are on, `run_decision_engine` refuses every entry in a range,
  -- whatever the candles, the account and the other settings: the sweep that the gate wants is never
  -- found.
  pub range_trade_never :
      (cs : List (Candle W)) (pa : Reversals) (r : EngineRules W) (edge : W) (a : Analysis W)
      → r.range_entry_filters_enabled ≡ true
      → is_range a.regime ≡ true
      → trade_of (run_decision_engine (with_range cs pa r edge a) r) ≡ none
  range_trade_never cs pa r edge a s h =
      let b = with_range cs pa r edge a in
      let d = candidate_direction a.smc in
      let n = (entry_filter_of b r d).confirmation_count in
      let closed = range_entry-closed cs pa r edge a d n s in
      let refused : is_valid_context r (context_of b r) ≡ false = rw h (ground arith) in
      let no_entry : acceptable b r ≡ false = ground arith in
      rw (run_decision_engine_trade b r) (rw no_entry)
