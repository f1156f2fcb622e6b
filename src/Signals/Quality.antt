-- ===== src/Signals/Quality.antt =====
-- live_trading/signals/quality_filter.py: the last filter of an entry. Blocking reasons are a list of
-- names; the hour of the last candle is an argument, `none` where its time cannot be read.
use scalping.Prelude.{
  ℕ, ◌+◌, ◌-◌, Bool, true, false, not, ◌&&◌, ◌||◌, Option, none, some, List, [], ◌∷◌, ◌++◌, map,
  all, drop, last_n, but_last, length, get_last?, or_else, ltb, leb, if◌then◌else◌,
}
use scalping.Float.{Float, ◌⊕◌, ◌⊖◌, ◌⊗◌, ◌⊘◌, ◌<?◌, ◌≤?◌, nought, max_list, min_list, sum_from}
use scalping.Market.{Candle, Direction, is_neutral}
use scalping.Signals.Indicators.{average, smooth, smoothing, ema_step, true_range, true_ranges}
use scalping.Signals.Regime.{calc_adx}
use scalping.Signals.Confidence.{Session, prime, moderate_session, blocked}
pub mod Allowed
mod Tests

pub data Reason : Type 0 where
  insufficient_data no_direction outside_session severe_range late_entry : Reason
  low_momentum low_confidence : Reason

-- QUALITY_ADX_MIN, CONF_HARD_MIN and STRUCTURE_MAX_AGE_BARS of the configuration.
pub record QualityRules {ℓ} (W : Type ℓ) : Type ℓ where
  pub quality_adx_min : W
  pub conf_hard_min : W
  pub structure_max_age_bars : ℕ

pub record QualityFilterResult {ℓ} (W : Type ℓ) : Type ℓ where
  pub allowed : Bool
  pub blocked_reasons : List Reason
  pub session_quality : Session
  pub adx : W
  pub is_severe_range : Bool
  pub is_late_entry : Bool
  pub is_low_probability : Bool
  pub is_weak_volume : Bool
  pub is_low_momentum : Bool

-- `ALLOWED_SESSIONS`.
abbrev within : (from to hour : ℕ) → Bool
within from to hour = leb from hour && ltb hour to

pub get_session_quality : (hour : Option ℕ) → Session
get_session_quality none = blocked
get_session_quality (some h) =
    if within 0 7 h
    then moderate_session
    else if within 7 12 h
    then prime
    else if within 12 17 h
    then prime
    else if within 17 22 h
    then moderate_session
    else if within 22 24 h
    then moderate_session
    else blocked

abbrev is_blocked : Session → Bool
is_blocked blocked = true
is_blocked _ = false

-- A reason, if it holds.
abbrev because : Bool → Reason → List Reason
because true r = r ∷ []
because false r = []

abbrev is_empty {ℓ} : {A : Type ℓ} → List A → Bool
is_empty [] = true
is_empty (x ∷ xs) = false

-- The last break of structure is too long ago.
abbrev is_stale : (bars max_age : ℕ) (last_bos_bar : Option ℕ) → Bool
is_stale n age none = false
is_stale n age (some bar) = ltb age (n - 1 - bar)

module _ {ℓ} {W : Type ℓ} ⦃f : Float W⦄ where
  calc_ema50 : (closes : List W) → W
  unfolding average smooth
  calc_ema50 closes =
      if ltb (length closes) 50
      then or_else (get_last? closes) nought
      else smooth (ema_step (smoothing 50)) (average 50 closes) (drop 50 closes)

  -- The last true range is small beside the average of the `lookback` before it.
  is_volatility_compressed : List (Candle W) → (lookback : ℕ) (threshold : W) → Bool
  unfolding sum_from
  is_volatility_compressed candles lookback threshold =
      let trs = true_ranges candles in
      let curr_atr = or_else (get_last? trs) nought in
      let mean_atr = sum_from nought (but_last (last_n (lookback + 1) trs)) ⊘ f.dec lookback 0 in
      if ltb (length candles) (lookback + 2)
      then false
      else (nought <? mean_atr) && (curr_atr <? mean_atr ⊗ threshold)

  -- `sum(trs[-20:]) / 20`, or over all where there are fewer.
  mean_atr_of : List W → W
  unfolding sum_from
  mean_atr_of trs =
      if leb 20 (length trs)
      then sum_from nought (last_n 20 trs) ⊘ f.dec 20 0
      else sum_from nought trs ⊘ f.dec (length trs) 0

  -- `max(c.high for c in sl) - min(c.low for c in sl)`.
  recent_range : List (Candle W) → W
  unfolding max_list min_list
  recent_range [] = nought
  recent_range (c ∷ cs) =
      max_list c.high (map (λ d. d.high) cs) ⊖ min_list c.low (map (λ d. d.low) cs)

  severely_ranging : List (Candle W) → (adx : W) → Bool
  unfolding is_volatility_compressed mean_atr_of recent_range
  severely_ranging candles adx =
      if f.dec 14 0 ≤? adx
      then false
      else if not (is_volatility_compressed candles 20 (f.dec 50 2))
      then false
      else recent_range (last_n 15 candles) <? mean_atr_of (true_ranges candles) ⊗ f.dec 25 1

  -- `all(bodies[i] <= bodies[i - 1] ...)`.
  shrinking : List W → Bool
  shrinking [] = true
  shrinking (x ∷ []) = true
  shrinking (x ∷ y ∷ ys) = (y ≤? x) && shrinking (y ∷ ys)

  -- Five candles to one side whose bodies do not grow.
  is_exhausted : (recent : List (Candle W)) → Bool
  unfolding shrinking
  is_exhausted recent =
      (all (λ c. c.open_price <? c.close) recent || all (λ c. c.close <? c.open_price) recent)
      && shrinking (map (λ c. f.abs (c.close ⊖ c.open_price)) recent)

  -- Of two candles at least: the code indexes the last two.
  late_at :
      (max_age : ℕ) → List (Candle W) → (curr prev : Candle W) (last_bos_bar : Option ℕ) → Bool
  unfolding calc_ema50 is_exhausted
  late_at age candles c p bos =
      let gap = f.abs (c.close ⊖ calc_ema50 (map (λ d. d.close) candles)) in
      if f.dec 10 0 ⊗ true_range c p <? gap
      then true
      else if leb 6 (length candles) && is_exhausted (last_n 5 candles)
      then true
      else is_stale (length candles) age bos

  late :
      (max_age : ℕ)
      → List (Candle W)
      → (curr prev : Option (Candle W)) (last_bos_bar : Option ℕ) → Bool
  unfolding late_at
  late age candles (some c) (some p) bos = late_at age candles c p bos
  late age candles (some c) none bos = false
  late age candles none prev bos = false

  weak_volume : List (Candle W) → Bool
  unfolding sum_from
  weak_volume candles =
      let volumes = map (λ c. c.volume) candles in
      let avg_vol = sum_from nought (but_last (last_n 21 volumes)) ⊘ f.dec 20 0 in
      let curr_vol = or_else (get_last? volumes) nought in
      if ltb (length candles) 22
      then false
      else (nought <? avg_vol) && (curr_vol <? avg_vol ⊗ f.dec 35 2)

  -- The result of the two early returns.
  abbrev pub refused : Reason → QualityFilterResult W
  refused r = record {
    allowed = false;
    blocked_reasons = r ∷ [];
    session_quality = blocked;
    adx = nought;
    is_severe_range = false;
    is_late_entry = false;
    is_low_probability = false;
    is_weak_volume = false;
    is_low_momentum = false;
  }

  judged :
      QualityRules W
      → List (Candle W)
      → Session
      → (confidence : W) (last_bos_bar : Option ℕ) (adx : W) → QualityFilterResult W
  unfolding severely_ranging late weak_volume
  judged r candles session confidence bos adx =
      let severe = severely_ranging candles adx in
      let is_late =
        late r.structure_max_age_bars candles (get_last? candles) (get_last? (but_last candles))
          bos in
      let low_mom = adx <? r.quality_adx_min in
      let low_prob = confidence <? r.conf_hard_min in
      let reasons =
        because (is_blocked session) outside_session
        ++ because severe severe_range
        ++ because is_late late_entry
        ++ because low_mom low_momentum
        ++ because low_prob low_confidence in
      record {
        allowed = is_empty reasons;
        blocked_reasons = reasons;
        session_quality = session;
        adx = adx;
        is_severe_range = severe;
        is_late_entry = is_late;
        is_low_probability = low_prob;
        is_weak_volume = weak_volume candles;
        is_low_momentum = low_mom;
      }

  unfoldable pub apply_quality_filter :
      QualityRules W
      → List (Candle W)
      → (hour : Option ℕ) → (smc_signal : Direction) (confidence : W)
      → (last_bos_bar : Option ℕ) (adx : Option W) → QualityFilterResult W
  unfolding get_session_quality judged
  apply_quality_filter r candles hour d confidence bos adx =
      if ltb (length candles) 30
      then refused insufficient_data
      else if is_neutral d
      then refused no_direction
      else judged r candles (get_session_quality hour) confidence bos
          (or_else adx (calc_adx candles 14))
