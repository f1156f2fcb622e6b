-- ===== src/Signals/H1.antt =====
-- live_trading/signals/h1_validator.py: whether a series of hourly candles may be used. Instants are
-- microseconds since 1970; a time that cannot be parsed is `none`.
use scalping.Prelude.{
  ℕ, zero, suc, ◌+◌, ◌-◌, ◌*◌, ◌/◌, ◌%◌, Bool, true, false, not, ◌&&◌, ◌||◌, Option, none, some,
  is_some, List, [], ◌∷◌, ◌++◌, map, any, length, get_last?, leb, ltb, ◌==◌, if◌then◌else◌,
}
use scalping.Float.{Float, ◌⊖◌, ◌<?◌, ◌≤?◌, nought, max_of, min_of}
use scalping.Market.{Candle}
use scalping.Signals.Indicators.{calc_ema}
pub mod Valid
mod Tests

pub record H1Candle {ℓ} (W : Type ℓ) : Type ℓ where
  pub time : Option ℕ
  pub candle : Candle W

pub data Issue : Type 0 where
  too_few invalid_time not_increasing sub_hour too_long_gap uneven : Issue
  in_future still_open too_old not_aligned : Issue
  non_finite non_positive negative_volume out_of_bounds high_below_low : Issue
  ema_not_finite ema_collapsed : Issue

pub data Alignment : Type 0 where
  bullish_emas bearish_emas mixed unknown : Alignment

pub record H1ValidationResult {ℓ} (W : Type ℓ) : Type ℓ where
  pub valid : Bool
  pub issues : List Issue
  pub candle_count : ℕ
  pub latest_time : Option ℕ
  pub ema50 : W
  pub ema100 : W
  pub ema200 : W
  pub ema_alignment : Alignment

abbrev second : ℕ
second = 1000000

abbrev pub hour : ℕ
hour = 3600 * 1000000

-- Monday is 0; 1970 began on a Thursday.
abbrev weekday : ℕ → ℕ
weekday t = (t / (24 * hour) + 3) % 7

abbrev issue_if : Bool → Issue → List Issue
issue_if true i = i ∷ []
issue_if false i = []

-- Whether a list has an element.
abbrev pub is_clear : List Issue → Bool
is_clear [] = true
is_clear (i ∷ is) = false

abbrev first_or : Option Issue → List Issue
first_or none = []
first_or (some i) = i ∷ []

abbrev valid_times : List (Option ℕ) → List ℕ
valid_times [] = []
valid_times (none ∷ ts) = valid_times ts
valid_times (some t ∷ ts) = t ∷ valid_times ts

-- The first fault of two neighbours; H1_MAX_GAP_HOURS is 96.
gap_issue : (previous current : ℕ) → Option Issue
gap_issue p c =
    if leb c p
    then some not_increasing
    else if ltb (c - p) hour
    then some sub_hour
    else if ltb (96 * hour) (c - p)
    then some too_long_gap
    else if (c - p) % hour == 0
    then none
    else some uneven

abbrev or_first : Option Issue → Option Issue → Option Issue
or_first none o = o
or_first (some i) o = some i

chain_issue : List ℕ → Option Issue
unfolding gap_issue
chain_issue [] = none
chain_issue (t ∷ []) = none
chain_issue (t ∷ u ∷ ts) = or_first (gap_issue t u) (chain_issue (u ∷ ts))

-- The last candle is neither in the future, nor open, nor old on a weekday; -0.05 hours are 180 seconds.
age_issue : (now : ℕ) (latest : Option ℕ) → List Issue
age_issue now none = []
age_issue now (some t) =
    if ltb (now + 180 * second) t
    then in_future ∷ []
    else if ltb (now + 2 * second) (t + hour)
    then still_open ∷ []
    else issue_if (ltb (t + 4 * hour) now && ltb (weekday now) 5) too_old

module _ {ℓ} {W : Type ℓ} ⦃f : Float W⦄ where
  candle_issue : Candle W → Option Issue
  unfolding max_of min_of
  candle_issue c =
      if not (
        f.is_finite c.open_price
        && f.is_finite c.high
        && f.is_finite c.low
        && f.is_finite c.close
        && f.is_finite c.volume)
      then some non_finite
      else if min_of (min_of (min_of c.open_price c.high) c.low) c.close ≤? nought
      then some non_positive
      else if c.volume <? nought
      then some negative_volume
      else if (c.high <? max_of c.open_price c.close) || (min_of c.open_price c.close <? c.low)
      then some out_of_bounds
      else if c.high <? c.low
      then some high_below_low
      else none

  candles_issue : List (Candle W) → Option Issue
  unfolding candle_issue
  candles_issue [] = none
  candles_issue (c ∷ cs) = or_first (candle_issue c) (candles_issue cs)

  ema_alignment_of : (ema50 ema100 ema200 : W) → Alignment
  ema_alignment_of a b c =
      if (b <? a) && (c <? b)
      then bullish_emas
      else if (a <? b) && (b <? c)
      then bearish_emas
      else mixed

  emas_issue : (ema50 ema100 ema200 : W) → List Issue
  unfolding max_of min_of
  emas_issue a b c =
      if not (f.is_finite a && f.is_finite b && f.is_finite c)
      then ema_not_finite ∷ []
      else issue_if (max_of (max_of a b) c ⊖ min_of (min_of a b) c ≤? f.dec 1 4) ema_collapsed

  -- The issues of times and candles, before the averages are computed.
  abbrev data_issues : (min_candles now : ℕ) → List (H1Candle W) → List Issue
  data_issues least now cs =
      let times = map (λ c. c.time) cs in
      let valid = valid_times times in
      issue_if (ltb (length cs) least) too_few
      ++ issue_if (any (λ t. not (is_some t)) times) invalid_time
      ++ first_or (chain_issue valid)
      ++ age_issue now (get_last? valid)
      ++ issue_if (any (λ t. not (t % hour == 0)) valid) not_aligned
      ++ first_or (candles_issue (map (λ c. c.candle) cs))

  verdict : (found : List Issue) → (latest : Option ℕ) → List (H1Candle W) → H1ValidationResult W
  unfolding emas_issue ema_alignment_of
  verdict found latest cs =
      let closes = map (λ c. c.candle.close) cs in
      let a = calc_ema closes 50 in
      let b = calc_ema closes 100 in
      let c = calc_ema closes 200 in
      let averaged = is_clear found && leb 200 (length cs) in
      let issues = if averaged then emas_issue a b c else found in
      record {
        valid = is_clear issues;
        issues = issues;
        candle_count = length cs;
        latest_time = latest;
        ema50 = if averaged then a else nought;
        ema100 = if averaged then b else nought;
        ema200 = if averaged then c else nought;
        ema_alignment = if averaged then ema_alignment_of a b c else unknown;
      }

  unfoldable pub validate_h1_candles :
      List (H1Candle W) → (min_candles now : ℕ) → H1ValidationResult W
  unfolding chain_issue age_issue candles_issue verdict
  validate_h1_candles cs least now =
      verdict (data_issues least now cs) (get_last? (valid_times (map (λ c. c.time) cs))) cs

  -- `matches_ema`, `math.isclose` with an absolute tolerance.
  abbrev is_close : W → W → Bool
  is_close x y = f.abs (x ⊖ y) ≤? f.dec 2 4

  pub matches_ema : H1ValidationResult W → (ema50 ema100 ema200 : W) → Bool
  matches_ema r a b c = is_close r.ema50 a && is_close r.ema100 b && is_close r.ema200 c
