-- ===== src/Signals/H1/Valid.antt =====
-- What live_trading/signals/h1_validator.py guarantees of a series that it accepts.
use scalping.Prelude.{
  ℕ, ◌+◌, ◌-◌, ◌*◌, ◌%◌, ◌≤◌, ◌≡◌, refl, Bool, true, false, not, Option, none, some, is_some, List,
  [], ◌∷◌, ◌++◌, map, any, All, length, get_last?, ltb, ◌==◌, arith,
}
use scalping.Float.{Float, ◌<?◌, ◌≤?◌, nought, max_of, min_of}
use scalping.Market.{Candle}
use scalping.Signals.H1.{
  H1Candle, Issue, too_few, invalid_time, not_aligned, hour, is_clear, issue_if, first_or,
  valid_times, gap_issue, or_first, chain_issue, age_issue, candle_issue, candles_issue,
  data_issues, verdict, validate_h1_candles,
}

-- Neighbours are a whole number of hours apart, from one to 96.
abbrev pub IsRegular : List ℕ → Type 0
IsRegular [] = Unit
IsRegular (t ∷ []) = Unit
IsRegular (t ∷ u ∷ ts) =
    (t + hour ≤ u) × (u ≤ t + 96 * hour) × ((u - t) % hour ≡ 0) × IsRegular (u ∷ ts)

-- The hour of the candle is over, but for two seconds.
abbrev pub IsOver : (now : ℕ) → Option ℕ → Type 0
IsOver now none = Unit
IsOver now (some t) = t + hour ≤ now + 2 * 1000000

is_clear-append :
    (xs ys : List Issue) → is_clear (xs ++ ys) ≡ true → (is_clear xs ≡ true) × (is_clear ys ≡ true)
is_clear-append [] ys h = (refl, h)
is_clear-append (x ∷ xs) ys h = cc

-- What is clear altogether is clear in its parts, of which the fifth is not used.
parts_clear :
    (a b c d e g : List Issue)
    → is_clear (a ++ b ++ c ++ d ++ e ++ g) ≡ true
    → (is_clear a ≡ true)
      × (is_clear b ≡ true)
      × (is_clear c ≡ true)
      × (is_clear d ≡ true)
      × (is_clear g ≡ true)
parts_clear a b c d e g h =
    let (h1, t) = is_clear-append (a ++ b ++ c ++ d ++ e) g h in
    let (h2, _) = is_clear-append (a ++ b ++ c ++ d) e h1 in
    let (h3, s) = is_clear-append (a ++ b ++ c) d h2 in
    let (h4, r) = is_clear-append (a ++ b) c h3 in
    let (p, q) = is_clear-append a b h4 in (p, q, r, s, t)

is_clear-first_or : (o : Option Issue) → is_clear (first_or o) ≡ true → o ≡ none
is_clear-first_or none h = refl
is_clear-first_or (some i) h = cc

is_clear-issue_if : (b : Bool) (i : Issue) → is_clear (issue_if b i) ≡ true → b ≡ false
is_clear-issue_if true i h = cc
is_clear-issue_if false i h = refl

or_first-none : (a b : Option Issue) → or_first a b ≡ none → (a ≡ none) × (b ≡ none)
or_first-none none b h = (refl, h)
or_first-none (some i) b h = cc

gap_issue-none :
    (p c : ℕ) → gap_issue p c ≡ none → (p + hour ≤ c) × (c ≤ p + 96 * hour) × ((c - p) % hour ≡ 0)
unfolding gap_issue
gap_issue-none p c h = ground arith

chain_issue-IsRegular : (ts : List ℕ) → chain_issue ts ≡ none → IsRegular ts
unfolding chain_issue
chain_issue-IsRegular [] h = tt
chain_issue-IsRegular (t ∷ []) h = tt
chain_issue-IsRegular (t ∷ u ∷ ts) h =
    let (first, rest) = or_first-none (gap_issue t u) (chain_issue (u ∷ ts)) h in
    let (a, b, c) = gap_issue-none t u first in (a, b, c, chain_issue-IsRegular (u ∷ ts) rest)

age_issue-IsOver : (now : ℕ) (o : Option ℕ) → is_clear (age_issue now o) ≡ true → IsOver now o
unfolding age_issue
age_issue-IsOver now none h = tt
age_issue-IsOver now (some t) h = ground arith

no_missing {ℓ} :
    {A : Type ℓ} (p : A → Bool) (xs : List A)
    → any (λ x. not (p x)) xs ≡ false
    → All (λ x. p x ≡ true) xs
no_missing p [] h = tt
no_missing p (x ∷ xs) h = (ground arith, no_missing p xs (ground arith))

module _ {ℓ} {W : Type ℓ} ⦃f : Float W⦄ where
  -- Finite prices above zero, and the body between the low and the high.
  abbrev pub IsOhlc : Candle W → Type 0
  IsOhlc c =
      (f.is_finite c.close ≡ true)
      × ((min_of (min_of (min_of c.open_price c.high) c.low) c.close ≤? nought) ≡ false)
      × ((c.volume <? nought) ≡ false)
      × ((c.high <? max_of c.open_price c.close) ≡ false)
      × ((min_of c.open_price c.close <? c.low) ≡ false)

  candle_issue-none : (c : Candle W) → candle_issue c ≡ none → IsOhlc c
  unfolding candle_issue
  candle_issue-none c h = ground arith

  candles_issue-none : (cs : List (Candle W)) → candles_issue cs ≡ none → All IsOhlc cs
  unfolding candles_issue
  candles_issue-none [] h = tt
  candles_issue-none (c ∷ cs) h =
      let (first, rest) = or_first-none (candle_issue c) (candles_issue cs) h in
      (candle_issue-none c first, candles_issue-none cs rest)

  verdict-valid :
      (found : List Issue) (latest : Option ℕ) (cs : List (H1Candle W))
      → (verdict found latest cs).valid ≡ true
      → is_clear found ≡ true
  unfolding verdict
  verdict-valid found latest cs h = ground arith

  -- A series that is accepted has enough candles, each with a time; times of neighbours are a whole
  -- number of hours apart, from one to 96; the hour of the last is over; and in each candle the close is
  -- finite, prices are above zero, the volume is not negative, and the body lies within the range.
  pub validate_h1_candles_valid :
      (cs : List (H1Candle W)) (least now : ℕ)
      → (validate_h1_candles cs least now).valid ≡ true
      → let times = map (λ c. c.time) cs in
        (least ≤ length cs)
        × All (λ t. is_some t ≡ true) times
        × IsRegular (valid_times times)
        × IsOver now (get_last? (valid_times times))
        × All IsOhlc (map (λ c. c.candle) cs)
  unfolding validate_h1_candles
  validate_h1_candles_valid cs least now h =
      let times = map (λ c. c.time) cs in
      let valid = valid_times times in
      let clear = verdict-valid (data_issues least now cs) (get_last? valid) cs h in
      let missing = any (λ t. not (is_some t)) times in
      let unaligned = any (λ t. not (t % hour == 0)) valid in
      let (long, timed, regular, over, sound) =
        parts_clear (issue_if (ltb (length cs) least) too_few) (issue_if missing invalid_time)
          (first_or (chain_issue valid)) (age_issue now (get_last? valid))
          (issue_if unaligned not_aligned) (first_or (candles_issue (map (λ c. c.candle) cs)))
          clear in
      let enough = is_clear-issue_if (ltb (length cs) least) too_few long in
      (
        ground arith,
        no_missing (λ t. is_some t) times (is_clear-issue_if missing invalid_time timed),
        chain_issue-IsRegular valid (is_clear-first_or (chain_issue valid) regular),
        age_issue-IsOver now (get_last? valid) over,
        candles_issue-none (map (λ c. c.candle) cs)
            (is_clear-first_or (candles_issue (map (λ c. c.candle) cs)) sound),
      )
