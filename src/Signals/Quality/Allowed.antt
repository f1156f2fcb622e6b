-- ===== src/Signals/Quality/Allowed.antt =====
-- What live_trading/signals/quality_filter.py lets through.
use scalping.Prelude.{
  ℕ, ◌≡◌, refl, sym, ◌∙◌, ◌≤◌, ◌<◌, Bool, true, false, not, ◌&&◌, Option, none, some, List, [], ◌∷◌,
  but_last, length, get_last?, or_else, is_some, arith,
}
use scalping.Float.{Float, ◌<?◌}
use scalping.Market.{Candle, Direction, is_neutral}
use scalping.Signals.Regime.{calc_adx}
use scalping.Signals.Confidence.{Session}
use scalping.Signals.Quality.{
  QualityRules, get_session_quality, is_blocked, severely_ranging, late, late_at, is_stale, judged,
  apply_quality_filter,
}

-- In every hour of the day a session is open: only a time that cannot be read is blocked.
get_session_quality-open : (h : ℕ) → h < 24 → is_blocked (get_session_quality (some h)) ≡ false
unfolding get_session_quality
get_session_quality-open h lt = ground arith

last_of_two {ℓ} :
    {A : Type ℓ} (xs : List A)
    → 2 ≤ length xs
    → (is_some (get_last? xs) ≡ true) × (is_some (get_last? (but_last xs)) ≡ true)
last_of_two [] h = ground arith
last_of_two (x ∷ []) h = ground arith
last_of_two (x ∷ y ∷ []) h = (refl, refl)
last_of_two (x ∷ y ∷ z ∷ xs) h = last_of_two (y ∷ z ∷ xs) (omega arith)

all_five :
    (a b c d e : Bool)
    → (not a && not b && not c && not d && not e) ≡ true
    → (a ≡ false) × (b ≡ false) × (c ≡ false) × (d ≡ false) × (e ≡ false)
all_five a b c d e h = ground arith

is_blocked-none :
    (hour : Option ℕ) → is_blocked (get_session_quality hour) ≡ false → is_some hour ≡ true
unfolding get_session_quality
is_blocked-none none h = cc
is_blocked-none (some x) h = refl

module _ {ℓ} {W : Type ℓ} ⦃f : Float W⦄ where
  judged-allowed :
      (r : QualityRules W) (cs : List (Candle W)) (s : Session) (c : W) (bos : Option ℕ) (adx : W)
      → (judged r cs s c bos adx).allowed ≡ (
          not (is_blocked s)
          && not (severely_ranging cs adx)
          && not (late r.structure_max_age_bars cs (get_last? cs) (get_last? (but_last cs)) bos)
          && not (adx <? r.quality_adx_min)
          && not (c <? r.conf_hard_min))
  unfolding judged
  judged-allowed r cs s c bos adx = ground arith

  late-fresh :
      (age : ℕ) (cs : List (Candle W)) (c p : Option (Candle W)) (bos : Option ℕ)
      → is_some c ≡ true
      → is_some p ≡ true
      → late age cs c p bos ≡ false
      → is_stale (length cs) age bos ≡ false
  unfolding late late_at
  late-fresh age cs none p bos a b h = cc
  late-fresh age cs (some c) none bos a b h = cc
  late-fresh age cs (some c) (some p) bos a b h = ground arith

  reaches_judgement :
      (r : QualityRules W) (cs : List (Candle W)) (hour : Option ℕ) (d : Direction) (c : W)
      (bos : Option ℕ) (adx : Option W)
      → (apply_quality_filter r cs hour d c bos adx).allowed ≡ true
      → (30 ≤ length cs)
        × (is_neutral d ≡ false)
        × ((judged r cs (get_session_quality hour) c bos (or_else adx (calc_adx cs 14))).allowed
            ≡ true)
  unfolding apply_quality_filter
  reaches_judgement r cs hour d c bos adx h = ground arith

  -- What the filter lets through has thirty candles at least, a direction, a time that can be read, a
  -- structure not older than allowed, and neither its ADX nor its confidence is below the minimum.
  pub apply_quality_filter_allowed :
      (r : QualityRules W) (cs : List (Candle W)) (hour : Option ℕ) (d : Direction) (c : W)
      (bos : Option ℕ) (adx : Option W)
      → (apply_quality_filter r cs hour d c bos adx).allowed ≡ true
      → (30 ≤ length cs)
        × (is_neutral d ≡ false)
        × (is_some hour ≡ true)
        × (is_stale (length cs) r.structure_max_age_bars bos ≡ false)
        × ((or_else adx (calc_adx cs 14) <? r.quality_adx_min) ≡ false)
        × ((c <? r.conf_hard_min) ≡ false)
  apply_quality_filter_allowed r cs hour d c bos adx h =
      let s = get_session_quality hour in
      let a = or_else adx (calc_adx cs 14) in
      let age = r.structure_max_age_bars in
      let (long, directed, passed) = reaches_judgement r cs hour d c bos adx h in
      let (last, before) = last_of_two cs (omega arith) in
      let (open_hour, _, fresh, momentum, sure) =
        all_five (is_blocked s) (severely_ranging cs a)
          (late age cs (get_last? cs) (get_last? (but_last cs)) bos) (a <? r.quality_adx_min)
          (c <? r.conf_hard_min) (sym (judged-allowed r cs s c bos a) ∙ passed) in
      (
        long,
        directed,
        is_blocked-none hour open_hour,
        late-fresh age cs (get_last? cs) (get_last? (but_last cs)) bos last before fresh,
        momentum,
        sure,
      )

  -- No hour of the day is outside the sessions: two hours before 24 give the same verdict.
  pub apply_quality_filter_any_hour :
      (r : QualityRules W) (cs : List (Candle W)) (h k : ℕ) (d : Direction) (c : W) (bos : Option ℕ)
      (adx : Option W)
      → h < 24
      → k < 24
      → (apply_quality_filter r cs (some h) d c bos adx).allowed
        ≡ (apply_quality_filter r cs (some k) d c bos adx).allowed
  unfolding apply_quality_filter
  apply_quality_filter_any_hour r cs h k d c bos adx lt lt' =
      let a = or_else adx (calc_adx cs 14) in
      let open_h = get_session_quality-open h lt in
      let open_k = get_session_quality-open k lt' in
      ground (
        judged-allowed r cs (get_session_quality (some h)) c bos a,
        judged-allowed r cs (get_session_quality (some k)) c bos a,
        open_h,
        open_k,
        arith,
      )
