-- ===== src/Signals/Wyckoff.antt =====
-- live_trading/signals/wyckoff_engine.py: the phase of the market, from a range after a move.
use scalping.Prelude.{
  ℕ, zero, suc, ◌+◌, ◌-◌, ◌*◌, ◌/◌, max, Bool, true, false, not, ◌&&◌, ◌||◌, Option, none, some,
  List, [], ◌∷◌, map, any, take, drop, last_n, length, get_last?, or_else, ltb, if◌then◌else◌,
}
use scalping.Float.{
  Float, ◌⊕◌, ◌⊖◌, ◌⊗◌, ◌⊘◌, ◌<?◌, ◌≤?◌, nought, max_list, min_list, min_of, sum_from,
}
use scalping.Market.{Candle, Direction, buy, sell, neutral}
use scalping.Signals.Indicators.{is_nought}
use scalping.Signals.Regime.{Phase, accumulating, distributing, no_phase}
pub mod Vote
mod Tests

pub record WyckoffConfig {ℓ} (W : Type ℓ) : Type ℓ where
  pub range_bars : ℕ
  pub trend_bars : ℕ
  pub spring_margin : W
  pub upthrust_margin : W
  pub min_range_touches : ℕ
  pub max_range_pct : W
  pub min_range_pct : W
  pub recent_bars : ℕ

pub record WyckoffResult {ℓ} (W : Type ℓ) : Type ℓ where
  pub phase : Phase
  pub spring : Bool
  pub upthrust : Bool
  pub volume_confirmed : Bool
  pub wyckoff_signal : Direction
  pub wyckoff_score : W

module _ {ℓ} {A : Type ℓ} where
  -- `sum(1 for c in xs if p(c))`.
  abbrev count : (A → Bool) → List A → ℕ
  count p [] = 0
  count p (x ∷ xs) = if p x then 1 + count p xs else count p xs

  abbrev filter : (A → Bool) → List A → List A
  filter p [] = []
  filter p (x ∷ xs) = if p x then x ∷ filter p xs else filter p xs

module _ {ℓ} {W : Type ℓ} ⦃f : Float W⦄ where
  -- CFG_M5.
  abbrev pub cfg_m5 : WyckoffConfig W
  cfg_m5 = record {
    range_bars = 20;
    trend_bars = 12;
    spring_margin = f.dec 20 2;
    upthrust_margin = f.dec 20 2;
    min_range_touches = 2;
    max_range_pct = f.dec 10 3;
    min_range_pct = f.dec 1 3;
    recent_bars = 6;
  }

  -- The configuration of the engine: the calibrated one, if there is one.
  abbrev pub get_cfg : Option (WyckoffConfig W) → WyckoffConfig W
  get_cfg calibrated = or_else calibrated cfg_m5

  -- `max(c.high for c in cs)` and `min(c.low for c in cs)`, of one candle at least.
  highest : List (Candle W) → W
  unfolding max_list
  highest [] = nought
  highest (c ∷ cs) = max_list c.high (map (λ d. d.high) cs)

  lowest : List (Candle W) → W
  unfolding min_list
  lowest [] = nought
  lowest (c ∷ cs) = min_list c.low (map (λ d. d.low) cs)

  -- Whether the candles stay in a range that is neither too narrow nor too wide.
  has_range : (cfg : WyckoffConfig W) (size price : W) → Bool
  has_range cfg size price =
      let pct = if nought <? price then size ⊘ price else nought in
      (cfg.min_range_pct ≤? pct) && (pct ≤? cfg.max_range_pct)

  -- Whether both edges of the range are touched often enough.
  has_touches : (cfg : WyckoffConfig W) (support resistance : W) → List (Candle W) → Bool
  has_touches cfg support resistance cs =
      let band = (resistance ⊖ support) ⊗ f.dec 20 2 in
      let top = count (λ c. resistance ⊖ band ≤? c.high) cs in
      let bottom = count (λ c. c.low ≤? support ⊕ band) cs in
      not (ltb top cfg.min_range_touches || ltb bottom cfg.min_range_touches)

  -- The move of at least 0.2 % that came before the range decides the phase.
  phase_after : (first last : W) → Phase
  phase_after first last =
      let move = last ⊖ first in
      let pct = if nought <? first then f.abs move ⊘ first else nought in
      if f.dec 2 3 ≤? pct then (if move <? nought then accumulating else distributing) else no_phase

  phase_of : (trend : List (Candle W)) → Phase
  unfolding phase_after
  phase_of [] = no_phase
  phase_of (c ∷ cs) =
      if ltb (length (c ∷ cs)) 4
      then no_phase
      else phase_after c.close (or_else (get_last? (map (λ d. d.close) (c ∷ cs))) nought)

  -- `_detect_phase`, of the phase and the start of the range.
  pub detect_phase : List (Candle W) → WyckoffConfig W → Phase × ℕ
  unfolding highest lowest has_range has_touches phase_of
  detect_phase candles cfg =
      let start = length candles - cfg.range_bars in
      let range_candles = drop start candles in
      let support = lowest range_candles in
      let resistance = highest range_candles in
      let price = or_else (get_last? (map (λ c. c.close) candles)) nought in
      let trend_start = start - cfg.trend_bars in
      let trend_candles = drop trend_start (take start candles) in
      if ltb (length candles) (cfg.range_bars + cfg.trend_bars)
      then (no_phase, 0)
      else if not (has_range cfg (resistance ⊖ support) price)
      then (no_phase, start)
      else if not (has_touches cfg support resistance range_candles)
      then (no_phase, start)
      else (phase_of trend_candles, start)

  avg : List W → W
  unfolding sum_from
  avg [] = nought
  avg (x ∷ xs) = sum_from nought (x ∷ xs) ⊘ f.dec (length (x ∷ xs)) 0

  -- A candle that goes below the support and closes above it, on more volume than usual.
  springs : (cfg : WyckoffConfig W) (support avg_vol : W) → Candle W → Bool
  springs cfg support avg_vol c =
      (c.low <? support)
      && (support ⊖ cfg.spring_margin ≤? c.low)
      && (support <? c.close)
      && (avg_vol <? c.volume)

  thrusts : (cfg : WyckoffConfig W) (resistance avg_vol : W) → Candle W → Bool
  thrusts cfg resistance avg_vol c =
      (resistance <? c.high)
      && (c.high ≤? resistance ⊕ cfg.upthrust_margin)
      && (c.close <? resistance)
      && (avg_vol <? c.volume)

  -- The bars that establish the range: all but the recent ones, and four at least.
  abbrev establish_bars : (cfg : WyckoffConfig W) → List (Candle W) → ℕ
  establish_bars cfg range_candles = max 4 (length range_candles - cfg.recent_bars)

  pub detect_spring : List (Candle W) → (range_start : ℕ) → WyckoffConfig W → Bool
  unfolding springs lowest avg
  detect_spring candles start cfg =
      let range_candles = drop start candles in
      let n = establish_bars cfg range_candles in
      let support = lowest (take n range_candles) in
      let avg_vol = avg (map (λ c. c.volume) range_candles) in
      any (springs cfg support avg_vol) (drop (start + n) candles)

  pub detect_upthrust : List (Candle W) → (range_start : ℕ) → WyckoffConfig W → Bool
  unfolding thrusts highest avg
  detect_upthrust candles start cfg =
      let range_candles = drop start candles in
      let n = establish_bars cfg range_candles in
      let resistance = highest (take n range_candles) in
      let avg_vol = avg (map (λ c. c.volume) range_candles) in
      any (thrusts cfg resistance avg_vol) (drop (start + n) candles)

  pub confirm_volume : List (Candle W) → Phase → (range_start : ℕ) → Bool
  unfolding sum_from
  confirm_volume candles phase start =
      let cs = drop start candles in
      let up_vol =
        sum_from nought (map (λ c. c.volume) (filter (λ c. c.open_price <? c.close) cs)) in
      let dn_vol =
        sum_from nought (map (λ c. c.volume) (filter (λ c. c.close ≤? c.open_price) cs)) in
      let total = up_vol ⊕ dn_vol in
      elim phase [
        | no_phase ↦ false
        | accumulating ↦ if is_nought total then false else f.dec 55 2 <? up_vol ⊘ total
        | distributing ↦ if is_nought total then false else f.dec 55 2 <? dn_vol ⊘ total
      ]

  abbrev no_wyckoff : WyckoffResult W
  no_wyckoff = record {
    phase = no_phase;
    spring = false;
    upthrust = false;
    volume_confirmed = false;
    wyckoff_signal = neutral;
    wyckoff_score = nought;
  }

  -- 0.30, with 0.40 for the event of the phase and 0.30 for its volume.
  score_of : (event volume : Bool) → W
  unfolding min_of
  score_of event volume =
      let base = f.dec 30 2 in
      let with_event = if event then base ⊕ f.dec 40 2 else base in
      let raw = if volume then with_event ⊕ f.dec 30 2 else with_event in
      f.round (min_of (f.dec 1 0) raw) 2

  result_of : Phase → (spring upthrust volume : Bool) → WyckoffResult W
  unfolding score_of
  result_of no_phase s u v = no_wyckoff
  result_of accumulating s u v =
      let hit = u && not s in
      record {
        phase = accumulating;
        spring = s;
        upthrust = u;
        volume_confirmed = v;
        wyckoff_signal = if hit then neutral else buy;
        wyckoff_score = if hit then nought else score_of s v;
      }
  result_of distributing s u v =
      let hit = s && not u in
      record {
        phase = distributing;
        spring = s;
        upthrust = u;
        volume_confirmed = v;
        wyckoff_signal = if hit then neutral else sell;
        wyckoff_score = if hit then nought else score_of u v;
      }

  unfoldable pub analyze_wyckoff :
      (calibrated : Option (WyckoffConfig W)) → List (Candle W) → WyckoffResult W
  unfolding result_of
  analyze_wyckoff calibrated candles =
      let cfg = get_cfg calibrated in
      let (phase, start) = detect_phase candles cfg in
      if ltb (length candles) (cfg.range_bars + cfg.trend_bars)
      then no_wyckoff
      else result_of phase (detect_spring candles start cfg) (detect_upthrust candles start cfg)
          (confirm_volume candles phase start)
