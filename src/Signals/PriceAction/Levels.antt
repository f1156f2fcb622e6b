-- ===== src/Signals/PriceAction/Levels.antt =====
-- live_trading/signals/price_action_engine.py: levels that prices turn at, and zones that they leave.
use scalping.Prelude.{
  ℕ, ◌+◌, Bool, not, ◌&&◌, ◌||◌, Option, none, some, List, [], ◌∷◌, ◌++◌, map, length, last_n, leb,
  if◌then◌else◌,
}
use scalping.Float.{Float, ◌⊖◌, ◌⊗◌, ◌⊘◌, ◌<?◌, ◌≤?◌, nought, max_of, min_of, sum_from}
use scalping.Market.{Candle}
use scalping.Signals.Smc.{member}
use scalping.Signals.PriceAction.{PaConfig, body, range, is_bull, is_bear}

pub record Zone {ℓ} (W : Type ℓ) : Type ℓ where
  pub top : W
  pub bottom : W

-- A zone of demand or one of supply.
pub data FoundZone {ℓ} (W : Type ℓ) : Type ℓ where
  demand supply : Zone W → FoundZone W

module _ {ℓ} {A : Type ℓ} where
  abbrev add : Option A → List A → List A
  add none xs = xs
  add (some x) xs = x ∷ xs

module _ {ℓ} {W : Type ℓ} where
  abbrev demands : List (FoundZone W) → List (Zone W)
  demands [] = []
  demands (demand z ∷ zs) = z ∷ demands zs
  demands (supply z ∷ zs) = demands zs

  abbrev supplies : List (FoundZone W) → List (Zone W)
  supplies [] = []
  supplies (demand z ∷ zs) = supplies zs
  supplies (supply z ∷ zs) = z ∷ supplies zs

module _ {ℓ} {W : Type ℓ} ⦃f : Float W⦄ where
  -- The values past the two before and the two after them.
  peaks : (past : W → W → Bool) → List W → List W
  peaks past (a ∷ b ∷ c ∷ d ∷ e ∷ xs) =
      let rest = peaks past (b ∷ c ∷ d ∷ e ∷ xs) in
      if past c b && past c a && past c d && past c e then c ∷ rest else rest
  peaks past _ = []

  -- The later prices near p that no group has, with their indices.
  near : (tol p : W) (used : List ℕ) (j : ℕ) → List W → List (ℕ × W)
  near tol p used j [] = []
  near tol p used j (x ∷ xs) =
      let rest = near tol p used (j + 1) xs in
      if not (member j used) && (f.abs (x ⊖ p) ≤? tol) then (j, x) ∷ rest else rest

  mean : List W → W
  unfolding sum_from
  mean xs = sum_from nought xs ⊘ f.dec (length xs) 0

  cluster_from : (tol : W) (touches : ℕ) (used : List ℕ) (i : ℕ) → List W → List W
  unfolding near mean
  cluster_from tol touches used i [] = []
  cluster_from tol touches used i (p ∷ ps) =
      let grouped = near tol p used (i + 1) ps in
      let group = p ∷ map (λ g. g.1) grouped in
      let old = member i used in
      let used' = if old then used else i ∷ (map (λ g. g.0) grouped ++ used) in
      let rest = cluster_from tol touches used' (i + 1) ps in
      if old then rest else if leb touches (length group) then mean group ∷ rest else rest

  -- The levels of support and of resistance.
  pub detect_sr_levels : List (Candle W) → PaConfig W → List W × List W
  unfolding peaks cluster_from
  detect_sr_levels candles cfg =
      let sl = last_n cfg.level_lookback candles in
      let highs = peaks (λ x y. y <? x) (map (λ c. c.high) sl) in
      let lows = peaks (λ x y. x <? y) (map (λ c. c.low) sl) in
      (
        cluster_from cfg.level_tolerance cfg.min_level_touches [] 0 lows,
        cluster_from cfg.level_tolerance cfg.min_level_touches [] 0 highs,
      )

  -- A narrow base of three candles, and a strong candle after it.
  zone_of : (cfg : PaConfig W) (atr : W) (a b c impulse : Candle W) → Option (FoundZone W)
  unfolding max_of min_of
  zone_of cfg atr a b c impulse =
      let base_high = max_of (max_of a.high b.high) c.high in
      let base_low = min_of (min_of a.low b.low) c.low in
      let zone : Zone W = record { top = f.round base_high 2; bottom = f.round base_low 2 } in
      let is_strong =
        (nought <? range impulse)
        && (cfg.strong_body_ratio ≤? body impulse ⊘ range impulse)
        && (atr ⊗ f.dec 5 1 ≤? body impulse) in
      if (atr ⊗ f.dec 15 1 <? base_high ⊖ base_low) || not is_strong
      then none
      else if is_bull impulse
      then some (demand zone)
      else if is_bear impulse
      then some (supply zone)
      else none

  zones_from : (cfg : PaConfig W) (atr : W) → List (Candle W) → List (FoundZone W)
  unfolding zone_of
  zones_from cfg atr (a ∷ b ∷ c ∷ d ∷ e ∷ xs) =
      add (zone_of cfg atr a b c d) (zones_from cfg atr (b ∷ c ∷ d ∷ e ∷ xs))
  zones_from cfg atr _ = []

  -- The last three zones of demand, and of supply.
  pub detect_supply_demand :
      List (Candle W) → (cfg : PaConfig W) (atr : W) → List (Zone W) × List (Zone W)
  unfolding zones_from
  detect_supply_demand candles cfg atr =
      let found = zones_from cfg atr (last_n cfg.level_lookback candles) in
      (last_n 3 (demands found), last_n 3 (supplies found))
