-- ===== src/Signals/Smc/Score.antt =====
-- live_trading/signals/smc_engine.py: `_compute_smc_signal`. The scores are whole numbers of points.
use scalping.Prelude.{
  ℕ, zero, suc, ◌+◌, max, Bool, true, false, ◌&&◌, ◌||◌, Option, none, some, List, [], ◌∷◌, ltb,
  get_last?, if◌then◌else◌,
}
use scalping.Float.{Float, ◌⊕◌, ◌⊖◌, ◌⊘◌, ◌≤?◌, min_of}
use scalping.Market.{
  Direction, buy, sell, neutral, Trend, bullish, bearish, flat, is_buy, same_trend,
}
use scalping.Signals.Decision.{Event}
use scalping.Signals.Smc.{SmcConfig}
use scalping.Signals.Smc.Blocks.{Block}
use scalping.Signals.Smc.Gaps.{Fvg}
use scalping.Signals.Smc.Sweeps.{Sweep}
pub mod Points

-- `buy_score` and `sell_score`.
pub record Scores : Type 0 where
  pub buy_score : ℕ
  pub sell_score : ℕ

-- Points for one side.
abbrev give : ℕ → Bool → Scores → Scores
give n true s = record s { buy_score = s.buy_score + n }
give n false s = record s { sell_score = s.sell_score + n }

abbrev give_trend : ℕ → Trend → Scores → Scores
give_trend n bullish s = give n true s
give_trend n bearish s = give n false s
give_trend n flat s = s

-- Every block, gap and sweep that is not bullish is bearish.
abbrev is_bullish : Trend → Bool
is_bullish bullish = true
is_bullish _ = false

module _ {ℓ} {W : Type ℓ} where
  give_event : ℕ → Option (Event W) → Scores → Scores
  give_event n none s = s
  give_event n (some e) s = give n (is_buy e.type) s

  give_sweep : Option (Sweep W) → Scores → Scores
  give_sweep none s = s
  give_sweep (some w) s = give 2 (is_bullish w.type) s

module _ {ℓ} {W : Type ℓ} ⦃f : Float W⦄ where
  near_block : SmcConfig W → (price : W) → Block W → Bool
  near_block cfg price ob =
      ((ob.low ≤? price) && (price ≤? ob.high))
      || (f.abs (price ⊖ (if is_bullish ob.type then ob.low else ob.high)) ≤? cfg.near_ob_threshold)

  near_gap : SmcConfig W → (price : W) → Fvg W → Bool
  near_gap cfg price g =
      (g.bottom ⊖ cfg.near_fvg_threshold ≤? price) && (price ≤? g.top ⊕ cfg.near_fvg_threshold)

  -- At most as many blocks count as there are hits left; so for gaps.
  give_blocks : SmcConfig W → (price : W) → (hits : ℕ) → List (Block W) → Scores → Scores
  unfolding near_block
  give_blocks cfg price zero obs s = s
  give_blocks cfg price (suc n) [] s = s
  give_blocks cfg price (suc n) (ob ∷ obs) s =
      let hit = give_blocks cfg price n obs (give 2 (is_bullish ob.type) s) in
      let miss = give_blocks cfg price (suc n) obs s in
      if near_block cfg price ob then hit else miss

  give_gaps : SmcConfig W → (price : W) → (hits : ℕ) → List (Fvg W) → Scores → Scores
  unfolding near_gap
  give_gaps cfg price zero gs s = s
  give_gaps cfg price (suc n) [] s = s
  give_gaps cfg price (suc n) (g ∷ gs) s =
      let hit = give_gaps cfg price n gs (give 1 (is_bullish g.type) s) in
      let miss = give_gaps cfg price (suc n) gs s in if near_gap cfg price g then hit else miss

  pub scores_of :
      Trend
      → (bos choch : List (Event W)) → List (Block W)
      → List (Fvg W)
      → List (Sweep W)
      → (price : W) → SmcConfig W
      → Scores
  scores_of trend bos choch obs gaps sweeps price cfg =
      let s0 : Scores = record { buy_score = 0; sell_score = 0 } in
      let s1 =
        give_event 3 (get_last? choch) (give_event 2 (get_last? bos) (give_trend 2 trend s0)) in
      give_sweep (get_last? sweeps) (give_gaps cfg price 2 gaps (give_blocks cfg price 2 obs s1))

  -- The signal of the scores, and the score that is reported.
  pub signal_of : Scores → Direction × W
  unfolding min_of
  signal_of s =
      let net_score = f.round (f.dec (max s.buy_score s.sell_score) 0 ⊘ f.dec 12 0) 2 in
      (
        (if ltb s.sell_score s.buy_score && (f.dec 35 2 ≤? net_score)
            then buy
            else if ltb s.buy_score s.sell_score && (f.dec 35 2 ≤? net_score)
            then sell
            else neutral),
        min_of (f.dec 1 0) net_score,
      )

  pub compute_smc_signal :
      Trend
      → (bos choch : List (Event W)) → List (Block W)
      → List (Fvg W)
      → List (Sweep W)
      → (price : W) → SmcConfig W
      → Direction × W
  compute_smc_signal trend bos choch obs gaps sweeps price cfg =
      signal_of (scores_of trend bos choch obs gaps sweeps price cfg)
