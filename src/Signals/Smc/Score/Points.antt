-- ===== src/Signals/Smc/Score/Points.antt =====
-- How many points live_trading/signals/smc_engine.py gives.
use scalping.Prelude.{
  ℕ, zero, suc, ◌+◌, ◌*◌, ◌≤◌, ◌≡◌, Bool, true, false, Option, none, some, List, [], ◌∷◌, get_last?,
  arith,
}
use scalping.Float.{Float}
use scalping.Market.{Trend}
use scalping.Signals.Decision.{Event}
use scalping.Signals.Smc.{SmcConfig}
use scalping.Signals.Smc.Blocks.{Block}
use scalping.Signals.Smc.Gaps.{Fvg}
use scalping.Signals.Smc.Sweeps.{Sweep}
use scalping.Signals.Smc.Score.{
  Scores, give, give_trend, is_bullish, give_event, give_sweep, give_blocks, give_gaps, scores_of,
}

abbrev total : Scores → ℕ
total s = s.buy_score + s.sell_score

total-give : (n : ℕ) (b : Bool) (s : Scores) → total (give n b s) ≡ total s + n
total-give n true s = omega arith
total-give n false s = omega arith

give_trend-le : (t : Trend) (s : Scores) → total (give_trend 2 t s) ≤ total s + 2
give_trend-le t s = ground arith

module _ {ℓ} {W : Type ℓ} ⦃f : Float W⦄ where
  give_event-le :
      (n : ℕ) (e : Option (Event W)) (s : Scores) → total (give_event n e s) ≤ total s + n
  unfolding give_event
  give_event-le n none s = omega arith
  give_event-le n (some e) s = ground arith

  give_sweep-le : (w : Option (Sweep W)) (s : Scores) → total (give_sweep w s) ≤ total s + 2
  unfolding give_sweep
  give_sweep-le none s = omega arith
  give_sweep-le (some w) s = ground arith

  give_blocks-le :
      (cfg : SmcConfig W) (price : W) (hits : ℕ) (obs : List (Block W)) (s : Scores)
      → total (give_blocks cfg price hits obs s) ≤ total s + 2 * hits
  unfolding give_blocks
  give_blocks-le cfg price zero obs s = omega arith
  give_blocks-le cfg price (suc n) [] s = omega arith
  give_blocks-le cfg price (suc n) (ob ∷ obs) s =
      let b = is_bullish ob.type in
      ground (
        arith,
        total-give 2 b s,
        give_blocks-le cfg price n obs (give 2 b s),
        give_blocks-le cfg price (suc n) obs s,
      )

  give_gaps-le :
      (cfg : SmcConfig W) (price : W) (hits : ℕ) (gs : List (Fvg W)) (s : Scores)
      → total (give_gaps cfg price hits gs s) ≤ total s + hits
  unfolding give_gaps
  give_gaps-le cfg price zero gs s = omega arith
  give_gaps-le cfg price (suc n) [] s = omega arith
  give_gaps-le cfg price (suc n) (g ∷ gs) s =
      let b = is_bullish g.type in
      ground (
        arith,
        total-give 1 b s,
        give_gaps-le cfg price n gs (give 1 b s),
        give_gaps-le cfg price (suc n) gs s,
      )

  -- The two scores together are at most fifteen points.
  pub scores_of-le :
      (trend : Trend) (bos choch : List (Event W)) (obs : List (Block W)) (gaps : List (Fvg W))
      (sweeps : List (Sweep W)) (price : W) (cfg : SmcConfig W)
      → let s = scores_of trend bos choch obs gaps sweeps price cfg in
        s.buy_score + s.sell_score ≤ 15
  unfolding scores_of
  scores_of-le trend bos choch obs gaps sweeps price cfg =
      let s0 : Scores = record { buy_score = 0; sell_score = 0 } in
      let s1 = give_trend 2 trend s0 in
      let s2 = give_event 2 (get_last? bos) s1 in
      let s3 = give_event 3 (get_last? choch) s2 in
      let s4 = give_blocks cfg price 2 obs s3 in
      let s5 = give_gaps cfg price 2 gaps s4 in
      omega (
        arith,
        give_trend-le trend s0,
        give_event-le 2 (get_last? bos) s1,
        give_event-le 3 (get_last? choch) s2,
        give_blocks-le cfg price 2 obs s3,
        give_gaps-le cfg price 2 gaps s4,
        give_sweep-le (get_last? sweeps) s5,
      )
