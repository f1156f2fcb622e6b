-- ===== src/Signals/PriceAction/Score.antt =====
-- live_trading/signals/price_action_engine.py: `_compute_pa_signal`.
use scalping.Prelude.{Bool, ◌&&◌, if◌then◌else◌}
use scalping.Float.{Float, ◌⊕◌, ◌⊖◌, ◌⊘◌, ◌<?◌, ◌≤?◌, nought, max_of, min_of}
use scalping.Market.{Direction, buy, sell, neutral}

-- What the score reads of one side.
pub record Evidence : Type 0 where
  pub engulf : Bool
  pub pin : Bool
  pub strong : Bool
  pub valid : Bool
  pub pullback : Bool
  pub near : Bool
  pub fake : Bool

module _ {ℓ} {W : Type ℓ} ⦃f : Float W⦄ where
  -- `if b: s += x`.
  abbrev plus_if : Bool → (x s : W) → W
  plus_if b x s = if b then s ⊕ x else s

  unfoldable pub side_score : Evidence → W
  unfolding max_of
  side_score e =
      let s1 = plus_if e.engulf (f.dec 15 1) nought in
      let s2 = plus_if e.pin (if e.near then f.dec 15 1 else f.dec 8 1) s1 in
      let s3 = plus_if e.strong (f.dec 10 1) s2 in
      let s4 = plus_if e.valid (f.dec 10 1) s3 in
      let s5 = plus_if e.pullback (f.dec 8 1) s4 in
      let s6 = plus_if e.near (f.dec 5 1) s5 in
      max_of nought (if e.fake then s6 ⊖ f.dec 15 1 else s6)

  -- The vote of two scores, if the larger is 0.30 of 5.3 at least.
  unfoldable pub signal_of : (buy_score sell_score : W) → Direction × W
  unfolding max_of min_of
  signal_of b s =
      let score = f.round (max_of b s ⊘ f.dec 53 1) 2 in
      let enough = f.dec 30 2 ≤? score in
      (
        if (s <? b) && enough then buy else if (b <? s) && enough then sell else neutral,
        min_of (f.dec 1 0) score,
      )

  unfoldable pub compute_pa_signal : (bull bear : Evidence) → Direction × W
  unfolding side_score signal_of
  compute_pa_signal bull bear = signal_of (side_score bull) (side_score bear)
