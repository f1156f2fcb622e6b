-- ===== src/Signals/Smc/Blocks.antt =====
-- live_trading/signals/smc_engine.py: `_detect_order_blocks` and `detect_order_block_fake_breakout`.
use scalping.Prelude.{
  ℕ, zero, suc, ◌+◌, ◌-◌, min, Bool, true, false, not, ◌&&◌, ◌||◌, Option, none, some, List, [],
  ◌∷◌, ◌++◌, map, any, drop, last_n, but_last, length, leb, ltb, ◌==◌, if◌then◌else◌, get_last?,
}
use scalping.Float.{Float, ◌<?◌, ◌≤?◌}
use scalping.Market.{Candle, Direction, buy, sell, neutral, Trend, is_buy, same_trend, trend_of}
use scalping.Signals.Decision.{Event}
use scalping.Signals.Smc.{SmcConfig, get_elem?, member, candle_body, body_ratio}
pub mod Fresh
mod Tests

pub record Block {ℓ} (W : Type ℓ) : Type ℓ where
  pub type : Trend
  pub high : W
  pub low : W
  pub open_price : W
  pub close : W
  pub bar_index : ℕ
  pub mitigated : Bool

-- `SmcMitigationBlock`.
pub record Mitigation {ℓ} (W : Type ℓ) : Type ℓ where
  pub original_ob : Block W
  pub mitigated_at_bar_index : ℕ

-- The variables of the loop over the breaks.
pub record Found {ℓ} (W : Type ℓ) : Type ℓ where
  pub order_blocks : List (Block W)
  pub mitigation_blocks : List (Mitigation W)
  pub used_ob_idx : List ℕ

module _ {ℓ} {W : Type ℓ} where
  -- The last of the n candles before bar k that passes, with its index.
  search_back : (passes : Candle W → Bool) → List (Candle W) → (k n : ℕ) → Option (ℕ × Candle W)
  search_back passes cs k zero = none
  search_back passes cs zero (suc n) = none
  search_back passes cs (suc k) (suc n) =
      let rest = search_back passes cs k n in
      elim (get_elem? cs k) [ none ↦ rest | some c ↦ if passes c then some (k, c) else rest ]

module _ {ℓ} {W : Type ℓ} ⦃f : Float W⦄ where
  -- A candle against the break, with a body of some size.
  is_opposite : SmcConfig W → Direction → Candle W → Bool
  unfolding candle_body body_ratio
  is_opposite cfg d c =
      (if is_buy d then c.close <? c.open_price else c.open_price <? c.close)
      && (cfg.min_ob_body_size ≤? candle_body c)
      && (cfg.min_ob_body_ratio ≤? body_ratio c)

  abbrev pub touches : Block W → Candle W → Bool
  touches ob c = (c.low ≤? ob.high) && (ob.low ≤? c.high)

  -- The first candle, the bars counted from j, that touches the block.
  first_touch : Block W → (j : ℕ) → List (Candle W) → Option ℕ
  first_touch ob j [] = none
  first_touch ob j (c ∷ cs) = if touches ob c then some j else first_touch ob (j + 1) cs

  abbrev block_of : Direction → (k : ℕ) → Candle W → Block W
  block_of d k raw = record {
    type = trend_of d;
    high = f.round raw.high 2;
    low = f.round raw.low 2;
    open_price = f.round raw.open_price 2;
    close = f.round raw.close 2;
    bar_index = k;
    mitigated = false;
  }

  -- The code shares one object between the two lists, so both see the mark.
  keep_block : Block W → Option ℕ → Found W → Found W
  keep_block ob none s = record s {
    order_blocks = s.order_blocks ++ ob ∷ [];
    used_ob_idx = ob.bar_index ∷ s.used_ob_idx;
  }
  keep_block ob (some j) s =
      let ob' : Block W = record ob { mitigated = true } in
      record s {
        order_blocks = s.order_blocks ++ ob' ∷ [];
        mitigation_blocks =
            s.mitigation_blocks ++ record { original_ob = ob'; mitigated_at_bar_index = j } ∷ [];
        used_ob_idx = ob.bar_index ∷ s.used_ob_idx;
      }

  add_block : List (Candle W) → Event W → Option (ℕ × Candle W) → Found W → Found W
  add_block cs bos none s = s
  add_block cs bos (some (k, raw)) s =
      if member k s.used_ob_idx
      then s
      else (let ob = block_of bos.type k raw in
          keep_block ob (first_touch ob (bos.bar_index + 1) (drop (bos.bar_index + 1) cs)) s)

  blocks_of : List (Candle W) → SmcConfig W → List (Event W) → Found W → Found W
  blocks_of cs cfg [] s = s
  blocks_of cs cfg (bos ∷ rest) s = blocks_of cs cfg rest (
      add_block cs bos
        (search_back (is_opposite cfg bos.type) cs bos.bar_index (min 8 bos.bar_index)) s)

  abbrev pub active : List (Block W) → List (Block W)
  active [] = []
  active (b ∷ bs) = if b.mitigated then active bs else b ∷ active bs

  -- The active blocks and the mitigated ones.
  pub detect_order_blocks :
      List (Candle W) → List (Event W) → SmcConfig W → List (Block W) × List (Mitigation W)
  detect_order_blocks cs bos_signals cfg =
      let s =
        blocks_of cs cfg bos_signals
          (record { order_blocks = []; mitigation_blocks = []; used_ob_idx = [] }) in
      (
        last_n cfg.max_order_blocks (active s.order_blocks),
        last_n cfg.max_order_blocks s.mitigation_blocks,
      )

  -- `(ob.type, ob.bar_index)` is among the keys.
  abbrev was_seen : Block W → List (Trend × ℕ) → Bool
  was_seen ob [] = false
  was_seen ob ((t, k) ∷ seen) = (same_trend t ob.type && (k == ob.bar_index)) || was_seen ob seen

  abbrev pub holds : Block W → Candle W → Bool
  holds ob c = (ob.low ≤? c.close) && (c.close ≤? ob.high)

  abbrev pub left_behind : Direction → List (Candle W) → Block W → Bool
  left_behind buy recent ob = any (λ c. ob.high <? c.close) recent
  left_behind sell recent ob = any (λ c. c.close <? ob.low) recent
  left_behind neutral recent ob = false

  -- The block of a fake breakout in the direction: the last candle closes in it, a recent one beyond.
  abbrev pub is_faked : Direction → (recent : List (Candle W)) (current : Candle W) → Block W → Bool
  is_faked d recent current ob = holds ob current && left_behind d recent ob

  faked :
      Direction
      → (recent : List (Candle W)) (current : Candle W) → (seen : List (Trend × ℕ)) → List (Block W)
      → Option (Block W)
  faked d recent current seen [] = none
  faked d recent current seen (ob ∷ obs) =
      let skip = faked d recent current seen obs in
      let rest = faked d recent current ((ob.type, ob.bar_index) ∷ seen) obs in
      if was_seen ob seen || not (same_trend ob.type (trend_of d))
      then skip
      else if is_faked d recent current ob
      then some ob
      else rest

  abbrev pub originals : List (Mitigation W) → List (Block W)
  originals ms = map (λ m. m.original_ob) ms

  faked_in :
      Direction → (recent : List (Candle W)) → Option (Candle W) → List (Block W) → Option (Block W)
  unfolding faked
  faked_in d [] current obs = none
  faked_in d (r ∷ rs) none obs = none
  faked_in d (r ∷ rs) (some c) obs = faked d (r ∷ rs) c [] obs

  pub detect_order_block_fake_breakout :
      List (Candle W)
      → (order_blocks : List (Block W)) → List (Mitigation W)
      → Direction
      → (retrace_bars : ℕ) → Option (Block W)
  unfolding faked_in
  detect_order_block_fake_breakout cs obs ms neutral n = none
  detect_order_block_fake_breakout cs obs ms d n =
      if ltb (length cs) 2
      then none
      else faked_in d (but_last (drop (length cs - n - 1) cs)) (get_last? cs) (obs ++ originals ms)
