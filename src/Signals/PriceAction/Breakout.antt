-- ===== src/Signals/PriceAction/Breakout.antt =====
-- live_trading/signals/price_action_engine.py: `_detect_breakout_pullback`.
use scalping.Prelude.{
  ◌+◌, ◌-◌, min, Bool, ◌&&◌, ◌||◌, List, any, map, length, last_n, but_last, or_else,
}
use scalping.Float.{Float, ◌⊕◌, ◌⊖◌, ◌⊗◌, ◌<?◌, ◌≤?◌, nought}
use scalping.Market.{Candle}
use scalping.Signals.Smc.{get_elem?}
use scalping.Signals.PriceAction.{PaConfig, body, body_ratio, is_bull, is_bear}
use scalping.Signals.PriceAction.Levels.{Zone}

-- What the function returns.
pub record Breakouts : Type 0 where
  pub valid_bull : Bool
  pub valid_bear : Bool
  pub fake_bull : Bool
  pub fake_bear : Bool
  pub bull_pullback : Bool
  pub bear_pullback : Bool

module _ {ℓ} {W : Type ℓ} ⦃f : Float W⦄ where
  abbrev pub near_level : (price tol : W) → List W → Bool
  near_level price tol levels = any (λ l. f.abs (price ⊖ l) ≤? tol) levels

  abbrev pub near_zone : (price tol : W) → List (Zone W) → Bool
  near_zone price tol zones = any (λ z. (z.bottom ⊖ tol ≤? price) && (price ≤? z.top ⊕ tol)) zones

  abbrev has_body : PaConfig W → Candle W → Bool
  has_body cfg c = (cfg.breakout_min_body ≤? body c) && (cfg.breakout_body_ratio ≤? body_ratio c)

  -- A close past the level that the last candle takes back.
  abbrev is_fake : (past : W → W → Bool) (price level : W) → List (Candle W) → Bool
  is_fake past price level recent = any (λ c. past c.close level && past level price) recent

  unfoldable pub detect_breakout_pullback :
      List (Candle W)
      → (curr : Candle W) (support resistance : List W) (demand supply : List (Zone W))
      → (cfg : PaConfig W) → Breakouts
  detect_breakout_pullback candles curr support resistance demand supply cfg =
      let cp = curr.close in
      let n = length candles in
      let recent = but_last (last_n (cfg.fake_retrace_bars + 1) candles) in
      let closes = map (λ c. c.close) candles in
      let prior = or_else (get_elem? closes (n - 1 - min 10 (n - 1))) nought in
      let zone = cp ⊗ cfg.pullback_zone_pct in
      record {
        valid_bull = any (λ l. (l <? cp) && has_body cfg curr && is_bull curr) resistance;
        valid_bear = any (λ l. (cp <? l) && has_body cfg curr && is_bear curr) support;
        fake_bull = any (λ l. is_fake (λ x y. y <? x) cp l recent) resistance;
        fake_bear = any (λ l. is_fake (λ x y. x <? y) cp l recent) support;
        bull_pullback =
            (prior ⊗ f.dec 1002 3 <? cp)
            && (near_level cp zone support || near_zone cp zone demand);
        bear_pullback =
            (cp <? prior ⊗ f.dec 998 3)
            && (near_level cp zone resistance || near_zone cp zone supply);
      }
