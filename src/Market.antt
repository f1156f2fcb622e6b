-- ===== src/Market.antt =====
-- The words that the signal engines and the trading loop share.
use scalping.Prelude.{Bool, true, false}

-- A trade's direction and an engine's vote: "BUY", "SELL" or "NEUTRAL".
pub data Direction : Type 0 where
  buy sell neutral : Direction

-- "BULLISH", "BEARISH" or "NEUTRAL".
pub data Trend : Type 0 where
  bullish bearish flat : Trend

-- "STRONG", "MODERATE" or "WEAK".
pub data Strength : Type 0 where
  strong moderate weak : Strength

-- The eleven regimes of live_trading/signals/market_regime.py.
pub data Regime : Type 0 where
  strong_trend_bull strong_trend_bear weak_trend_bull weak_trend_bear : Regime
  pullback_bull pullback_bear range accumulation distribution : Regime
  high_volatility low_volatility : Regime

-- `OHLCV` of live_trading/signals/gold_engine.py, less its time.
pub record Candle {ℓ} (W : Type ℓ) : Type ℓ where
  pub open_price : W
  pub high : W
  pub low : W
  pub close : W
  pub volume : W

abbrev pub same_direction : Direction → Direction → Bool
same_direction buy buy = true
same_direction sell sell = true
same_direction neutral neutral = true
same_direction _ _ = false

abbrev pub is_buy : Direction → Bool
is_buy buy = true
is_buy _ = false

abbrev pub is_sell : Direction → Bool
is_sell sell = true
is_sell _ = false

abbrev pub is_neutral : Direction → Bool
is_neutral neutral = true
is_neutral _ = false

abbrev pub same_trend : Trend → Trend → Bool
same_trend bullish bullish = true
same_trend bearish bearish = true
same_trend flat flat = true
same_trend _ _ = false

-- `"BULLISH" if candidate == "BUY" else "BEARISH"`.
abbrev pub trend_of : Direction → Trend
trend_of buy = bullish
trend_of _ = bearish

-- The vote of a trend: "BUY", "SELL" or "NEUTRAL".
abbrev pub vote_of : Trend → Direction
vote_of bullish = buy
vote_of bearish = sell
vote_of flat = neutral

abbrev pub is_range : Regime → Bool
is_range range = true
is_range _ = false
