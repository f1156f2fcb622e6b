-- ===== src/Mt5.antt =====
-- live_trading/mt5: what the engine reads from the bridge to the broker and what it sends there.
pub mod Positions
pub mod Executor
pub mod Candles
pub mod Connection
