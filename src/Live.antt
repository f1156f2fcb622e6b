-- ===== src/Live.antt =====
-- The trading loop, `GoldScalperLive` of live_trading/trading/live_loop.py.
pub mod Engine
pub mod Bar
pub mod Gates
pub mod Commands
pub mod Bars
pub mod Trades
pub mod Upkeep
pub mod Loop
pub mod Orders
pub mod Samples
