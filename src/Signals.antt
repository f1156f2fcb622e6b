-- ===== src/Signals.antt =====
-- live_trading/signals: the engines that vote on an entry and the gates that it must pass.
pub mod EntryFilter
pub mod Mtf
pub mod Indicators
pub mod Smc
pub mod Range
pub mod Trend
pub mod Regime
pub mod Confidence
pub mod Quality
pub mod Wyckoff
pub mod Divergence
pub mod Engine
pub mod H1
pub mod News
pub mod PriceAction
pub mod Decision
pub mod Samples
