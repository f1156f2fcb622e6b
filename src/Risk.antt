-- ===== src/Risk.antt =====
-- live_trading/risk: the circuit breaker, the sizing of a trade and the trailing stop.
pub mod Guardian
pub mod Trailing
pub mod Capital
