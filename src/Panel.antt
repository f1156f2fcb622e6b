-- ===== src/Panel.antt =====
-- The control panel, telegram_panel.
pub mod Limiter
pub mod Access
pub mod Bus
pub mod Robot
pub mod Heartbeat
pub mod Trades
