-- ===== src/Server.antt =====
-- live_trading/server.py: the process around the engine.
pub mod Supervisor
pub mod Command
