-- ===== src/Lib.antt =====
-- GoldScalperPro: a verification library of the live trading engine and of its control panel.
--
-- The engine (live_trading/) trades gold on an MT5 account through a REST bridge. At each closed bar
-- of a timeframe its loop asks the bridge for candles, the account and the open positions, lets the
-- signal engines decide, passes the decision through a row of gates, and sends at most one order. A
-- guardian halts trading on a daily loss or a drawdown; a staircase moves the stops of open positions;
-- the panel (telegram_panel/) shows the state that the engine publishes, and sends commands
-- through a mailbox in Redis, a page of the engine's server, or a file. The modules:
--
--   Prelude: the names that the others share; Booleans, lists and integers over native numbers,
--     and texts as lists of code points.
--   Float: the interface to the code's floats. Its laws (Float/Laws) are order, the monotony of the
--     operations and of rounding, and that NaN spreads; Float/Fixed is a fixed-point instance for which they are proved, and
--     on which tests and examples run.
--   Market: directions, trends, regimes, candles: the words of live_trading/signals.
--   Risk/Guardian: `RiskGuardian` of live_trading/risk/guardian.py. A method returns the new state
--     with the snapshots that it saves.
--   Risk/Trailing: live_trading/risk/trailing_stop.py, the staircase of one position.
--   Risk/Capital: live_trading/risk/capital_manager.py, the stop, the target and the lot of a trade.
--   Signals/EntryFilter: live_trading/signals/entry_filter.py, and two gates of
--     live_trading/signals/decision_engine.py.
--   Signals/Decision: `run_decision_engine` of live_trading/signals/decision_engine.py. Live/Orders
--     hands its decision to the gates of the loop. Signals/Samples: inputs of tests.
--   Signals/Indicators: live_trading/signals/gold_engine.py: averages, true ranges, the RSI.
--   Signals/Smc: live_trading/signals/smc_engine.py. Smc/Swings: swing points; Smc/Structure: breaks and
--     changes of character; Smc/Blocks, Gaps, Sweeps, Levels: order blocks, fair value gaps, liquidity
--     sweeps, equal levels; Smc/Score: the vote; Smc/Analyze: `analyze_smc_structure`.
--   Signals/Trend, Signals/Regime, Signals/Wyckoff, Signals/PriceAction: trend_engine.py,
--     market_regime.py, wyckoff_engine.py and price_action_engine.py of live_trading/signals.
--   Signals/Range: live_trading/signals/range_strategy.py; Range/Context: its call in
--     `run_decision_engine`.
--   Signals/Confidence: live_trading/signals/confidence_engine.py.
--   Signals/Quality: live_trading/signals/quality_filter.py. Signals/Divergence: divergence_engine.py.
--   Signals/Engine: `run_decision_engine` on candles, all engines composed.
--   Signals/Mtf: live_trading/signals/mtf_filter.py, the filter of the higher timeframe.
--   Mt5/Positions: the rows of open positions, as live_trading/mt5/connector.py repairs, merges and
--     drops them (`_dedupe_positions`, `_parse_open_positions_response`).
--   Signals/H1: live_trading/signals/h1_validator.py.
--   Signals/News: live_trading/signals/news_filter.py.
--   Mt5/Executor: live_trading/mt5/executor.py, the requests for orders and the reading of answers.
--   Mt5/Candles, Mt5/Connection: the candles, the connection and the watchdog of
--     live_trading/mt5/connector.py.
--   Server/Supervisor: `_robot_supervisor` of live_trading/server.py.
--   Server/Command: `_command` and `_force_resume` of live_trading/server.py.
--   Live: `GoldScalperLive` of live_trading/trading/live_loop.py.
--     Live/Engine: its state and its log of trades. Live/Bar: what one call of `_on_new_bar` reads.
--     Live/Gates: `_on_new_bar`. Live/Commands: `_process_commands` and the mailbox
--     (live_trading/redis_ipc.py). Commands/Queue: the file of commands
--     (live_trading/utils/state_writer.py). Live/Bars: `_check_new_bars` and the delay of a reconnection.
--     Live/Trades: settled trades and restored baselines. Live/Upkeep: `_manage_trailing_stop`.
--     Live/Loop: one iteration of `_run_loop`, and any number of them. Live/Samples: inputs of tests.
--   Panel/Limiter: telegram_panel/api/middleware/rate_limiter.py.
--   Panel/Bus: telegram_panel/core/event_bus.py.
--   Panel/Robot: telegram_panel/services/robot_service.py. Robot/Stale: the age of what is shown;
--     Robot/Delivery: the ways of a command to Server/Command.
--   Panel/Heartbeat: telegram_panel/core/heartbeat.py.
--   Panel/Trades: telegram_panel/services/trade_service.py, and `send_trade_command` of
--     telegram_panel/services/mt5_service.py.
--   Panel/Access: the roles of telegram_panel/models/user.py and the checks of
--     telegram_panel/api/middleware/auth.py.
--
-- State is passed explicitly: a method of a class is a function from the old state to the new one, and
-- what it does outside (an order, a changed stop, a snapshot, a cleared command) is part of its result.
-- What the bridge, Redis and the clock answer is an argument, so a statement holds for every answer.
-- An exception is `none`. Instants and days are numbers; a timeframe is a number of minutes or an index;
-- the id of a position is the number that its text spells.
--
-- A float is an element of a type with the operations that the code uses, and no law of arithmetic is
-- assumed unless a theorem names it: the laws of Float/Laws hold for all doubles, each for the values
-- that it names as numbers, which is why a theorem that needs it says which values are not NaN. The
-- loops go over lists, and the endless loop of the engine is a function of the list of its iterations,
-- so no function counts fuel.
--
-- Not modelled: log lines and texts, the telemetry for the panel, HTTP and Redis themselves, tasks in
-- the background, the start and the shutdown; of the signal engines dxy_filter.py and the
-- calibration of wyckoff_engine.py; the panel's screens, sessions and storage, and its services over that
-- storage (settings, notifications, reports).
pub mod Float
pub mod Live
pub mod Market
pub mod Mt5
pub mod Panel
pub mod Prelude
pub mod Risk
pub mod Server
pub mod Signals
