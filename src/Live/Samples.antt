-- ===== src/Live/Samples.antt =====
-- A concrete engine of an account of 1000 and a bar with a purchase, in fixed-point numbers, for the
-- tests of the loop.
use scalping.Prelude.{ℕ, ◌*◌, true, false, Option, none, some, []}
use scalping.Prelude.Int.{pos}
use scalping.Float.Fixed.{Fixed, fixed_float}
use scalping.Market.{buy, neutral, bullish, strong, strong_trend_bull}
use scalping.Risk.Capital.{CapitalOutput}
use scalping.Risk.Guardian.{RiskGuardian, empty}
use scalping.Mt5.Positions.{Ticket, Known}
use scalping.Live.Engine.{not_evaluated, Account, Engine}
use scalping.Live.Bar.{Settings, Decision, Reply, Htf, Bar}

abbrev pub dollars : ℕ → Fixed
dollars n = pos (n * 10000)

abbrev pub guardian : RiskGuardian Fixed
guardian = record {
  daily_loss_limit_pct = dollars 3;
  max_drawdown_pct = dollars 8;
  account_login = "7001";
  account_server = "AMarkets-Demo";
  initialized = true;
  halted = false;
  halt_reason = empty;
  triggered_at = none;
  equity_peak = dollars 1000;
  session_open_balance = dollars 1000;
  day_open_balance = dollars 1000;
  last_day = some 5;
  halt_log_count = 0;
}

abbrev pub engine : Engine Fixed
engine = record {
  running = true;
  paused = false;
  trade_opened_this_tick = false;
  last_entry = none;
  trade_history = [];
  permission = record { allowed = false; stage = not_evaluated };
  status = none;
  guardian = guardian;
  last_acc_info = none;
  consecutive_acc_failures = 0;
  reconnect_attempts = 0;
  config = record {
    risk_percent = dollars 1;
    daily_loss_limit_pct = dollars 3;
    max_drawdown_pct = dollars 8;
    slippage_points = pos 20;
    min_confirmations = pos 3;
    trailing_enabled = true;
  };
}

abbrev no_known : Ticket → Option (Known Fixed)
no_known t = none

abbrev pub settings : Settings Fixed
settings = record {
  max_open_trades = 1;
  max_range_trades_per_session = 2;
  conf_hard_min = dollars 47;
  option_two_min_confidence = dollars 47;
  option_two_min_timeframes = 2;
  mtf_enabled = true;
  max_trade_history = 500;
  recovered = no_known;
}

abbrev params : CapitalOutput Fixed
params = record {
  entry_price = dollars 2000;
  stop_loss = dollars 1993;
  take_profit = dollars 2014;
  risk_reward_ratio = dollars 2;
  trailing_stop_distance = dollars 7;
  trailing_activation_at = dollars 2007;
  break_even_at = dollars 2007;
  break_even_sl = dollars 2000;
  lot_size = pos 100;
  risk_amount = dollars 10;
  sl_distance_usd = dollars 7;
  sl_distance_pips = dollars 70;
}

abbrev pub decision : Decision Fixed
decision = record {
  allowed = true;
  direction = buy;
  regime = strong_trend_bull;
  confidence = dollars 60;
  trade_params = params;
}

abbrev pub flat_reply : Reply Fixed
flat_reply = record { payload = some []; status = 200 }

abbrev pub account : Account Fixed
account = record { balance = dollars 1000; equity = dollars 1000 }

abbrev rising : Htf
rising = record {
  candles = some 300;
  is_h1 = true;
  h1_valid = true;
  matches_ema = true;
  analysis = some (record {
    trend = bullish;
    strength = strong;
    smc_signal = neutral;
    regime = strong_trend_bull;
  });
}

abbrev pub bar : Bar Fixed
bar = record {
  bar_time = 432000;
  tf_minutes = 5;
  today = 5;
  now = 432060;
  candles = 300;
  htf = rising;
  account = some account;
  retried_account = none;
  positions = flat_reply;
  confirm_positions = flat_reply;
  decision = decision;
  accepted = some 41;
}
