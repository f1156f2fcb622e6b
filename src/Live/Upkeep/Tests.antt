-- ===== src/Live/Upkeep/Tests.antt =====
-- A pass over two purchases, one of which is two risk distances in profit
-- (live_trading/trading/live_loop.py).
use scalping.Prelude.{ℕ, ◌*◌, Bool, true, Option, none, some, [], if◌then◌else◌}
use scalping.Prelude.Int.{pos}
use scalping.Float.Fixed.{Fixed, fixed_float}
use scalping.Market.{buy}
use scalping.Risk.Trailing.{TrailingConfig, Baseline}
use scalping.Mt5.Positions.{Ticket, same_ticket, Row, missing}
use scalping.Live.Upkeep.{Trailing, Prices}

abbrev dollars : ℕ → Fixed
dollars n = pos (n * 10000)

abbrev settings : TrailingConfig Fixed
settings = record {
  enabled = true;
  activation_r = dollars 1;
  step_r = pos 5000;
  lock_buffer_r = pos 5000;
  atr_gap_mult = dollars 1;
  min_step_price = pos 1000;
}

abbrev all_accept : Ticket → Bool
all_accept t = true

abbrev prices : Prices Fixed
prices = record {
  cfg = settings;
  atr = dollars 2;
  bid = dollars 2014;
  ask = dollars 2015;
  now = 432300;
  max_trade_history = 500;
  accepts = all_accept;
}

abbrev first : Row Fixed
first = record {
  ticket = some 41;
  lots = some (pos 100);
  volume = none;
  type = missing;
  order_type = missing;
  open_price = dollars 2000;
  sl = dollars 1993;
  tp = dollars 2020;
}

abbrev second : Row Fixed
second = record first { ticket = some 42; open_price = dollars 2012; sl = dollars 2005 }

abbrev baseline : Baseline Fixed
baseline = record { direction = buy; entry = dollars 2000; risk_distance = dollars 7 }

abbrev known_first : Ticket → Option (Baseline Fixed)
known_first t = if same_ticket t (some 41) then some baseline else none

abbrev before : Trailing Fixed
before = record { baselines = known_first; log = []; moves = [] }
