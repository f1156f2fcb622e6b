-- ===== src/Live/Loop/Tests.antt =====
-- Iterations of a stopped robot (live_trading/trading/live_loop.py).
use scalping.Prelude.{ℕ, refl, Bool, true, Option, none, some, [], ◌∷◌}
use scalping.Float.Fixed.{Fixed, fixed_float}
use scalping.Risk.Trailing.{Baseline}
use scalping.Mt5.Positions.{Ticket}
use scalping.Live.Bar.{Bar}
use scalping.Live.Commands.{no_commands, send_command, resume, start}
use scalping.Live.Trades.{CloseHistory, CheckedAt}
use scalping.Live.Loop.{Loop, Tick, run_loop}
use scalping.Live.Loop.Stopped.{IsIdle, run_loop-IsIdle}
use scalping.Live.Samples.{engine, guardian, settings, flat_reply, bar}

abbrev all_close : Ticket → Bool
all_close t = true

abbrev no_history : ℕ → Option (CloseHistory Fixed)
no_history id = none

abbrev bar_each_hour : ℕ → Option ℕ
bar_each_hour tf = some 432000

abbrev same_bar : ℕ × ℕ → Bar Fixed
same_bar x = bar

-- The panel asks for a resume and a start, and a bar that would open a trade has closed.
abbrev tempting : Tick Fixed
tempting = record {
  world = record {
    today = 5;
    now = 432060;
    fresh_account = none;
    positions = flat_reply;
    close_succeeds = all_close;
  };
  commands = send_command start (send_command resume no_commands);
  connected = true;
  trail_reply = flat_reply;
  prices = none;
  reconcile_reply = flat_reply;
  loop_time = 100;
  history = no_history;
  now = 432060;
  bar_answers = bar_each_hour;
  bar_of = same_bar;
  refreshed_account = none;
}

abbrev no_baselines : Ticket → Option (Baseline Fixed)
no_baselines t = none

abbrev never : CheckedAt
never id = 0

abbrev halted_loop : Loop Fixed
halted_loop = record {
  engine = record engine { paused = true; guardian = record guardian { halted = true } };
  baselines = no_baselines;
  checked_at = never;
  bar_times = (20, none) ∷ (5, none) ∷ [];
}

run_loop-IsIdle_example : IsIdle (run_loop settings (tempting ∷ tempting ∷ []) halted_loop)
unfolding send_command no_commands
run_loop-IsIdle_example =
    run_loop-IsIdle settings (tempting ∷ tempting ∷ []) halted_loop (refl, (refl, tt)) (refl, refl)
