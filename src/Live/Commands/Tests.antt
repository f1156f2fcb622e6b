-- ===== src/Live/Commands/Tests.antt =====
-- Polls of the mailbox on concrete inputs (live_trading/trading/live_loop.py).
use scalping.Prelude.{refl, Bool, true, none, [], ◌∷◌}
use scalping.Float.Fixed.{Fixed, fixed_float}
use scalping.Mt5.Positions.{Ticket}
use scalping.Live.Engine.{Engine}
use scalping.Live.Commands.{Commands, World, no_commands, send_command, resume, start}
use scalping.Live.Commands.Mailbox.{polls, IsStopped, polls-IsStopped}
use scalping.Live.Samples.{engine, guardian, settings, flat_reply}

abbrev all_close : Ticket → Bool
all_close t = true

abbrev world : World Fixed
world = record {
  today = 5;
  now = 432060;
  fresh_account = none;
  positions = flat_reply;
  close_succeeds = all_close;
}

abbrev resume_and_start : Commands Fixed
resume_and_start = send_command start (send_command resume no_commands)

abbrev stopped : Engine Fixed
stopped = record engine { paused = true; guardian = record guardian { halted = true } }

polls-IsStopped_example :
    IsStopped (polls settings ((world, resume_and_start) ∷ (world, resume_and_start) ∷ []) stopped)
unfolding send_command no_commands
polls-IsStopped_example =
    polls-IsStopped settings ((world, resume_and_start) ∷ (world, resume_and_start) ∷ []) stopped
      (refl, (refl, tt)) (refl, refl)
