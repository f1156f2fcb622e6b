-- ===== src/Live/Commands/Queue/Tests.antt =====
-- Runs of `read_commands` of live_trading/utils/state_writer.py.
use scalping.Prelude.{◌≡◌, refl, none, some, List, [], ◌∷◌}
use scalping.Float.Fixed.{Fixed}
use scalping.Live.Commands.{pause, emergency_stop, update_strategy, no_commands, send_command}
use scalping.Live.Commands.Queue.{
  Queued, mark, mark_if, read_item, read_from, read_commands, asks, stops, pauses,
  read_commands_fresh,
}

-- A stale stop, a pause without a time, and a change of strategy.
abbrev queue : List (Queued Fixed)
queue =
    record { command = some emergency_stop; issued_at = some 100 }
    ∷ record { command = some pause; issued_at = none }
    ∷ record { command = some (update_strategy none); issued_at = some 990 }
    ∷ []

only_pause : read_commands 1000 300 queue ≡ send_command pause no_commands
unfolding read_commands read_from read_item mark_if mark send_command no_commands
only_pause = refl

read_commands_fresh_example :
    let m = read_commands 1000 300 queue in
    (m.stop ≡ asks 1000 300 stops queue)
    × (m.pause ≡ asks 1000 300 pauses queue)
    × (m.update_risk ≡ none)
    × (m.update_strategy ≡ none)
read_commands_fresh_example = read_commands_fresh 1000 300 queue
