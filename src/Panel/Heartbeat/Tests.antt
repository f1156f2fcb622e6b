-- ===== src/Panel/Heartbeat/Tests.antt =====
-- Rounds of the heartbeat monitor (telegram_panel/core/heartbeat.py).
use scalping.Prelude.{ℕ, ◌≡◌, refl, not, ◌&&◌, Option, none, some, List, [], ◌∷◌}
use scalping.Panel.Robot.{RobotStatus, ConnectionStatus, Mode, Sources, read_raw, read_state}
use scalping.Panel.Robot.Stale.{new_service}
use scalping.Panel.Heartbeat.{
  Position, Poll, connection_lost, heartbeat, trade_opened, HeartbeatMonitor, trade_events, check,
  loop, member, new_monitor,
}
use scalping.Panel.Heartbeat.Announced.{AllDistinct, announced, readings, first_shows, later_shows}
use scalping.Panel.Heartbeat.Once.{loop_announced}
use scalping.Panel.Heartbeat.Silent.{poll_of, check_stale}

abbrev row : ℕ → Position ℕ
row t = record { ticket = some t; details = t }

abbrev poll : ℕ → Option (List (Position ℕ)) → Option (Poll ℕ)
poll now ps = some (record {
  status = RobotStatus.running;
  connection = ConnectionStatus.connected;
  now = now;
  positions = ps;
})

-- Ticket 1 is open before; ticket 2 comes twice in one reading, and is missing from one reading.
abbrev checks : List (Option (Poll ℕ))
checks =
    poll 0 (some (row 1 ∷ []))
    ∷ poll 30 (some (row 2 ∷ row 1 ∷ row 2 ∷ []))
    ∷ none
    ∷ poll 90 (some [])
    ∷ poll 600 (some (row 2 ∷ record { ticket = none; details = 0 } ∷ []))
    ∷ []

events : (loop checks (new_monitor 600)).1 ≡ heartbeat 0 ∷ trade_opened 2 2 ∷ heartbeat 600 ∷ []
unfolding loop
events = refl

loop_announced_example :
    let tickets = announced (loop checks (new_monitor 600)).1 in
    AllDistinct tickets
    × ((t : ℕ)
        → member t tickets
          ≡ (later_shows t (readings checks) && not (first_shows t (readings checks))))
loop_announced_example = loop_announced 600 checks

-- Nothing is in Redis, in the file or on the page.
abbrev nothing : Sources
nothing = record { redis_state = none; file_state = none; http_state = none }

abbrev watching : HeartbeatMonitor
watching = record (new_monitor 600) {
  last_status = some RobotStatus.running;
  last_connection = some ConnectionStatus.connected;
}

check_stale_example :
    (check
      (poll_of (read_state 9 500 nothing (new_service Mode.redis)).1 500 (some (row 1 ∷ [])))
      watching).1
    ≡ connection_lost ∷ (trade_events (some (row 1 ∷ [])) none).1
unfolding read_raw
check_stale_example =
    check_stale 9 500 nothing (new_service Mode.redis) watching ConnectionStatus.connected
      (some (row 1 ∷ [])) refl refl refl refl
