-- ===== src/Panel/Robot/Tests.antt =====
-- Runs of telegram_panel/services/robot_service.py.
use scalping.Prelude.{
  ℕ, ◌+◌, ◌≤◌, ◌≡◌, refl, true, false, not, ◌&&◌, ◌||◌, none, some, [], ◌∷◌, arith,
}
use scalping.Prelude.Text.{codes}
use scalping.Float.Fixed.{Fixed}
use scalping.Live.Commands.{emergency_stop, no_commands}
use scalping.Server.Command.{
  Mailboxes, command_authorized, command, read_body, accept, read_mailboxes,
}
use scalping.Panel.Robot.{
  fields, at, Document, Mode, Sources, read_raw, read_state, apply_staleness_guard, normalize_state,
  permission_of, robot_status, get_trade_permission,
}
use scalping.Panel.Robot.Stale.{new_service, reads, read_state_online}
use scalping.Panel.Robot.Delivery.{
  Channels, send_panel_command, deliver, fall_back, send_command_http, send_panel_command-stop,
}

-- The engine writes its statuses in capitals.
abbrev document : ℕ → Document
document t = record {
  status = some (codes "RUNNING");
  connection_status = some (codes "CONNECTED");
  mt5_status = none;
  last_heartbeat = some (at t);
  trade_permission = some (fields (some true) (some (codes "ORDER_PLACED")) (some []));
  others_default = false;
}

abbrev sources : ℕ → Sources
sources t = record { redis_state = some (document t); file_state = none; http_state = none }

read_state_online_example :
    (hb : ℕ) × ((read_state 23 1023
        (sources 1020)
        (reads 1000 ((20, sources 1015) ∷ []) (new_service Mode.redis))).1.last_heartbeat
      ≡ at hb)
    × (23 + 1000 ≤ hb + 185)
unfolding read_state reads read_raw apply_staleness_guard normalize_state robot_status
read_state_online_example =
    read_state_online Mode.redis 1000 ((20, sources 1015) ∷ []) 23 (sources 1020) refl

-- Permission is still granted by a state of the time before.
stale_permission :
    (get_trade_permission (read_state 20 2000 (sources 1015) (new_service Mode.redis)).1).allowed
    ≡ true
unfolding read_state read_raw apply_staleness_guard normalize_state permission_of
stale_permission = refl

-- The panel does not reach Redis, the engine does, and its page answers.
abbrev channels : Channels
channels = record {
  panel_redis = false;
  has_base_url = true;
  panel_token = codes "s3cret";
  engine_token = codes "s3cret";
  arrives = true;
  engine_redis = true;
  engine_file = true;
  panel_file = true;
  shares_disk = false;
  now = 100;
}

abbrev boxes : Mailboxes Fixed
boxes = record { mailbox = no_commands; queue = [] }

send_panel_command-stop_example :
    (read_mailboxes true 110 300
      (send_panel_command channels emergency_stop (new_service Mode.redis) boxes).1).stop
    ≡ (false || not true && (false || (send_command_http channels emergency_stop boxes).1))
unfolding no_commands send_panel_command deliver fall_back send_command_http command
    command_authorized read_body accept read_mailboxes
send_panel_command-stop_example =
    send_panel_command-stop channels (new_service Mode.redis) boxes 110 300 refl refl (omega arith)
      refl
