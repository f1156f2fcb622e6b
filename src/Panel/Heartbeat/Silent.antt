-- ===== src/Panel/Heartbeat/Silent.antt =====
-- What telegram_panel/core/heartbeat.py tells of an engine that stops writing its state.
use scalping.Prelude.{ℕ, ◌≡◌, false, Option, some, List, ◌∷◌, arith}
use scalping.Panel.Robot.{
  RobotStatus, ConnectionStatus, State, Sources, read_raw, RobotService, is_cached, is_fresh,
  read_state, get_status, get_connection_status,
}
use scalping.Panel.Robot.Stale.{read_state_stale}
use scalping.Panel.Heartbeat.{
  Position, Poll, connection_lost, HeartbeatMonitor, same_connection, status_events,
  connection_events, trade_events, check,
}

-- The poll that `_check` makes of a state.
abbrev pub poll_of {ℓ} : {D : Type ℓ} → State → ℕ → Option (List (Position D)) → Poll D
poll_of s now ps = record {
  status = get_status s;
  connection = get_connection_status s;
  now = now;
  positions = ps;
}

module _ {ℓ} {D : Type ℓ} where
  check-disconnected :
      (p : Poll D) (m : HeartbeatMonitor) (last : ConnectionStatus)
      → p.status ≡ RobotStatus.disconnected
      → p.connection ≡ ConnectionStatus.disconnected
      → m.last_connection ≡ some last
      → same_connection ConnectionStatus.disconnected last ≡ false
      → (check p m).1 ≡ connection_lost ∷ (trade_events p.positions m.known_position_tickets).1
  unfolding check status_events connection_events
  check-disconnected p m last a b c d = ground arith

  -- The engine's state is read anew and its heartbeat is missing, unreadable or older than 180 seconds,
  -- and the connection was another one than DISCONNECTED at the last check: the check tells that the
  -- connection is lost, and, besides trades, nothing else, neither that the robot stopped nor an error
  -- nor a heartbeat.
  pub check_stale :
      (t now : ℕ) (w : Sources) (s : RobotService) (m : HeartbeatMonitor) (last : ConnectionStatus)
      (positions : Option (List (Position D)))
      → is_cached t s.cache_ts ≡ false
      → is_fresh now (read_raw s.mode w).last_heartbeat ≡ false
      → m.last_connection ≡ some last
      → same_connection ConnectionStatus.disconnected last ≡ false
      → (check (poll_of (read_state t now w s).1 now positions) m).1
        ≡ connection_lost ∷ (trade_events positions m.known_position_tickets).1
  check_stale t now w s m last positions anew stale known changed =
      let (status, connection, _, _, _) = read_state_stale t now w s anew stale in
      check-disconnected (poll_of (read_state t now w s).1 now positions) m last status connection
        known changed
