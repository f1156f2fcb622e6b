-- ===== src/Panel/Heartbeat.antt =====
-- telegram_panel/core/heartbeat.py: what the panel announces of the engine and its trades. Times are
-- seconds; the texts that events carry are left out.
use scalping.Prelude.{
  ℕ, ◌+◌, Bool, true, false, not, ◌&&◌, ◌||◌, Option, none, some, List, [], ◌∷◌, ◌++◌, leb, ◌==◌,
  if◌then◌else◌,
}
use scalping.Panel.Robot.{RobotStatus, ConnectionStatus, running, paused, stopped, error, connected}
pub mod Announced
pub mod Once
pub mod Silent
mod Tests

-- An open position: a ticket that is None or 0 is `none`. What else a position says is any data.
pub record Position {ℓ} (D : Type ℓ) : Type ℓ where
  pub ticket : Option ℕ
  pub details : D

-- What the robot service and the bridge answer in one check; positions are `none` if there is no
-- `mt5_service` or it raises.
pub record Poll {ℓ} (D : Type ℓ) : Type ℓ where
  pub status : RobotStatus
  pub connection : ConnectionStatus
  pub now : ℕ
  pub positions : Option (List (Position D))

pub data Event {ℓ} (D : Type ℓ) : Type ℓ where
  robot_error robot_started robot_stopped robot_paused : Event D
  connection_lost connection_restored : Event D
  heartbeat : (now : ℕ) → Event D
  trade_opened : (ticket : ℕ) → D → Event D

-- `HeartbeatMonitor`; the set of known tickets is a list.
pub record HeartbeatMonitor : Type 0 where
  pub hb_interval : ℕ
  pub last_status : Option RobotStatus
  pub last_connection : Option ConnectionStatus
  pub last_hb_notify : Option ℕ
  pub known_position_tickets : Option (List ℕ)

abbrev same_status : RobotStatus → RobotStatus → Bool
same_status running running = true
same_status paused paused = true
same_status stopped stopped = true
same_status error error = true
same_status RobotStatus.starting RobotStatus.starting = true
same_status RobotStatus.stopping RobotStatus.stopping = true
same_status RobotStatus.restarting RobotStatus.restarting = true
same_status RobotStatus.waiting RobotStatus.waiting = true
same_status RobotStatus.scanning RobotStatus.scanning = true
same_status RobotStatus.holding RobotStatus.holding = true
same_status RobotStatus.disconnected RobotStatus.disconnected = true
same_status _ _ = false

abbrev same_connection : ConnectionStatus → ConnectionStatus → Bool
same_connection connected connected = true
same_connection ConnectionStatus.disconnected ConnectionStatus.disconnected = true
same_connection ConnectionStatus.reconnecting ConnectionStatus.reconnecting = true
same_connection ConnectionStatus.failed ConnectionStatus.failed = true
same_connection _ _ = false

abbrev pub member : ℕ → List ℕ → Bool
member t [] = false
member t (u ∷ us) = t == u || member t us

abbrev is_on : RobotStatus → Bool
is_on running = true
is_on _ = false

-- A start of the engine restarts the interval of heartbeats.
abbrev restarts : Option RobotStatus → RobotStatus → Bool
restarts none now = false
restarts (some last) now = is_on now && not (same_status now last)

abbrev is_due : (hb_interval now : ℕ) → Option ℕ → Bool
is_due i now none = true
is_due i now (some last) = leb (last + i) now

module _ {ℓ} {D : Type ℓ} where
  abbrev status_event : RobotStatus → List (Event D)
  status_event error = robot_error ∷ []
  status_event running = robot_started ∷ []
  status_event stopped = robot_stopped ∷ []
  status_event paused = robot_paused ∷ []
  status_event _ = []

  -- A change of the status, if one was known before.
  pub status_events : Option RobotStatus → RobotStatus → List (Event D)
  status_events none now = []
  status_events (some last) now = if same_status now last then [] else status_event now

  abbrev connection_event : ConnectionStatus → List (Event D)
  connection_event connected = connection_restored ∷ []
  connection_event ConnectionStatus.disconnected = connection_lost ∷ []
  connection_event _ = []

  pub connection_events : Option ConnectionStatus → ConnectionStatus → List (Event D)
  connection_events none now = []
  connection_events (some last) now = if same_connection now last then [] else connection_event now

  abbrev beats : HeartbeatMonitor → Poll D → Option ℕ → Bool
  beats m p last = is_on p.status && is_due m.hb_interval p.now last

  -- The rows with a ticket.
  pub valid : List (Position D) → List (ℕ × D)
  valid [] = []
  valid (p ∷ ps) =
      let rest = valid ps in elim p.ticket [ none ↦ rest | some t ↦ (t, p.details) ∷ rest ]

  abbrev pub tickets : List (ℕ × D) → List ℕ
  tickets [] = []
  tickets ((t, d) ∷ ps) = t ∷ tickets ps

  -- The rows of tickets that are neither known nor announced in this check.
  pub announce : (known notified : List ℕ) → List (ℕ × D) → List (Event D)
  announce known notified [] = []
  announce known notified ((t, d) ∷ ps) =
      let new = not (member t known) && not (member t notified) in
      let rest = announce known (if new then t ∷ notified else notified) ps in
      if new then trade_opened t d ∷ rest else rest

  -- The first reading is not announced. Known tickets are never forgotten.
  pub trade_events : Option (List (Position D)) → Option (List ℕ) → Option (List ℕ) × List (Event D)
  unfolding valid announce
  trade_events none known = (known, [])
  trade_events (some ps) none = (some (tickets (valid ps)), [])
  trade_events (some ps) (some known) =
      (some (known ++ tickets (valid ps)), announce known [] (valid ps))

  -- `_check`.
  pub check : Poll D → HeartbeatMonitor → HeartbeatMonitor × List (Event D)
  unfolding status_events connection_events trade_events
  check p m =
      let last = if restarts m.last_status p.status then some p.now else m.last_hb_notify in
      let beat = beats m p last in
      let (known, opened) = trade_events p.positions m.known_position_tickets in
      (
        record m {
          last_status = some p.status;
          last_connection = some p.connection;
          last_hb_notify = if beat then some p.now else last;
          known_position_tickets = known;
        },
        status_events m.last_status p.status
            ++ (connection_events m.last_connection p.connection
                ++ ((if beat then heartbeat p.now ∷ [] else []) ++ opened)),
      )

  -- A check in which the robot service raises is skipped.
  pub check_if : Option (Poll D) → HeartbeatMonitor → HeartbeatMonitor × List (Event D)
  unfolding check
  check_if none m = (m, [])
  check_if (some p) m = check p m

  -- `_loop`: the events of its rounds in order.
  unfoldable pub loop :
      List (Option (Poll D)) → HeartbeatMonitor → HeartbeatMonitor × List (Event D)
  unfolding check_if
  loop [] m = (m, [])
  loop (p ∷ ps) m = let (m', es) = check_if p m in let (m'', es') = loop ps m' in (m'', es ++ es')

abbrev pub new_monitor : (hb_interval : ℕ) → HeartbeatMonitor
new_monitor i = record {
  hb_interval = i;
  last_status = none;
  last_connection = none;
  last_hb_notify = none;
  known_position_tickets = none;
}
