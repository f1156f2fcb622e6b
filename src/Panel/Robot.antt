-- ===== src/Panel/Robot.antt =====
-- telegram_panel/services/robot_service.py: what the panel makes of the state that the engine publishes.
-- Times are seconds. A document that could not be fetched or parsed is `none`; a status that is no text
-- counts as a text that names no status.
use scalping.Prelude.{
  ℕ, ◌+◌, ◌-◌, Bool, true, false, not, ◌&&◌, ◌||◌, Option, none, some, List, [], ◌∷◌, ltb, leb,
  or_else, if◌then◌else◌,
}
use scalping.Prelude.Text.{Text, codes, eq_text, lower, is_blank}
pub mod Stale
pub mod Delivery
mod Tests

-- `RobotStatus` and `ConnectionStatus` of telegram_panel/config/constants.py.
pub data RobotStatus : Type 0 where
  running paused stopped error starting stopping restarting : RobotStatus
  waiting scanning holding disconnected : RobotStatus

pub data ConnectionStatus : Type 0 where
  connected disconnected reconnecting failed : ConnectionStatus

pub record TradePermission : Type 0 where
  pub allowed : Bool
  pub stage : Text
  pub reasons : List Text

-- "trade_permission": its fields may be missing.
pub data PermissionField : Type 0 where
  other : PermissionField
  fields : Option Bool → Option Text → Option (List Text) → PermissionField

-- "last_heartbeat".
pub data HeartbeatField : Type 0 where
  null unreadable : HeartbeatField
  at : ℕ → HeartbeatField

-- A document that was fetched: `none` is a missing key. The last field says whether the keys that are
-- left out have their defaults.
pub record Document : Type 0 where
  pub status : Option Text
  pub connection_status : Option Text
  pub mt5_status : Option Text
  pub last_heartbeat : Option HeartbeatField
  pub trade_permission : Option PermissionField
  pub others_default : Bool

-- The state of the panel, `_data_fresh` included.
pub record State : Type 0 where
  pub status : Text
  pub connection_status : Text
  pub mt5_status : Text
  pub last_heartbeat : HeartbeatField
  pub trade_permission : PermissionField
  pub others_default : Bool
  pub data_fresh : Bool

abbrev pub default_reason : Text
default_reason = codes "No live entry gate evaluation yet"

abbrev pub default_permission : PermissionField
default_permission = fields (some false) (some (codes "NOT_EVALUATED")) (some (default_reason ∷ []))

-- `_DEFAULT_STATE`.
abbrev pub default_state : State
default_state = record {
  status = codes "stopped";
  connection_status = codes "disconnected";
  mt5_status = codes "disconnected";
  last_heartbeat = null;
  trade_permission = default_permission;
  others_default = true;
  data_fresh = false;
}

-- `{**_DEFAULT_STATE, **data}`.
abbrev pub with_defaults : Document → State
with_defaults d = record {
  status = or_else d.status default_state.status;
  connection_status = or_else d.connection_status default_state.connection_status;
  mt5_status = or_else d.mt5_status default_state.mt5_status;
  last_heartbeat = or_else d.last_heartbeat null;
  trade_permission = or_else d.trade_permission default_permission;
  others_default = d.others_default;
  data_fresh = false;
}

abbrev is_null : HeartbeatField → Bool
is_null null = true
is_null _ = false

abbrev is_default_permission : PermissionField → Bool
is_default_permission (fields (some false) (some s) (some (r ∷ []))) =
    eq_text s (codes "NOT_EVALUATED") && eq_text r default_reason
is_default_permission _ = false

-- `state == _DEFAULT_STATE`.
is_default_state : State → Bool
is_default_state s =
    eq_text s.status default_state.status
    && eq_text s.connection_status default_state.connection_status
    && eq_text s.mt5_status default_state.mt5_status
    && is_null s.last_heartbeat
    && is_default_permission s.trade_permission
    && s.others_default

-- `_STALE_THRESHOLD_SECONDS`.
abbrev pub stale_threshold : ℕ
stale_threshold = 180

abbrev pub offline : State → State
offline s = record s {
  status = codes "disconnected";
  connection_status = codes "disconnected";
  mt5_status = codes "disconnected";
  data_fresh = false;
}

-- The age is at most the threshold; a heartbeat of the future is fresh.
abbrev pub is_fresh : (now : ℕ) → HeartbeatField → Bool
is_fresh now (at t) = leb now (t + stale_threshold)
is_fresh now _ = false

pub apply_staleness_guard : (now : ℕ) → State → State
apply_staleness_guard now s =
    if is_fresh now s.last_heartbeat then record s { data_fresh = true } else offline s

with_reasons : List Text → List Text
with_reasons [] = []
with_reasons (r ∷ rs) = let rest = with_reasons rs in if is_blank r then rest else r ∷ rest

-- `get_trade_permission`, and the same in `_normalize_state`.
pub permission_of : PermissionField → TradePermission
unfolding with_reasons
permission_of other = record {
  allowed = false;
  stage = codes "NOT_EVALUATED";
  reasons = default_reason ∷ [];
}
permission_of (fields allowed stage reasons) = record {
  allowed = or_else allowed false;
  stage = or_else stage (codes "NOT_EVALUATED");
  reasons = with_reasons (or_else reasons []);
}

abbrev fields_of : TradePermission → PermissionField
fields_of p = fields (some p.allowed) (some p.stage) (some p.reasons)

pub normalize_state : State → State
unfolding permission_of
normalize_state s = record s {
  status = lower s.status;
  connection_status = lower s.connection_status;
  mt5_status = lower s.mt5_status;
  trade_permission = fields_of (permission_of s.trade_permission);
}

-- `interface_mode`.
pub data Mode : Type 0 where
  file http redis unknown : Mode

-- What Redis, the file and the page of the engine hold when they are asked.
pub record Sources : Type 0 where
  pub redis_state : Option Document
  pub file_state : Option Document
  pub http_state : Option Document

abbrev read_source : Option Document → State
read_source none = default_state
read_source (some d) = with_defaults d

-- HTTP, and the file as the last resort.
read_http : Sources → State
unfolding is_default_state
read_http w =
    let answer = read_source w.http_state in
    let from_file = read_source w.file_state in
    if is_default_state answer && not (is_default_state from_file) then from_file else answer

-- Without a document in Redis, by the mode.
read_mode : Mode → Sources → State
unfolding read_http
read_mode file w = read_source w.file_state
read_mode http w = read_http w
read_mode redis w = read_http w
read_mode unknown w = default_state

unfoldable pub read_raw : Mode → Sources → State
unfolding read_mode
read_raw mode w = elim w.redis_state [ none ↦ read_mode mode w | some d ↦ with_defaults d ]

-- `RobotService`: its cache, and the time of the event loop at which it was filled.
pub record RobotService : Type 0 where
  pub mode : Mode
  pub cached_state : State
  pub cache_ts : Option ℕ

-- `_cache_ttl`.
abbrev pub cache_ttl : ℕ
cache_ttl = 5

-- A time that is 0 counts as no time.
abbrev pub is_cached : (loop_time : ℕ) → Option ℕ → Bool
is_cached t none = false
is_cached t (some ts) = ltb 0 ts && ltb t (ts + cache_ttl)

-- `_read_state`, at a time of the event loop and a time of the day.
pub read_state : (loop_time now : ℕ) → Sources → RobotService → RobotService × State
unfolding read_raw apply_staleness_guard normalize_state
read_state t now w s =
    if is_cached t s.cache_ts
    then (s, s.cached_state)
    else let state = normalize_state (apply_staleness_guard now (read_raw s.mode w)) in
      (record s { cached_state = state; cache_ts = some t }, state)

-- `RobotStatus(raw)`, or STOPPED.
pub robot_status : Text → RobotStatus
robot_status t =
    if eq_text t (codes "running")
    then running
    else if eq_text t (codes "paused")
    then paused
    else if eq_text t (codes "error")
    then error
    else if eq_text t (codes "starting")
    then starting
    else if eq_text t (codes "stopping")
    then stopping
    else if eq_text t (codes "restarting")
    then restarting
    else if eq_text t (codes "waiting")
    then waiting
    else if eq_text t (codes "scanning")
    then scanning
    else if eq_text t (codes "holding")
    then holding
    else if eq_text t (codes "disconnected")
    then disconnected
    else stopped

-- `ConnectionStatus(raw)`, or DISCONNECTED.
pub connection_of : Text → ConnectionStatus
connection_of t =
    if eq_text t (codes "connected")
    then connected
    else if eq_text t (codes "reconnecting")
    then reconnecting
    else if eq_text t (codes "failed")
    then failed
    else disconnected

abbrev pub get_status : State → RobotStatus
get_status s = robot_status s.status

abbrev pub get_connection_status : State → ConnectionStatus
get_connection_status s = connection_of s.connection_status

abbrev pub get_mt5_status : State → ConnectionStatus
get_mt5_status s = connection_of s.mt5_status

abbrev pub get_trade_permission : State → TradePermission
get_trade_permission s = permission_of s.trade_permission

abbrev pub is_active : RobotStatus → Bool
is_active running = true
is_active scanning = true
is_active waiting = true
is_active holding = true
is_active _ = false

abbrev pub is_running : State → Bool
is_running s = is_active (get_status s)
