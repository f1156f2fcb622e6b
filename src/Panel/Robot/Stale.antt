-- ===== src/Panel/Robot/Stale.antt =====
-- A state that telegram_panel/services/robot_service.py shows as alive has a recent heartbeat.
use scalping.Prelude.{
  ℕ, ◌+◌, ◌≤◌, ◌≡◌, refl, Bool, true, false, ◌||◌, Option, none, some, List, [], ◌∷◌, arith,
  Bool-cases, inl, inr,
}
use scalping.Panel.Robot.{
  RobotStatus, ConnectionStatus, connected, HeartbeatField, null, unreadable, at, State,
  default_state, offline, is_fresh, apply_staleness_guard, permission_of, normalize_state, Mode,
  Sources, read_raw, RobotService, is_cached, read_state, robot_status, connection_of, get_status,
  get_connection_status, get_mt5_status, get_trade_permission, is_running,
}

abbrev is_connected : ConnectionStatus → Bool
is_connected connected = true
is_connected _ = false

-- The engine is shown as working, or as connected to the bridge or the broker.
abbrev pub is_online : State → Bool
is_online s =
    is_running s || is_connected (get_connection_status s) || is_connected (get_mt5_status s)

abbrev pub new_service : Mode → RobotService
new_service mode = record { mode = mode; cached_state = default_state; cache_ts = none }

-- Reads at times of the event loop, from which the time of the day differs by a constant.
unfoldable pub reads : (offset : ℕ) → List (ℕ × Sources) → RobotService → RobotService
reads k [] s = s
reads k ((t, w) ∷ rs) s = reads k rs (read_state t (t + k) w s).0

abbrev shown : (now : ℕ) → State → State
shown now s = normalize_state (apply_staleness_guard now s)

shown_heartbeat : (now : ℕ) (s : State) → (shown now s).last_heartbeat ≡ s.last_heartbeat
unfolding normalize_state apply_staleness_guard
shown_heartbeat now s = ground arith

offline_online : (s : State) → is_online (normalize_state (offline s)) ≡ false
unfolding normalize_state robot_status connection_of
offline_online s = refl

shown_online :
    (now : ℕ) (s : State)
    → is_online (shown now s) ≡ true
    → is_fresh now (shown now s).last_heartbeat ≡ true
shown_online now s on = elim (Bool-cases (is_fresh now s.last_heartbeat)) [
  | inl f ↦ rw (shown_heartbeat now s) f
  | inr f ↦
      let down : is_online (shown now s) ≡ false =
        unfold apply_staleness_guard in rw f (offline_online s) in
      cc (down, on)
]

-- What is cached and shown as alive was fresh when it was read.
abbrev IsHonest : (offset : ℕ) → RobotService → Type 0
IsHonest k s =
    (ts : ℕ)
    → s.cache_ts ≡ some ts
    → is_online s.cached_state ≡ true
    → is_fresh (ts + k) s.cached_state.last_heartbeat ≡ true

read_state-IsHonest :
    (k t : ℕ) (w : Sources) (s : RobotService)
    → IsHonest k s
    → IsHonest k (read_state t (t + k) w s).0
unfolding read_state
read_state-IsHonest k t w s h = elim (Bool-cases (is_cached t s.cache_ts)) [
  | inl e ↦ rw e h
  | inr e ↦ rw e (λ ts ht on.
      let same : t ≡ ts = cc ht in rw (← same) (shown_online (t + k) (read_raw s.mode w) on))
]

reads-IsHonest :
    (k : ℕ) (rs : List (ℕ × Sources)) (s : RobotService) → IsHonest k s → IsHonest k (reads k rs s)
unfolding reads
reads-IsHonest k [] s h = h
reads-IsHonest k ((t, w) ∷ rs) s h =
    reads-IsHonest k rs (read_state t (t + k) w s).0 (read_state-IsHonest k t w s h)

fresh_time :
    (now : ℕ) (f : HeartbeatField)
    → is_fresh now f ≡ true
    → (hb : ℕ) × (f ≡ at hb) × (now ≤ hb + 180)
fresh_time now null h = cc
fresh_time now unreadable h = cc
fresh_time now (at t) h = (t, refl, ground arith)

cached_time :
    (t : ℕ) (o : Option ℕ) → is_cached t o ≡ true → (ts : ℕ) × (o ≡ some ts) × (t + 1 ≤ ts + 5)
cached_time t none h = cc
cached_time t (some ts) h = (ts, refl, ground arith)

-- After any earlier reads from a new service on, whatever Redis, the file and HTTP hold: a state that is
-- read and shows the engine as working, or connected to the bridge or the broker, has a heartbeat at
-- most 185 seconds before the time of the read, its age limit and the life of the cache together.
pub read_state_online :
    (mode : Mode) (offset : ℕ) (earlier : List (ℕ × Sources)) (t : ℕ) (w : Sources)
    → is_online (read_state t (t + offset) w (reads offset earlier (new_service mode))).1 ≡ true
    → (hb : ℕ) × ((read_state t
          (t + offset)
          w
          (reads offset earlier (new_service mode))).1.last_heartbeat
        ≡ at hb)
      × (t + offset ≤ hb + 185)
unfolding read_state
read_state_online mode k rs t w on =
    let s = reads k rs (new_service mode) in
    let honest : IsHonest k s = reads-IsHonest k rs (new_service mode) (λ ts ht on. cc ht) in
    elim (Bool-cases (is_cached t s.cache_ts)) [
      | inl e ↦
          let (ts, at_ts, recent) = cached_time t s.cache_ts e in
          let (hb, is_at, old) =
            fresh_time (ts + k) s.cached_state.last_heartbeat (honest ts at_ts (rw e at on)) in
          (hb, rw e is_at, omega arith)
      | inr e ↦
          let (hb, is_at, old) =
            fresh_time (t + k) (shown (t + k) (read_raw s.mode w)).last_heartbeat
              (shown_online (t + k) (read_raw s.mode w) (rw e at on)) in
          (hb, rw e is_at, omega arith)
    ]

-- A state that is read anew, and whose heartbeat is missing, unreadable or older than 180 seconds: all
-- three of its statuses are DISCONNECTED and it is marked as not fresh, but the permission to trade stays
-- the one that was read, however old.
pub read_state_stale :
    (t now : ℕ) (w : Sources) (s : RobotService)
    → is_cached t s.cache_ts ≡ false
    → is_fresh now (read_raw s.mode w).last_heartbeat ≡ false
    → let state = (read_state t now w s).1 in
      (get_status state ≡ RobotStatus.disconnected)
      × (get_connection_status state ≡ ConnectionStatus.disconnected)
      × (get_mt5_status state ≡ ConnectionStatus.disconnected)
      × (state.data_fresh ≡ false)
      × ((get_trade_permission state).allowed
          ≡ (permission_of (read_raw s.mode w).trade_permission).allowed)
unfolding read_state apply_staleness_guard normalize_state permission_of robot_status connection_of
read_state_stale t now w s anew stale = rw (anew, stale) (refl, refl, refl, refl, refl)
