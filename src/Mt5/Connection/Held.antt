-- ===== src/Mt5/Connection/Held.antt =====
-- What the state of the connection keeps, and how the watchdog restores it
-- (live_trading/mt5/connector.py).
use scalping.Prelude.{
  ℕ, ◌+◌, ◌≡◌, refl, Bool, true, false, not, ◌&&◌, ◌||◌, none, some, is_some, List, [], ◌∷◌, leb,
  ◌==◌, arith, Bool-cases, inl, inr,
}
use scalping.Mt5.Connection.{
  Connection, Credentials, Reply, raised, answered, lost, read_reply, connect, connect_with_retry,
  disconnect, invalidate_connection, in_grace, ensure_connected, Round, Watchdog, failed_check,
  checked, watch, get_connection, get_conn_id,
}

-- A connection that counts as connected has an id and the address of the bridge.
abbrev pub IsHeld : Connection → Type 0
IsHeld c = (not c.connected || is_some c.conn_id && c.has_base_url) ≡ true

read_reply-IsHeld : (r : Reply) (c : Connection) → c.has_base_url ≡ true → IsHeld (read_reply r c).0
unfolding read_reply
read_reply-IsHeld raised c b = refl
read_reply-IsHeld (answered s none now) c b = refl
read_reply-IsHeld (answered s (some id) now) c b = elim (Bool-cases (s == 200)) [
  | inl e ↦ rw e b
  | inr e ↦ rw e refl
]

connect-IsHeld :
    (k : Credentials) (r : Reply) (c : Connection) → IsHeld c → IsHeld (connect k r c).0
unfolding connect
connect-IsHeld k r c h = elim (Bool-cases (not k.has_url || not k.has_user)) [
  | inl e ↦ rw e h
  | inr e ↦ rw e (read_reply-IsHeld r (record c { has_base_url = true }) refl)
]

connect_with_retry-IsHeld :
    (k : Credentials) (rs : List Reply) (c : Connection)
    → IsHeld c
    → IsHeld (connect_with_retry k rs c).0
unfolding connect_with_retry
connect_with_retry-IsHeld k [] c h = h
connect_with_retry-IsHeld k (r ∷ rs) c h =
    let next = connect-IsHeld k r c h in
    elim (Bool-cases (connect k r c).1) [
      | inl e ↦ rw e next
      | inr e ↦ rw e (connect_with_retry-IsHeld k rs (connect k r c).0 next)
    ]

ensure_connected-IsHeld :
    (k : Credentials) (now : ℕ) (alive : Bool) (rs : List Reply) (c : Connection)
    → IsHeld c
    → IsHeld (ensure_connected k now alive rs c).0
unfolding ensure_connected
ensure_connected-IsHeld k now alive rs c h =
    elim (Bool-cases (is_some c.conn_id && in_grace now c)) [
      | inl e ↦ rw e h
      | inr e ↦ rw e (elim (Bool-cases (is_some c.conn_id && c.has_base_url && alive)) [
        | inl g ↦ rw g (ground arith)
        | inr g ↦ rw g (connect_with_retry-IsHeld k rs (lost c) refl)
      ])
    ]

failed_check-IsHeld :
    (k : Credentials) (r : Round) (c : Connection) (n : ℕ)
    → IsHeld c
    → IsHeld (failed_check k r c n).connection
unfolding failed_check invalidate_connection
failed_check-IsHeld k r c n h = elim (Bool-cases (leb 2 n)) [
  | inl e ↦
      rw e (ensure_connected-IsHeld k r.now r.is_alive r.replies (invalidate_connection c) refl)
  | inr e ↦ rw e h
]

checked-IsHeld :
    (alive : Bool) (k : Credentials) (r : Round) (c : Connection) (n : ℕ)
    → IsHeld c
    → IsHeld (checked alive k r c n).connection
unfolding checked
checked-IsHeld true k r c n h = h
checked-IsHeld false k r c n h = failed_check-IsHeld k r c n h

watch-IsHeld :
    (k : Credentials) (r : Round) (w : Watchdog)
    → IsHeld w.connection
    → IsHeld (watch k r w).connection
unfolding watch
watch-IsHeld k r w h =
    let c = w.connection in
    elim (Bool-cases (in_grace r.now c)) [
      | inl e ↦ rw e h
      | inr e ↦ rw e (elim (Bool-cases (not c.connected || not (is_some c.conn_id))) [
        | inl g ↦ rw g (ensure_connected-IsHeld k r.now r.is_alive r.replies c h)
        | inr g ↦ rw g (checked-IsHeld r.is_alive k r c (w.consec_failures + 1) h)
      ])
    ]

-- A call of the engine, or a round of the watchdog.
pub data Call : Type 0 where
  connects : Reply → Call
  ensures : (now : ℕ) (is_alive : Bool) (replies : List Reply) → Call
  invalidates disconnects : Call
  watches : Round → Call

call : Credentials → Call → Watchdog → Watchdog
call k (connects r) w = record w { connection = (connect k r w.connection).0 }
call k (ensures now alive rs) w = record w {
  connection = (ensure_connected k now alive rs w.connection).0;
}
call k invalidates w = record w { connection = invalidate_connection w.connection }
call k disconnects w = record w { connection = disconnect w.connection }
call k (watches r) w = watch k r w

pub calls : Credentials → List Call → Watchdog → Watchdog
unfolding call
calls k [] w = w
calls k (x ∷ xs) w = calls k xs (call k x w)

call-IsHeld :
    (k : Credentials) (x : Call) (w : Watchdog)
    → IsHeld w.connection
    → IsHeld (call k x w).connection
unfolding call invalidate_connection disconnect
call-IsHeld k (connects r) w h = connect-IsHeld k r w.connection h
call-IsHeld k (ensures now alive rs) w h = ensure_connected-IsHeld k now alive rs w.connection h
call-IsHeld k invalidates w h = refl
call-IsHeld k disconnects w h = refl
call-IsHeld k (watches r) w h = watch-IsHeld k r w h

calls-IsHeld :
    (k : Credentials) (xs : List Call) (w : Watchdog)
    → IsHeld w.connection
    → IsHeld (calls k xs w).connection
unfolding calls
calls-IsHeld k [] w h = h
calls-IsHeld k (x ∷ xs) w h = calls-IsHeld k xs (call k x w) (call-IsHeld k x w h)

-- The executor finds an address exactly if it finds an id: no order can be sent with one alone.
pub get_connection-calls :
    (k : Credentials) (xs : List Call) (w : Watchdog)
    → IsHeld w.connection
    → let c = (calls k xs w).connection in get_connection c ≡ is_some (get_conn_id c)
get_connection-calls k xs w h = let held = calls-IsHeld k xs w h in ground (held, arith)
