-- ===== src/Mt5/Connection.antt =====
-- live_trading/mt5/connector.py: the connection to the bridge, and the watchdog that restores it. What
-- the bridge answers and the clock shows is an argument; one coroutine runs at a time. Ids are numbers,
-- `none` the empty text; times are seconds.
use scalping.Prelude.{
  ℕ, zero, suc, ◌+◌, ◌-◌, Bool, true, false, not, ◌&&◌, ◌||◌, Option, none, some, is_some, List, [],
  ◌∷◌, leb, ltb, ◌==◌, if◌then◌else◌,
}
pub mod Held
pub mod Restored
mod Tests

-- The module's state.
pub record Connection : Type 0 where
  pub connected : Bool
  pub conn_id : Option ℕ
  pub has_base_url : Bool
  pub last_connect_time : ℕ

-- MTAPI_URL, MT5_USER and MT5_PASSWORD: whether they are set.
pub record Credentials : Type 0 where
  pub has_url : Bool
  pub has_user : Bool

-- The answer to `ConnectEx` at a time; an id that is too short is `none`.
pub data Reply : Type 0 where
  raised : Reply
  answered : (status : ℕ) (id : Option ℕ) (now : ℕ) → Reply

-- `_CONNECT_GRACE_PERIOD`.
abbrev grace_period : ℕ
grace_period = 150

abbrev lost : Connection → Connection
lost c = record c { connected = false }

abbrev established : (id now : ℕ) → Connection → Connection
established id now c = record c { conn_id = some id; connected = true; last_connect_time = now }

read_reply : Reply → Connection → Connection × Bool
read_reply raised c = (lost c, false)
read_reply (answered s none now) c = (lost c, false)
read_reply (answered s (some id) now) c =
    if s == 200 then (established id now c, true) else (lost c, false)

pub connect : Credentials → Reply → Connection → Connection × Bool
unfolding read_reply
connect k r c =
    if not k.has_url || not k.has_user
    then (c, false)
    else read_reply r (record c { has_base_url = true })

-- The replies to the attempts; the loop ends at the first success.
pub connect_with_retry : Credentials → (replies : List Reply) → Connection → Connection × Bool
unfolding connect
connect_with_retry k [] c = (c, false)
connect_with_retry k (r ∷ rs) c =
    let (c', ok) = connect k r c in
    let rest = connect_with_retry k rs c' in if ok then (c', true) else rest

pub disconnect : Connection → Connection
disconnect c = record c { connected = false; conn_id = none; has_base_url = false }

pub invalidate_connection : Connection → Connection
invalidate_connection c = record c { connected = false; conn_id = none }

abbrev in_grace : (now : ℕ) → Connection → Bool
in_grace now c = c.connected && ltb (now - c.last_connect_time) grace_period

-- What `ConnectionStatus` answers: `isConnected` of a document, false for an exception. Waiting for
-- another coroutine that reconnects is left out.
pub ensure_connected :
    Credentials
    → (now : ℕ) (is_alive : Bool) → (replies : List Reply) → Connection
    → Connection × Bool
ensure_connected k now alive rs c =
    if is_some c.conn_id && in_grace now c
    then (c, true)
    else if is_some c.conn_id && c.has_base_url && alive
    then (record c { connected = true }, true)
    else connect_with_retry k rs (lost c)

-- What the watchdog meets in one round.
pub record Round : Type 0 where
  pub now : ℕ
  pub is_alive : Bool
  pub replies : List Reply

pub record Watchdog : Type 0 where
  pub connection : Connection
  pub consec_failures : ℕ

-- A failed check: only the second in a row gives the connection up.
failed_check : Credentials → Round → Connection → (failures : ℕ) → Watchdog
failed_check k r c n =
    if leb 2 n
    then record {
      connection = (ensure_connected k r.now r.is_alive r.replies (invalidate_connection c)).0;
      consec_failures = 0;
    }
    else record { connection = c; consec_failures = n }

checked : (is_alive : Bool) → Credentials → Round → Connection → (failures : ℕ) → Watchdog
checked true k r c n = record { connection = c; consec_failures = 0 }
checked false k r c n = failed_check k r c n

-- A round of `start_connection_watchdog`.
pub watch : Credentials → Round → Watchdog → Watchdog
watch k r w =
    let c = w.connection in
    if in_grace r.now c
    then w
    else if not c.connected || not (is_some c.conn_id)
    then record w { connection = (ensure_connected k r.now r.is_alive r.replies c).0 }
    else checked r.is_alive k r c (w.consec_failures + 1)

-- What the executor reads.
abbrev pub get_connection : Connection → Bool
get_connection c = c.connected && c.has_base_url

abbrev pub get_conn_id : Connection → Option ℕ
get_conn_id c = if c.connected then c.conn_id else none
