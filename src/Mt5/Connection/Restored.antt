-- ===== src/Mt5/Connection/Restored.antt =====
-- The watchdog of live_trading/mt5/connector.py restores a connection that is lost.
use scalping.Prelude.{ℕ, ◌≡◌, refl, ap, ◌∙◌, true, false, some, is_some, List, ◌∷◌, arith, ◌+◌}
use scalping.Mt5.Connection.{
  Connection, Credentials, Reply, answered, read_reply, connect, connect_with_retry,
  invalidate_connection, in_grace, ensure_connected, Round, failed_check, checked, watch,
}

-- A check of the watchdog finds that the connection is down.
abbrev pub IsDown : Connection → Round → Type 0
IsDown c r = (in_grace r.now c ≡ false) × (r.is_alive ≡ false)

check_down :
    (k : Credentials) (r : Round) (c : Connection) (n : ℕ)
    → c.connected ≡ true
    → is_some c.conn_id ≡ true
    → IsDown c r
    → watch k r (record { connection = c; consec_failures = n }) ≡ failed_check k r c (n + 1)
unfolding watch checked
check_down k r c n on has (late, down) = ground (arith, on, has, late, down)

connect_success :
    (k : Credentials) (id now : ℕ) (c : Connection)
    → k.has_url ≡ true
    → k.has_user ≡ true
    → connect k (answered 200 (some id) now) c ≡ (
      record { connected = true; conn_id = some id; has_base_url = true; last_connect_time = now },
      true,
    )
unfolding connect read_reply
connect_success k id now c u v = rw (u, v) refl

abbrev pub IsRestored : (id : ℕ) → Connection → Type 0
IsRestored id c = (c.connected ≡ true) × (c.conn_id ≡ some id)

ensure_restores :
    (k : Credentials) (id now time : ℕ) (rs : List Reply) (c : Connection)
    → k.has_url ≡ true
    → k.has_user ≡ true
    → IsRestored id
        (ensure_connected k time false
          (answered 200 (some id) now ∷ rs)
          (invalidate_connection c)).0
unfolding ensure_connected invalidate_connection connect_with_retry
ensure_restores k id now time rs c u v =
    let lost_c = invalidate_connection c in
    let e = connect_success k id now (record lost_c { connected = false }) u v in
    (rw e refl, rw e refl)

-- Where the settings are complete, a connection that is down at two checks in a row, both after the
-- time of grace, is restored by the second with the id of the bridge, if its first reply is a success;
-- and the first check alone leaves it as it was.
pub watch_restores :
    (k : Credentials) (c : Connection) (r s : Round) (id now : ℕ) (rs : List Reply)
    → k.has_url ≡ true
    → k.has_user ≡ true
    → c.connected ≡ true
    → is_some c.conn_id ≡ true
    → IsDown c r
    → IsDown c s
    → s.replies ≡ answered 200 (some id) now ∷ rs
    → let first = watch k r (record { connection = c; consec_failures = 0 }) in
      (first.connection ≡ c) × IsRestored id (watch k s first).connection
unfolding failed_check
watch_restores k c r s id now rs u v on has down down' e =
    let one = check_down k r c 0 on has down in
    let two = check_down k s c 1 on has down' in
    let back = ensure_restores k id now s.now rs c u v in
    let given : (failed_check k s c 2).connection
        ≡ (ensure_connected k s.now false (answered 200 (some id) now ∷ rs)
            (invalidate_connection c)).0 =
      ap (λ alive. (ensure_connected k s.now alive s.replies (invalidate_connection c)).0) (down'.1)
      ∙ ap (λ rs. (ensure_connected k s.now false rs (invalidate_connection c)).0) e in
    let same = ap (λ w. (watch k s w).connection) one ∙ ap (λ w. w.connection) two ∙ given in
    (
      ap (λ w. w.connection) one,
      (ap (λ c. c.connected) same ∙ back.0, ap (λ c. c.conn_id) same ∙ back.1),
    )
