-- ===== src/Mt5/Connection/Tests.antt =====
-- Runs of the connection and its watchdog (live_trading/mt5/connector.py).
use scalping.Prelude.{ℕ, ◌≡◌, refl, true, false, some, [], ◌∷◌}
use scalping.Mt5.Connection.{
  Connection, Credentials, raised, answered, read_reply, connect, connect_with_retry, Round,
  Watchdog, watch,
}
use scalping.Mt5.Connection.Restored.{IsRestored, watch_restores}

abbrev settings : Credentials
settings = record { has_url = true; has_user = true }

abbrev held : Connection
held = record { connected = true; conn_id = some 7; has_base_url = true; last_connect_time = 0 }

abbrev down : ℕ → Round
down now = record { now = now; is_alive = false; replies = answered 200 (some 8) now ∷ [] }

abbrev watched : Watchdog
watched = record { connection = held; consec_failures = 0 }

second_attempt :
    (connect_with_retry settings (raised ∷ answered 200 (some 9) 60 ∷ []) held).0.conn_id ≡ some 9
unfolding connect_with_retry connect read_reply
second_attempt = refl

watch_restores_example :
    let first = watch settings (down 200) watched in
    (first.connection ≡ held) × IsRestored 8 (watch settings (down 230) first).connection
watch_restores_example =
    watch_restores settings held (down 200) (down 230) 8 230 [] refl refl refl refl (refl, refl)
      (refl, refl) refl
