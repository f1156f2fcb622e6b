-- ===== src/Server/Command/Lost.antt =====
-- What becomes of a command that is sent to the page of live_trading/server.py.
use scalping.Prelude.{
  ℕ, ◌+◌, ◌≤◌, ◌≡◌, ◌∙◌, refl, Bool, true, false, not, ◌&&◌, some, List, [], ◌∷◌, ◌++◌, any, arith,
  Bool-cases, inl, inr,
}
use scalping.Prelude.Text.{Text}
use scalping.Float.{Float}
use scalping.Live.Engine.{Engine}
use scalping.Live.Bar.{Settings}
use scalping.Live.Commands.{emergency_stop, World}
use scalping.Live.Commands.Process.{process_commands}
use scalping.Live.Commands.Pause.{process_commands-mode}
use scalping.Live.Commands.Queue.{Queued, is_stale, stops, read_commands, read_commands_fresh}
use scalping.Server.Command.{
  known, Body, Post, Mailboxes, command_authorized, send_empty, mirror, accept, read_body, command,
  read_mailboxes,
}

module _ {ℓ} {W : Type ℓ} where
  any-snoc :
      (p : Queued W → Bool) (qs : List (Queued W)) (q : Queued W)
      → p q ≡ true
      → any p (qs ++ q ∷ []) ≡ true
  any-snoc p [] q h = ground arith
  any-snoc p (r ∷ qs) q h = ground (arith, any-snoc p qs q h)

  abbrev stop_entry : ℕ → Queued W
  stop_entry t = record { command = some emergency_stop; issued_at = some t }

  -- A stop at the end of the queue is read while it is not too old.
  pub read_commands-stop :
      (now age t : ℕ) (qs : List (Queued W))
      → now ≤ t + age
      → (read_commands now age (qs ++ stop_entry t ∷ [])).stop ≡ true
  read_commands-stop now age t qs h =
      (read_commands_fresh now age (qs ++ stop_entry t ∷ [])).0
      ∙ any-snoc (λ q. not (is_stale now age q) && stops q.command) qs (stop_entry t) (ground arith)

  abbrev pub stop_body : Body W
  stop_body = record { name = known emergency_stop; has_payload = false }

  pub read_mailboxes-command :
      (configured : Text) (p : Post W) (b : Mailboxes W) (now age : ℕ)
      → command_authorized configured p.token ≡ 200
      → p.body ≡ some stop_body
      → p.file_written ≡ true
      → now ≤ p.now + age
      → ((command configured p b).1 ≡ 200)
        × ((read_mailboxes p.has_redis now age (command configured p b).0).stop ≡ not p.has_redis)
  unfolding command read_body accept mirror send_empty read_mailboxes
  read_mailboxes-command configured p b now age auth body file h =
      let file_stop = read_commands-stop now age p.now b.queue h in
      elim (Bool-cases p.has_redis) [
        | inl e ↦ (rw (auth, body, file) refl, rw (auth, body, file, e) refl)
        | inr e ↦ (rw (auth, body, file) refl, rw (auth, body, file, e) file_stop)
      ]

module _ {ℓ} {W : Type ℓ} ⦃f : Float W⦄ where
  -- An emergency stop that is posted without a payload, with the right token, and whose file can be
  -- written, is answered by 200. If the engine reaches Redis, it reads no stop at its next poll and
  -- runs on, unless a restart was asked for as well; if not, it reads the stop, as long as that is not
  -- older than the limit, and stops.
  pub command_emergency_stop :
      (configured : Text) (p : Post W) (b : Mailboxes W) (now age : ℕ)
      → (c : Settings W) (w : World W) (s : Engine W) → command_authorized configured p.token ≡ 200
      → p.body ≡ some stop_body
      → p.file_written ≡ true
      → now ≤ p.now + age
      → let (b', status) = command configured p b in
        let m = read_mailboxes p.has_redis now age b' in
        (status ≡ 200)
        × (m.stop ≡ not p.has_redis)
        × ((process_commands c w m s).running ≡ (s.running && p.has_redis && not m.restart_engine))
  command_emergency_stop configured p b now age c w s auth body file h =
      let (ok, stop) = read_mailboxes-command configured p b now age auth body file h in
      let m = read_mailboxes p.has_redis now age (command configured p b).0 in
      (ok, stop, ground (arith, process_commands-mode c w m s))
