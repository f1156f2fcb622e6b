-- ===== src/Live/Commands/Queue.antt =====
-- live_trading/utils/state_writer.py: `read_commands`, the queue of commands in a file, which is read
-- where Redis is not available. Times are seconds.
use scalping.Prelude.{
  ℕ, ◌+◌, ◌≡◌, ◌∙◌, refl, Bool, true, false, not, ◌&&◌, ◌||◌, Option, none, some, List, [], ◌∷◌,
  any, ltb, arith, ap, Bool-cases, inl, inr, if◌then◌else◌,
}
use scalping.Live.Commands.{
  PanelCommand, pause, resume, emergency_stop, safe_shutdown, close_all, start, restart_engine,
  restart_mt5, restart_telegram, reconnect, reset_guardian, update_risk, update_strategy, Commands,
  no_commands, send_command,
}
mod Tests

-- An entry: its command, if the panel knows one of that name, and its time, if it can be parsed.
pub record Queued {ℓ} (W : Type ℓ) : Type ℓ where
  pub command : Option (PanelCommand W)
  pub issued_at : Option ℕ

or_assoc : (a b c : Bool) → ((a || b) || c) ≡ (a || (b || c))
or_assoc a b c = ground arith

module _ {ℓ} {W : Type ℓ} where
  -- `result[engine_key] = True`: without a payload. The two updates have no key here.
  mark : PanelCommand W → Commands W → Commands W
  unfolding send_command
  mark (reset_guardian b) m = record m { reset_guardian = some false }
  mark (update_risk p) m = m
  mark (update_strategy p) m = m
  mark c m = send_command c m

  mark_if : Option (PanelCommand W) → Commands W → Commands W
  unfolding mark
  mark_if none m = m
  mark_if (some c) m = mark c m

  -- Older than COMMAND_MAX_AGE_SECONDS; a time that cannot be parsed is not.
  abbrev pub is_stale : (now max_age : ℕ) → Queued W → Bool
  is_stale now age q = elim q.issued_at [ none ↦ false | some t ↦ ltb (t + age) now ]

  read_item : (now max_age : ℕ) → Queued W → Commands W → Commands W
  unfolding mark_if
  read_item now age q m = if is_stale now age q then m else mark_if q.command m

  read_from : (now max_age : ℕ) → List (Queued W) → Commands W → Commands W
  unfolding read_item
  read_from now age [] m = m
  read_from now age (q ∷ qs) m = read_from now age qs (read_item now age q m)

  pub read_commands : (now max_age : ℕ) → List (Queued W) → Commands W
  unfolding read_from
  read_commands now age qs = read_from now age qs no_commands

  abbrev pub stops : Option (PanelCommand W) → Bool
  stops (some emergency_stop) = true
  stops (some safe_shutdown) = true
  stops _ = false

  abbrev pub pauses : Option (PanelCommand W) → Bool
  pauses (some pause) = true
  pauses _ = false

  -- Some entry of the queue that is not stale has the command.
  abbrev pub asks : (now max_age : ℕ) → (Option (PanelCommand W) → Bool) → List (Queued W) → Bool
  asks now age p qs = any (λ q. not (is_stale now age q) && p q.command) qs

  mark_if-stop :
      (c : Option (PanelCommand W)) (m : Commands W) → (mark_if c m).stop ≡ (m.stop || stops c)
  unfolding mark_if mark send_command
  mark_if-stop c m = ground arith

  mark_if-pause :
      (c : Option (PanelCommand W)) (m : Commands W) → (mark_if c m).pause ≡ (m.pause || pauses c)
  unfolding mark_if mark send_command
  mark_if-pause c m = ground arith

  -- The queue has no key for changes of risk and strategy.
  abbrev pub HasNoUpdate : Commands W → Type ℓ
  HasNoUpdate m = (m.update_risk ≡ none) × (m.update_strategy ≡ none)

  mark_if-HasNoUpdate :
      (c : Option (PanelCommand W)) (m : Commands W) → HasNoUpdate m → HasNoUpdate (mark_if c m)
  unfolding mark_if mark send_command
  mark_if-HasNoUpdate none m h = h
  mark_if-HasNoUpdate (some c) m h = ground arith

  -- A flag that an item sets where its command asks for it.
  read_from-flag :
      (flag : Commands W → Bool) (p : Option (PanelCommand W) → Bool)
      → ((c : Option (PanelCommand W)) (m : Commands W) → flag (mark_if c m) ≡ (flag m || p c))
      → (now age : ℕ) (qs : List (Queued W)) (m : Commands W)
      → flag (read_from now age qs m) ≡ (flag m || asks now age p qs)
  unfolding read_from read_item
  read_from-flag flag p sets now age [] m = ground arith
  read_from-flag flag p sets now age (q ∷ qs) m = elim (Bool-cases (is_stale now age q)) [
    | inl e ↦ rw e (read_from-flag flag p sets now age qs m)
    | inr e ↦ rw e (
        read_from-flag flag p sets now age qs (mark_if q.command m)
        ∙ ap (λ b. b || asks now age p qs) (sets q.command m)
        ∙ or_assoc (flag m) (p q.command) (asks now age p qs))
  ]

  read_item-HasNoUpdate :
      (now age : ℕ) (q : Queued W) (m : Commands W)
      → HasNoUpdate m
      → HasNoUpdate (read_item now age q m)
  unfolding read_item
  read_item-HasNoUpdate now age q m (r, s) =
      let (r', s') = mark_if-HasNoUpdate q.command m (r, s) in
      elim (Bool-cases (is_stale now age q)) [
        | inl e ↦ (rw e r, rw e s)
        | inr e ↦ (rw e r', rw e s')
      ]

  read_from-HasNoUpdate :
      (now age : ℕ) (qs : List (Queued W)) (m : Commands W)
      → HasNoUpdate m
      → HasNoUpdate (read_from now age qs m)
  unfolding read_from
  read_from-HasNoUpdate now age [] m h = h
  read_from-HasNoUpdate now age (q ∷ qs) m h =
      read_from-HasNoUpdate now age qs (read_item now age q m) (read_item-HasNoUpdate now age q m h)

  -- The engine is told to stop, or to pause, exactly if an entry of the file asks for it that is not
  -- older than the limit or has no readable time; a change of risk or strategy is never read.
  pub read_commands_fresh :
      (now age : ℕ) (qs : List (Queued W))
      → let m = read_commands now age qs in
        (m.stop ≡ asks now age stops qs)
        × (m.pause ≡ asks now age pauses qs)
        × (m.update_risk ≡ none)
        × (m.update_strategy ≡ none)
  unfolding read_commands no_commands
  read_commands_fresh now age qs =
      let (risk, strategy) = read_from-HasNoUpdate now age qs no_commands (refl, refl) in
      (
        read_from-flag (λ m. m.stop) stops mark_if-stop now age qs no_commands,
        read_from-flag (λ m. m.pause) pauses mark_if-pause now age qs no_commands,
        risk,
        strategy,
      )
