-- ===== src/Server/Command.antt =====
-- live_trading/server.py: the page on which the engine takes commands, and the one that forces it to
-- resume. A token that is missing is an empty text; times are seconds.
use scalping.Prelude.{
  ℕ, Bool, true, false, ◌&&◌, Option, none, some, List, [], ◌∷◌, ◌++◌, ◌==◌, if◌then◌else◌,
}
use scalping.Prelude.Text.{Text, eq_text}
use scalping.Float.{Float, ◌<?◌, nought}
use scalping.Risk.Guardian.{initialize, reset_halt}
use scalping.Live.Engine.{running, Account, Engine, write_state}
use scalping.Live.Commands.{
  PanelCommand, pause, resume, emergency_stop, safe_shutdown, close_all, start, restart_engine,
  restart_mt5, restart_telegram, reconnect, reset_guardian, update_risk, update_strategy, Commands,
  send_command,
}
use scalping.Live.Commands.Queue.{Queued, read_commands}
pub mod Lost
pub mod Refused
mod Tests

-- "command" of a request: one of `_ALLOWED_COMMANDS`, or none of them.
pub data Name {ℓ} (W : Type ℓ) : Type ℓ where
  missing unknown : Name W
  known : PanelCommand W → Name W

-- A payload that is missing is as an empty one. A body that is JSON but no dictionary is left out.
pub record Body {ℓ} (W : Type ℓ) : Type ℓ where
  pub name : Name W
  pub has_payload : Bool

-- A request, whether the engine reaches Redis at that time, and whether its file can be written.
pub record Post {ℓ} (W : Type ℓ) : Type ℓ where
  pub token : Text
  pub body : Option (Body W)
  pub now : ℕ
  pub has_redis : Bool
  pub file_written : Bool

-- The dictionary in Redis, and COMMANDS_FILE.
pub record Mailboxes {ℓ} (W : Type ℓ) : Type ℓ where
  pub mailbox : Commands W
  pub queue : List (Queued W)

abbrev is_empty : Text → Bool
is_empty [] = true
is_empty (c ∷ t) = false

-- 200 is authorized.
unfoldable pub command_authorized : (configured supplied : Text) → ℕ
command_authorized configured supplied =
    if is_empty configured
    then 503
    else if is_empty supplied
    then 401
    else if eq_text supplied configured
    then 200
    else 403

module _ {ℓ} {W : Type ℓ} where
  -- `cmds[engine_key] = {}`: the key is there, and counts as false.
  unfoldable pub send_empty : PanelCommand W → Commands W → Commands W
  send_empty pause m = record m { pause = false }
  send_empty resume m = record m { resume = false }
  send_empty emergency_stop m = record m { stop = false }
  send_empty safe_shutdown m = record m { stop = false }
  send_empty close_all m = record m { close_all = false }
  send_empty start m = record m { start = false }
  send_empty restart_engine m = record m { restart_engine = false }
  send_empty restart_mt5 m = record m { restart_mt5 = false }
  send_empty restart_telegram m = record m { restart_telegram = false }
  send_empty reconnect m = record m { restart_mt5 = false }
  send_empty (reset_guardian b) m = record m { reset_guardian = none }
  send_empty (update_risk p) m = record m { update_risk = none }
  send_empty (update_strategy p) m = record m { update_strategy = none }

  -- `redis_send_command(command, data.get("payload") or {})`.
  unfoldable pub mirror : (has_payload : Bool) → PanelCommand W → Commands W → Commands W
  unfolding send_command send_empty
  mirror true c m = send_command c m
  mirror false c m = send_empty c m

  abbrev entry : (now : ℕ) → PanelCommand W → Queued W
  entry now c = record { command = some c; issued_at = some now }

  -- An allowed command: the mirror, then the file.
  unfoldable pub accept :
      Post W → (has_payload : Bool) → PanelCommand W → Mailboxes W → Mailboxes W × ℕ
  unfolding mirror
  accept p has_payload c b =
      let b' = if p.has_redis then record b { mailbox = mirror has_payload c b.mailbox } else b in
      if p.file_written
      then (record b' { queue = b.queue ++ entry p.now c ∷ [] }, 200)
      else (b', 500)

  unfoldable pub read_body : Post W → Option (Body W) → Mailboxes W → Mailboxes W × ℕ
  unfolding accept
  read_body p none b = (b, 400)
  read_body p (some body) b = elim body.name [
    | missing ↦ (b, 400)
    | unknown ↦ (b, 400)
    | known c ↦ accept p body.has_payload c b
  ]

  -- The mailboxes after the request, and the status of the answer.
  unfoldable pub command : (configured : Text) → Post W → Mailboxes W → Mailboxes W × ℕ
  unfolding command_authorized read_body
  command configured p b =
      let status = command_authorized configured p.token in
      if status == 200 then read_body p p.body b else (b, status)

  -- What `read_commands` of live_trading/utils/state_writer.py returns: Redis is read first.
  unfoldable pub read_mailboxes : (has_redis : Bool) → (now max_age : ℕ) → Mailboxes W → Commands W
  read_mailboxes true now age b = b.mailbox
  read_mailboxes false now age b = read_commands now age b.queue

module _ {ℓ} {W : Type ℓ} ⦃f : Float W⦄ where
  -- The guardian forgets its losses, if the last known balance is positive.
  rebaselined : (today : ℕ) → Option (Account W) → Engine W → Engine W
  rebaselined today none s = s
  rebaselined today (some a) s =
      if nought <? a.balance
      then record s { guardian = (initialize today a.balance a.equity s.guardian).state }
      else s

  resumed : (today : ℕ) → (reset_baseline : Bool) → Engine W → Engine W
  unfolding rebaselined
  resumed today reset_baseline s =
      let s' = if reset_baseline then rebaselined today s.last_acc_info s else s in
      write_state running
        (record s' { guardian = (reset_halt today false none s'.guardian).0.state; paused = false })

  -- `_force_resume`, on the engine of the process, if it runs already.
  pub force_resume :
      (configured supplied : Text) (today : ℕ) (reset_baseline : Bool)
      → Option (Engine W)
      → Option (Engine W) × ℕ
  unfolding resumed command_authorized
  force_resume configured supplied today reset_baseline engine =
      let status = command_authorized configured supplied in
      if status == 200
      then elim engine [
        | none ↦ (none, 503)
        | some s ↦ (some (resumed today reset_baseline s), 200)
      ]
      else (engine, status)
