-- ===== src/Panel/Robot/Delivery.antt =====
-- telegram_panel/services/robot_service.py: `_send_command`, which tries Redis, then the page of the
-- engine, then a file. The token that the panel holds is empty if it has none.
use scalping.Prelude.{
  ℕ, ◌+◌, ◌≤◌, ◌≡◌, ◌∙◌, ◌⊎◌, refl, sym, ap, Bool, true, false, not, ◌&&◌, ◌||◌, none, some, [],
  ◌∷◌, ◌++◌, ◌==◌, arith, Bool-cases, inl, inr, if◌then◌else◌,
}
use scalping.Prelude.Text.{Text}
use scalping.Live.Commands.{
  PanelCommand, emergency_stop, reset_guardian, update_risk, update_strategy, send_command,
}
use scalping.Server.Command.{
  known, Post, Mailboxes, command, read_body, accept, mirror, send_empty, read_mailboxes,
}
use scalping.Server.Command.Lost.{read_commands-stop}
use scalping.Panel.Robot.{RobotService}

-- What stands between panel and engine at a time: whether the panel reaches Redis, the address of the
-- engine, the tokens of both sides, whether a request and its answer arrive (a request whose answer alone
-- is lost is left out), whether the engine reaches Redis and can write its file, whether the panel
-- can write its own file, and whether that is the file of the engine, as on one machine with one path.
pub record Channels : Type 0 where
  pub panel_redis : Bool
  pub has_base_url : Bool
  pub panel_token : Text
  pub engine_token : Text
  pub arrives : Bool
  pub engine_redis : Bool
  pub engine_file : Bool
  pub panel_file : Bool
  pub shares_disk : Bool
  pub now : ℕ

abbrev is_set : Text → Bool
is_set [] = false
is_set (c ∷ t) = true

-- "Invalidate cache": a fetched state is not used again.
abbrev forget : RobotService → RobotService
forget s = record s { cache_ts = none }

by_redis : (p e x : Bool) → p ≡ true → true ≡ (p || not e && x)
by_redis p e x h = ground arith

no_way : (p e x : Bool) → p ≡ false → e ≡ true → false ≡ (p || not e && x)
no_way p e x h k = ground arith

a_way : (p e x : Bool) → p ≡ false → e ≡ false → x ≡ (p || not e && x)
a_way p e x h k = ground arith

module _ {ℓ} {W : Type ℓ} where
  -- `payload or {}` is not empty for these three; a reset of the guardian has one with its baseline only.
  abbrev has_payload : PanelCommand W → Bool
  has_payload (reset_guardian b) = b
  has_payload (update_risk p) = true
  has_payload (update_strategy p) = true
  has_payload _ = false

  abbrev pub post_of : Channels → PanelCommand W → Post W
  post_of ch c = record {
    token = ch.panel_token;
    body = some (record { name = known c; has_payload = has_payload c });
    now = ch.now;
    has_redis = ch.engine_redis;
    file_written = ch.engine_file;
  }

  abbrev answered_200 : Mailboxes W × ℕ → Mailboxes W × Bool
  answered_200 (b, status) = (b, status == 200)

  -- `_send_command_http`: `true` if the answer is 200.
  unfoldable pub send_command_http : Channels → PanelCommand W → Mailboxes W → Mailboxes W × Bool
  send_command_http ch c b =
      if ch.has_base_url && is_set ch.panel_token && ch.arrives
      then answered_200 (command ch.engine_token (post_of ch c) b)
      else (b, false)

  -- A written file counts as sent, whoever reads it. The engine's queue grows if the file is its own.
  unfoldable pub send_command_file : Channels → PanelCommand W → Mailboxes W → Mailboxes W × Bool
  send_command_file ch c b =
      if ch.panel_file
      then if ch.shares_disk
        then (
          record b { queue = b.queue ++ record { command = some c; issued_at = some ch.now } ∷ [] },
          true,
        )
        else (b, true)
      else (b, false)

  unfoldable pub fall_back : Channels → PanelCommand W → Mailboxes W × Bool → Mailboxes W × Bool
  unfolding send_command_file
  fall_back ch c (b, true) = (b, true)
  fall_back ch c (b, false) = send_command_file ch c b

  unfoldable pub deliver : Channels → PanelCommand W → Mailboxes W → Mailboxes W × Bool
  unfolding send_command_http fall_back
  deliver ch c b =
      if ch.panel_redis
      then (record b { mailbox = send_command c b.mailbox }, true)
      else fall_back ch c (send_command_http ch c b)

  -- The service, the mailboxes, and whether the command counts as sent.
  unfoldable pub send_panel_command :
      Channels → PanelCommand W → RobotService → Mailboxes W → RobotService × Mailboxes W × Bool
  unfolding deliver
  send_panel_command ch c s b =
      let (b', sent) = deliver ch c b in ((if sent then forget s else s), b', sent)

  abbrev reads_stop : Channels → (now max_age : ℕ) → Mailboxes W → Bool
  reads_stop ch now age b = (read_mailboxes ch.engine_redis now age b).stop

  -- Without Redis: what is taken is read from the file, and what is not taken changes nothing.
  http-file :
      (ch : Channels) (b : Mailboxes W) (now age : ℕ)
      → ch.engine_redis ≡ false
      → now ≤ ch.now + age
      → let (b', sent) = send_command_http ch emergency_stop b in
        ((sent ≡ true) × (reads_stop ch now age b' ≡ true)) ⊎ ((sent ≡ false) × (b' ≡ b))
  unfolding send_command_http command read_body accept mirror read_mailboxes
  http-file ch b now age e h = rw e (ground (arith, read_commands-stop now age ch.now b.queue h))

  -- With Redis: no stop is read.
  http-mailbox :
      (ch : Channels) (b : Mailboxes W)
      → ch.engine_redis ≡ true
      → b.mailbox.stop ≡ false
      → (send_command_http ch emergency_stop b).0.mailbox.stop ≡ false
  unfolding send_command_http command read_body accept mirror send_empty
  http-mailbox ch b e h = ground arith

  -- The file as the last resort.
  fall_back-file :
      (ch : Channels) (b : Mailboxes W) (r : Mailboxes W × Bool) (now age : ℕ)
      → ch.engine_redis ≡ false
      → now ≤ ch.now + age
      → ((r.1 ≡ true) × (reads_stop ch now age r.0 ≡ true)) ⊎ ((r.1 ≡ false) × (r.0 ≡ b))
      → reads_stop ch now age b ≡ false
      → (fall_back ch emergency_stop r).1 ≡ true
      → reads_stop ch now age (fall_back ch emergency_stop r).0 ≡ (ch.shares_disk || r.1)
  unfolding fall_back send_command_file
  fall_back-file ch b (b', true) now age e h (inl (_, stop)) free sent = ground arith
  fall_back-file ch b (b', true) now age e h (inr (refused, _)) free sent = cc
  fall_back-file ch b (b', false) now age e h (inl (taken, _)) free sent = cc
  fall_back-file ch b (b', false) now age e h (inr (_, same)) free sent =
      elim (Bool-cases ch.shares_disk) [
        | inl k ↦
            unfold read_mailboxes in
            rw e (ground (arith, read_commands-stop now age ch.now b'.queue h))
        | inr k ↦ ground (arith, ap (reads_stop ch now age) same)
      ]

  fall_back-mailbox :
      (ch : Channels) (r : Mailboxes W × Bool)
      → (fall_back ch emergency_stop r).0.mailbox.stop ≡ r.0.mailbox.stop
  unfolding fall_back send_command_file
  fall_back-mailbox ch (b, true) = refl
  fall_back-mailbox ch (b, false) = ground arith

  -- The stop that is read after a delivery by Redis, or by another way.
  deliver-redis :
      (ch : Channels) (b : Mailboxes W) (now age : ℕ)
      → ch.panel_redis ≡ true
      → ch.engine_redis ≡ true
      → reads_stop ch now age (deliver ch emergency_stop b).0 ≡ true
  unfolding deliver send_command read_mailboxes
  deliver-redis ch b now age p e = rw (p, e) refl

  deliver-other :
      (ch : Channels) (b : Mailboxes W)
      → ch.panel_redis ≡ false
      → deliver ch emergency_stop b
        ≡ fall_back ch emergency_stop (send_command_http ch emergency_stop b)
  unfolding deliver
  deliver-other ch b p = ground arith

  reads_stop-mailbox :
      (ch : Channels) (b : Mailboxes W) (now age : ℕ)
      → ch.engine_redis ≡ true
      → reads_stop ch now age b ≡ b.mailbox.stop
  unfolding read_mailboxes
  reads_stop-mailbox ch b now age e = ground arith

  -- The panel reports an emergency stop as sent, no other stop waits for the poll, the poll comes before
  -- the stop is too old, and the engine reaches Redis if the panel does. Then the engine reads a stop
  -- exactly if the panel reached Redis, or the engine does not reach Redis and either the two share the
  -- command file or the page of the engine answered 200.
  pub send_panel_command-stop :
      (ch : Channels) (s : RobotService) (b : Mailboxes W) (now age : ℕ)
      → (ch.panel_redis && not ch.engine_redis) ≡ false
      → (read_mailboxes ch.engine_redis now age b).stop ≡ false
      → now ≤ ch.now + age
      → (send_panel_command ch emergency_stop s b).2 ≡ true
      → (read_mailboxes ch.engine_redis now age (send_panel_command ch emergency_stop s b).1).stop
        ≡ (ch.panel_redis
            || not ch.engine_redis && (ch.shares_disk || (send_command_http ch emergency_stop b).1))
  unfolding send_panel_command
  send_panel_command-stop ch s b now age same free h sent =
      let other = ch.shares_disk || (send_command_http ch emergency_stop b).1 in
      let taken = send_command_http ch emergency_stop b in
      let last = (fall_back ch emergency_stop taken).0 in
      elim (Bool-cases ch.panel_redis) [
        | inl p ↦ elim (Bool-cases ch.engine_redis) [
          | inl e ↦ deliver-redis ch b now age p e ∙ by_redis ch.panel_redis ch.engine_redis other p
          | inr e ↦ absurd (ground (arith, same, p, e))
        ]
        | inr p ↦
            let way = deliver-other ch b p in
            let by = ap (λ (r : Mailboxes W × Bool). reads_stop ch now age r.0) way in
            elim (Bool-cases ch.engine_redis) [
              | inl e ↦
                  by
                  ∙ reads_stop-mailbox ch last now age e
                  ∙ fall_back-mailbox ch taken
                  ∙ http-mailbox ch b e (sym (reads_stop-mailbox ch b now age e) ∙ free)
                  ∙ no_way ch.panel_redis ch.engine_redis other p e
              | inr e ↦
                  let went = sym (ap (λ (r : Mailboxes W × Bool). r.1) way) ∙ sent in
                  let kept = http-file ch b now age e h in
                  by
                  ∙ fall_back-file ch b taken now age e h kept free went
                  ∙ a_way ch.panel_redis ch.engine_redis other p e
            ]
      ]
