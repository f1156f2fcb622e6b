-- ===== src/Server/Command/Tests.antt =====
-- Requests to the pages of live_trading/server.py.
use scalping.Prelude.{
  ◌≡◌, refl, Bool, true, false, not, ◌&&◌, Option, none, some, [], ◌==◌, arith, inr,
}
use scalping.Prelude.Text.{Text, codes}
use scalping.Float.Fixed.{Fixed, fixed_float}
use scalping.Live.Engine.{Engine}
use scalping.Live.Samples.{dollars, engine, settings}
use scalping.Live.Commands.{World, emergency_stop, no_commands, send_command}
use scalping.Live.Commands.Process.{process_commands}
use scalping.Server.Command.{
  Post, Mailboxes, command_authorized, command, read_mailboxes, resumed, force_resume,
}
use scalping.Server.Command.Lost.{stop_body, command_emergency_stop}
use scalping.Server.Command.Refused.{requests_refused}

abbrev secret : Text
secret = codes "s3cret"

abbrev post : Bool → Text → Post Fixed
post r t = record {
  token = t;
  body = some stop_body;
  now = 100;
  has_redis = r;
  file_written = true;
}

-- A stop waits in Redis already.
abbrev boxes : Mailboxes Fixed
boxes = record { mailbox = send_command emergency_stop no_commands; queue = [] }

abbrev world : World Fixed
world = record {
  today = 5;
  now = 110;
  fresh_account = some (record { balance = dollars 1; equity = dollars 1 });
  positions = record { payload = some []; status = 200 };
  close_succeeds = λ t. true;
}

abbrev halted_engine : Engine Fixed
halted_engine = record engine { paused = true; guardian = record engine.guardian { halted = true } }

command_emergency_stop_example :
    let (b', status) = command secret (post true secret) boxes in
    let m = read_mailboxes true 110 300 b' in
    (status ≡ 200)
    × (m.stop ≡ not true)
    × ((process_commands settings world m engine).running ≡ (true && true && not m.restart_engine))
unfolding command_authorized
command_emergency_stop_example =
    command_emergency_stop secret (post true secret) boxes 110 300 settings world engine refl refl
      refl (omega arith)

requests_refused_example :
    let p = post true (codes "guess") in
    ((command secret p boxes).0 ≡ boxes)
    × (((command secret p boxes).1 == 200) ≡ false)
    × ((force_resume secret p.token 5 true (some halted_engine)).0 ≡ some halted_engine)
    × (((force_resume secret p.token 5 true (some halted_engine)).1 == 200) ≡ false)
requests_refused_example =
    requests_refused secret (post true (codes "guess")) boxes 5 true (some halted_engine) (inr refl)

abbrev is_paused : Option (Engine Fixed) → Bool
is_paused none = true
is_paused (some s) = s.paused

force_resume_resumes : is_paused (force_resume secret secret 5 false (some halted_engine)).0 ≡ false
unfolding force_resume command_authorized resumed
force_resume_resumes = refl
