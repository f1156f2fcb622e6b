-- ===== src/Panel/Trades/Tests.antt =====
-- A trade command of the panel.
use scalping.Prelude.{◌≡◌, refl, true, false, ◌||◌, none, some, [], ◌∷◌}
use scalping.Float.Fixed.{Fixed, fixed_float}
use scalping.Live.Samples.{dollars, engine, settings}
use scalping.Live.Commands.{World, no_commands}
use scalping.Live.Commands.Process.{process_commands}
use scalping.Panel.Trades.{
  TradeBoxes, close_all, modify_sl, read_dictionary, send_trade_command, send_trade_command-unread,
}

abbrev boxes : TradeBoxes Fixed
boxes = record { dictionary = λ key. none; trade_commands = [] }

abbrev world : World Fixed
world = record {
  today = 5;
  now = 110;
  fresh_account = some (record { balance = dollars 1; equity = dollars 1 });
  positions = record { payload = some []; status = 200 };
  close_succeeds = λ t. true;
}

to_file :
    (send_trade_command false true (modify_sl 7 (dollars 2000)) boxes).0.trade_commands
    ≡ modify_sl 7 (dollars 2000) ∷ []
unfolding send_trade_command
to_file = refl

send_trade_command-unread_example :
    let (b', success) = send_trade_command true false close_all boxes in
    (success ≡ (true || false))
    × (process_commands settings world (read_dictionary b'.dictionary) engine ≡ engine)
unfolding read_dictionary no_commands
send_trade_command-unread_example =
    send_trade_command-unread true false close_all boxes settings world engine refl
