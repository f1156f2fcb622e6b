-- ===== src/Live/Trades/Tests.antt =====
-- A purchase that the broker closed at its stop (live_trading/trading/live_loop.py).
use scalping.Prelude.{ℕ, ◌*◌, ◌≡◌, refl, false, arith, Option, none, some, [], ◌∷◌}
use scalping.Prelude.Int.{pos}
use scalping.Float.{max_of}
use scalping.Float.Fixed.{Fixed, fixed_float}
use scalping.Market.{buy, range}
use scalping.Live.Engine.{sl, LogRow}
use scalping.Live.Trades.{
  CloseHistory, classify_close_reason, reason_of_comment, reason_of_price, near, tolerance_of,
  apply_close_history, Broker, CheckedAt, reconcile_closed_trades,
}
use scalping.Live.Trades.Settled.{EachSettled, row_after, reconcile_closed_trades-EachSettled}

abbrev dollars : ℕ → Fixed
dollars n = pos (n * 10000)

abbrev entry : LogRow Fixed
entry = record {
  position_id = some 41;
  action = none;
  direction = some buy;
  entry = some (dollars 2000);
  sl = some (dollars 1993);
  tp = some (dollars 2014);
  lot = some (pos 100);
  regime = some range;
  bar_time = some (some 432000);
  logged_at = some (some 432060);
  new_sl = none;
  close_time = none;
  close_reason = none;
  profit = none;
}

abbrev stopped_out : CloseHistory Fixed
stopped_out = record {
  close_price = some (dollars 1993);
  close_time = some 433000;
  profit = some (dollars 7);
  commission = none;
  swap = none;
  fee = none;
  comment_words = [];
}

at_the_stop : classify_close_reason stopped_out entry none ≡ sl
unfolding classify_close_reason reason_of_comment reason_of_price near tolerance_of max_of
at_the_stop = refl

abbrev history_of : ℕ → Option (CloseHistory Fixed)
history_of id = some stopped_out

abbrev broker : Broker Fixed
broker = record { is_open = λ id. false; now = 100; history = history_of }

abbrev never : CheckedAt
never id = 0

abbrev other_entry : LogRow Fixed
other_entry = record entry { position_id = some 40 }

abbrev settled : LogRow Fixed
settled = record entry {
  close_time = some 433000;
  close_reason = some sl;
  profit = some (dollars 7);
}

reconcile_closed_trades-EachSettled_example :
    let log = other_entry ∷ entry ∷ [] in
    let log' = (reconcile_closed_trades broker never log).0 in
    EachSettled broker log log log' × (row_after (other_entry ∷ []) log' ≡ some settled)
unfolding apply_close_history classify_close_reason reason_of_comment reason_of_price near
    tolerance_of max_of
reconcile_closed_trades-EachSettled_example =
    reconcile_closed_trades-EachSettled broker never (other_entry ∷ []) [] entry settled 41
      stopped_out (refl, tt) refl refl refl refl (omega arith) refl refl
