-- ===== src/Mt5/Positions/Tests.antt =====
-- Runs of `_dedupe_positions` (live_trading/mt5/connector.py) on concrete rows.
use scalping.Prelude.{◌≡◌, refl, true, false, Option, none, some, [], ◌∷◌}
use scalping.Prelude.Int.{pos}
use scalping.Float.Fixed.{Fixed, fixed_float}
use scalping.Market.{buy}
use scalping.Mt5.Positions.{
  Ticket, missing, Row, Known, add_row, group_rows, keep, drop_ticket, position_lots, lots_or,
  is_sane, is_usable, repair_or_drop, resolve_rows, resolve_all, dedupe_positions,
}
use scalping.Mt5.Positions.Tickets.{mem, row_tickets, is_reported, is_reported-dedupe_positions}

-- A row of a hundredth of a lot, and one whose volume is that of another field.
abbrev plain : Row Fixed
plain = record {
  ticket = some 7;
  lots = none;
  volume = some (pos 100);
  type = missing;
  order_type = missing;
  open_price = pos 0;
  sl = pos 0;
  tp = pos 0;
}

abbrev corrupted : Row Fixed
corrupted = record plain { volume = some (pos 50000000) }

abbrev other : Row Fixed
other = record plain { ticket = some 8 }

abbrev logged : Ticket → Option (Known Fixed)
logged none = none
logged (some n) = some (record { volume = some (pos 100); direction = buy })

abbrev unlogged : Ticket → Option (Known Fixed)
unlogged t = none

repaired : (dedupe_positions (some corrupted ∷ some other ∷ []) logged).dropped_unknown ≡ []
unfolding dedupe_positions group_rows add_row resolve_all resolve_rows repair_or_drop keep
    drop_ticket is_sane position_lots lots_or is_usable
repaired = refl

dropped :
    (dedupe_positions (some corrupted ∷ some other ∷ []) unlogged).dropped_unknown ≡ some 7 ∷ []
unfolding dedupe_positions group_rows add_row resolve_all resolve_rows repair_or_drop keep
    drop_ticket is_sane position_lots lots_or is_usable
dropped = refl

is_reported-dedupe_positions_example :
    is_reported (some 7) (dedupe_positions (some corrupted ∷ some other ∷ []) unlogged)
    ≡ mem (some 7) (row_tickets {W = Fixed} (some corrupted ∷ some other ∷ []))
is_reported-dedupe_positions_example =
    is_reported-dedupe_positions unlogged (some 7) (some corrupted ∷ some other ∷ [])

corrupted_insane : is_sane corrupted ≡ false
unfolding is_sane position_lots lots_or
corrupted_insane = refl

plain-IsSane : is_sane plain ≡ true
unfolding is_sane position_lots lots_or
plain-IsSane = refl
