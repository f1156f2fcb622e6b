-- ===== src/Mt5/Positions.antt =====
-- live_trading/mt5/connector.py: the open positions, as `_dedupe_positions` reads them from the rows
-- of the bridge. A field holds the number that `float` or `int` makes of it, `none` if it makes none.
use scalping.Prelude.{
  ℕ, zero, suc, Bool, true, false, not, ◌||◌, Option, none, some, List, [], ◌∷◌, ◌++◌, ltb, leb,
  ◌==◌, if◌then◌else◌,
}
use scalping.Float.{Float, ◌<?◌, nought}
use scalping.Market.{Direction, buy, sell, neutral}
pub mod Tickets
pub mod Repair
mod Tests

abbrev pub Ticket : Type 0
Ticket = Option ℕ

abbrev pub same_ticket : Ticket → Ticket → Bool
same_ticket none none = true
same_ticket (some a) (some b) = a == b
same_ticket _ _ = false

-- The field `type` or `orderType`: absent, the text of a direction, a number, or anything else.
pub data RawType : Type 0 where
  missing unreadable : RawType
  named : Direction → RawType
  code : ℕ → RawType

pub record Row {ℓ} (W : Type ℓ) : Type ℓ where
  pub ticket : Ticket
  pub lots : Option W
  pub volume : Option W
  pub type : RawType
  pub order_type : RawType
  pub open_price : W
  pub sl : W
  pub tp : W

-- What the robot's own log holds of a position that it opened.
pub record Known {ℓ} (W : Type ℓ) : Type ℓ where
  pub volume : Option W
  pub direction : Direction

pub record Group {ℓ} (W : Type ℓ) : Type ℓ where
  pub ticket : Ticket
  pub rows : List (Row W)

-- The positions, and the tickets that were dropped.
pub record Positions {ℓ} (W : Type ℓ) : Type ℓ where
  pub result : List (Row W)
  pub dropped_unknown : List Ticket

direction_of_raw : RawType → Direction
direction_of_raw (named d) = d
direction_of_raw (code zero) = buy
direction_of_raw (code (suc zero)) = sell
direction_of_raw _ = neutral

-- `_position_direction`, with `neutral` for "UNKNOWN".
pub position_direction : RawType → RawType → Direction
unfolding direction_of_raw
position_direction missing order_type = direction_of_raw order_type
position_direction type order_type = direction_of_raw type

module _ {ℓ} {W : Type ℓ} where
  -- `by_ticket` and `order`, in one list.
  pub add_row : Row W → List (Group W) → List (Group W)
  add_row r [] = record { ticket = r.ticket; rows = r ∷ [] } ∷ []
  add_row r (g ∷ gs) =
      if same_ticket g.ticket r.ticket
      then record g { rows = g.rows ++ (r ∷ []) } ∷ gs
      else g ∷ add_row r gs

  -- An element that is no object is skipped.
  unfoldable pub group_rows : List (Option (Row W)) → List (Group W) → List (Group W)
  unfolding add_row
  group_rows [] gs = gs
  group_rows (none ∷ rows) gs = group_rows rows gs
  group_rows (some r ∷ rows) gs = group_rows rows (add_row r gs)

  keep : Row W → Positions W → Positions W
  keep r p = record p { result = r ∷ p.result }

  drop_ticket : Ticket → Positions W → Positions W
  drop_ticket t p = record p { dropped_unknown = t ∷ p.dropped_unknown }

module _ {ℓ} {W : Type ℓ} ⦃f : Float W⦄ where
  abbrev max_sane_volume_lots : W
  max_sane_volume_lots = f.dec 1000 1

  abbrev pub finite_positive : Option W → Option W
  finite_positive none = none
  finite_positive (some x) =
      if not (f.is_finite x) then none else if nought <? x then some x else none

  abbrev sane_volume : Option W → Option W
  sane_volume none = none
  sane_volume (some v) = if max_sane_volume_lots <? v then none else some v

  lots_or : Option W → Option W → Option W
  lots_or (some lots) volume = some lots
  lots_or none volume = sane_volume volume

  pub position_lots : Row W → Option W
  unfolding lots_or
  position_lots r = lots_or (finite_positive r.lots) (finite_positive r.volume)

  pub is_sane : Row W → Bool
  unfolding position_lots
  is_sane r = elim (position_lots r) [ none ↦ false | some x ↦ true ]

  sane_rows : List (Row W) → List (Row W)
  sane_rows [] = []
  sane_rows (r ∷ rs) = if is_sane r then r ∷ sane_rows rs else sane_rows rs

  -- A lone row without a usable size is repaired from the log, or dropped.
  pub repair : Row W → Known W → Row W
  repair r k = record r { volume = k.volume; lots = k.volume; type = named k.direction }

  pub is_usable : Option (Known W) → Bool
  is_usable none = false
  is_usable (some k) = elim (finite_positive k.volume) [ none ↦ false | some x ↦ true ]

  repair_or_drop : Ticket → Row W → Option (Known W) → Positions W → Positions W
  unfolding keep drop_ticket is_usable
  repair_or_drop t r none p = drop_ticket t p
  repair_or_drop t r (some k) p =
      if is_usable (some k) then keep (repair r k) p else drop_ticket t p

  -- The row that is kept of duplicates: the only sane one, or else the first.
  pub choose : Row W → List (Row W) → Row W
  choose first (sane ∷ []) = sane
  choose first _ = first

  pub resolve_rows : (Ticket → Option (Known W)) → Ticket → List (Row W) → Positions W → Positions W
  unfolding keep repair_or_drop choose sane_rows
  resolve_rows known t [] p = p
  resolve_rows known t (r ∷ []) p = if is_sane r then keep r p else repair_or_drop t r (known t) p
  resolve_rows known t (r ∷ s ∷ rs) p = keep (choose r (sane_rows (r ∷ s ∷ rs))) p

  -- The groups in the order in which their tickets appear.
  unfoldable pub resolve_all : (Ticket → Option (Known W)) → List (Group W) → Positions W
  resolve_all known [] = record { result = []; dropped_unknown = [] }
  resolve_all known (g ∷ gs) = resolve_rows known g.ticket g.rows (resolve_all known gs)

  unfoldable pub dedupe_positions :
      List (Option (Row W)) → (Ticket → Option (Known W)) → Positions W
  unfolding group_rows resolve_all
  dedupe_positions rows known = resolve_all known (group_rows rows [])

  -- `_parse_open_positions_response`: `none` is the RuntimeError, and a payload that is no list is
  -- `none` too.
  unfoldable pub parse_open_positions_response :
      (payload : Option (List (Option (Row W)))) (status : ℕ) (known : Ticket → Option (Known W))
      → Option (Positions W)
  unfolding dedupe_positions
  parse_open_positions_response none status known = none
  parse_open_positions_response (some rows) status known =
      if ltb status 200 || leb 300 status then none else some (dedupe_positions rows known)
