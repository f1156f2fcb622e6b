-- ===== src/Mt5/Positions/Repair.antt =====
-- The sizes of the rows that `_dedupe_positions` keeps (live_trading/mt5/connector.py).
use scalping.Prelude.{
  ◌≡◌, refl, Bool, true, false, not, ◌&&◌, Option, none, some, List, [], ◌∷◌, arith, All,
  Bool-cases, Option-cases, inl, inr,
}
use scalping.Float.{Float}
use scalping.Mt5.Positions.{
  Ticket, same_ticket, Row, Known, Group, Positions, add_row, group_rows, keep, drop_ticket,
  position_lots, lots_or, is_sane, sane_rows, repair, is_usable, repair_or_drop, choose,
  resolve_rows, resolve_all, dedupe_positions,
}
use scalping.Mt5.Positions.Tickets.{
  mem, distinct, row_tickets, group_tickets, mem-add_row, same_ticket_comm,
}

abbrev disjoint : List Ticket → List Ticket → Bool
disjoint [] ys = true
disjoint (t ∷ ts) ys = not (mem t ys) && disjoint ts ys

same_ticket_refl : (t : Ticket) → same_ticket t t ≡ true
same_ticket_refl none = refl
same_ticket_refl (some n) = ground arith

module _ {ℓ} {W : Type ℓ} where
  abbrev IsSingle : List (Row W) → Type 0
  IsSingle (r ∷ []) = Unit
  IsSingle _ = ⊥

  abbrev IsLone : Group W → Type 0
  IsLone g = IsSingle g.rows

  add_row-IsLone :
      (r : Row W) (gs : List (Group W))
      → mem r.ticket (group_tickets gs) ≡ false
      → All IsLone gs
      → All IsLone (add_row r gs)
  unfolding add_row
  add_row-IsLone r [] m h = (tt, tt)
  add_row-IsLone r (g ∷ gs) m (h, hs) = elim (Bool-cases (same_ticket g.ticket r.ticket)) [
    | inl e ↦ ground arith
    | inr e ↦ rw e (h, add_row-IsLone r gs (ground arith) hs)
  ]

  disjoint-add_row :
      (r : Row W) (gs : List (Group W)) (ts : List Ticket)
      → disjoint ts (group_tickets gs) ≡ true
      → mem r.ticket ts ≡ false
      → disjoint ts (group_tickets (add_row r gs)) ≡ true
  disjoint-add_row r gs [] d m = refl
  disjoint-add_row r gs (t ∷ ts) d m =
      ground (arith, disjoint-add_row r gs ts, mem-add_row t r gs, same_ticket_comm t r.ticket)

  group_rows-IsLone :
      (rows : List (Option (Row W))) (gs : List (Group W))
      → distinct (row_tickets rows) ≡ true
      → disjoint (row_tickets rows) (group_tickets gs) ≡ true
      → All IsLone gs
      → All IsLone (group_rows rows gs)
  unfolding group_rows
  group_rows-IsLone [] gs d j h = h
  group_rows-IsLone (none ∷ rows) gs d j h = group_rows-IsLone rows gs d j h
  group_rows-IsLone (some r ∷ rows) gs d j h =
      group_rows-IsLone rows (add_row r gs) (ground arith)
        (disjoint-add_row r gs (row_tickets rows) (ground arith) (ground arith))
        (add_row-IsLone r gs (ground arith) h)

disjoint_nil : (ts : List Ticket) → disjoint ts [] ≡ true
disjoint_nil [] = refl
disjoint_nil (t ∷ ts) = disjoint_nil ts

module _ {ℓ} {W : Type ℓ} ⦃f : Float W⦄ (known : Ticket → Option (Known W)) where
  abbrev pub IsSane : Row W → Type 0
  IsSane r = is_sane r ≡ true

  repair-IsSane : (r : Row W) (k : Known W) → is_usable (some k) ≡ true → IsSane (repair r k)
  unfolding is_usable is_sane position_lots lots_or repair
  repair-IsSane r k h = ground arith

  resolve_rows-IsSane :
      (t : Ticket) (rs : List (Row W)) (p : Positions W)
      → IsSingle rs
      → All IsSane p.result
      → All IsSane (resolve_rows known t rs p).result
  unfolding resolve_rows repair_or_drop keep drop_ticket
  resolve_rows-IsSane t [] p n h = h
  resolve_rows-IsSane t (r ∷ []) p n h = elim (Bool-cases (is_sane r)) [
    | inl e ↦ rw e (e, h)
    | inr e ↦ elim (Option-cases (known t)) [
      | inl o ↦ rw (e, o) h
      | inr (k, o) ↦ elim (Bool-cases (is_usable (some k))) [
        | inl u ↦ rw (e, o, u) (repair-IsSane r k u, h)
        | inr u ↦ rw (e, o, u) h
      ]
    ]
  ]
  resolve_rows-IsSane t (r ∷ s ∷ rs) p n h = absurd n

  resolve_all-IsSane :
      (gs : List (Group W)) → All IsLone gs → All IsSane (resolve_all known gs).result
  unfolding resolve_all
  resolve_all-IsSane [] h = tt
  resolve_all-IsSane (g ∷ gs) (h, hs) =
      resolve_rows-IsSane g.ticket g.rows (resolve_all known gs) h (resolve_all-IsSane gs hs)

  -- When the bridge reports each ticket once, every position of the result has a plausible size: a
  -- row without one is repaired from the robot's log or dropped.
  pub dedupe_positions-IsSane :
      (rows : List (Option (Row W)))
      → distinct (row_tickets rows) ≡ true
      → All IsSane (dedupe_positions rows known).result
  unfolding dedupe_positions
  dedupe_positions-IsSane rows d =
      resolve_all-IsSane (group_rows rows [])
        (group_rows-IsLone rows [] d (disjoint_nil (row_tickets rows)) tt)

  -- Of three rows with one ticket, the first row is kept although it has no plausible size and the
  -- other two do.
  pub dedupe_positions_corrupted :
      (r s u : Row W)
      → s.ticket ≡ r.ticket
      → u.ticket ≡ r.ticket
      → is_sane r ≡ false
      → is_sane s ≡ true
      → is_sane u ≡ true
      → (dedupe_positions (some r ∷ some s ∷ some u ∷ []) known).result ≡ r ∷ []
  unfolding dedupe_positions group_rows add_row resolve_all resolve_rows choose sane_rows keep
  dedupe_positions_corrupted r s u es eu hr hs hu =
      simp (es, eu, same_ticket_refl r.ticket, hr, hs, hu)
