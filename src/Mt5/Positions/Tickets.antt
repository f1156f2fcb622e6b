-- ===== src/Mt5/Positions/Tickets.antt =====
-- Which tickets `_dedupe_positions` reports (live_trading/mt5/connector.py).
use scalping.Prelude.{
  ◌≡◌, refl, Bool, true, false, not, ◌&&◌, ◌||◌, Option, none, some, List, [], ◌∷◌, ◌++◌, arith,
  All, All-append, Bool-cases, inl, inr, sym,
}
use scalping.Float.{Float}
use scalping.Mt5.Positions.{
  Ticket, same_ticket, Row, Known, Group, Positions, add_row, group_rows, is_sane, sane_rows,
  repair, choose, resolve_rows, resolve_all, dedupe_positions,
}

abbrev pub mem : Ticket → List Ticket → Bool
mem t [] = false
mem t (x ∷ xs) = same_ticket x t || mem t xs

abbrev pub distinct : List Ticket → Bool
distinct [] = true
distinct (x ∷ xs) = not (mem x xs) && distinct xs

pub same_ticket→eq : (a b : Ticket) → same_ticket a b ≡ true → a ≡ b
same_ticket→eq a b h = ground arith

pub same_ticket_comm : (a b : Ticket) → same_ticket a b ≡ same_ticket b a
same_ticket_comm a b = ground arith

module _ {ℓ} {W : Type ℓ} where
  abbrev pub tickets : List (Row W) → List Ticket
  tickets [] = []
  tickets (r ∷ rs) = r.ticket ∷ tickets rs

  -- The tickets of the bridge's rows.
  abbrev pub row_tickets : List (Option (Row W)) → List Ticket
  row_tickets [] = []
  row_tickets (none ∷ rows) = row_tickets rows
  row_tickets (some r ∷ rows) = r.ticket ∷ row_tickets rows

  -- A ticket is among the positions or among those dropped.
  abbrev pub is_reported : Ticket → Positions W → Bool
  is_reported t p = mem t (tickets p.result) || mem t p.dropped_unknown

  abbrev pub group_tickets : List (Group W) → List Ticket
  group_tickets [] = []
  group_tickets (g ∷ gs) = g.ticket ∷ group_tickets gs

  -- Every row of a group has its ticket, and there is one.
  abbrev HasTicket : Ticket → List (Row W) → Type 0
  HasTicket t = All λ r. r.ticket ≡ t

  abbrev IsFilled : List (Row W) → Type 0
  IsFilled [] = ⊥
  IsFilled (r ∷ rs) = Unit

  abbrev IsGroup : Group W → Type 0
  IsGroup g = HasTicket g.ticket g.rows × IsFilled g.rows

  IsFilled-append : (xs : List (Row W)) (r : Row W) → IsFilled (xs ++ (r ∷ []))
  IsFilled-append [] r = tt
  IsFilled-append (x ∷ xs) r = tt

  add_row-IsGroup : (r : Row W) (gs : List (Group W)) → All IsGroup gs → All IsGroup (add_row r gs)
  unfolding add_row
  add_row-IsGroup r [] h = (((refl, tt), tt), tt)
  add_row-IsGroup r (g ∷ gs) (h, hs) = elim (Bool-cases (same_ticket g.ticket r.ticket)) [
    | inl e ↦ rw e (
      (
        All-append (λ x. x.ticket ≡ g.ticket) g.rows (r ∷ []) h.0
            (sym (same_ticket→eq g.ticket r.ticket e), tt),
        IsFilled-append g.rows r,
      ),
      hs,
    )
    | inr e ↦ rw e (h, add_row-IsGroup r gs hs)
  ]

  pub mem-add_row :
      (t : Ticket) (r : Row W) (gs : List (Group W))
      → mem t (group_tickets (add_row r gs)) ≡ (mem t (group_tickets gs) || same_ticket r.ticket t)
  unfolding add_row
  mem-add_row t r [] = ground arith
  mem-add_row t r (g ∷ gs) = ground (arith, mem-add_row t r gs, same_ticket→eq g.ticket r.ticket)

  mem-group_rows :
      (t : Ticket) (rows : List (Option (Row W))) (gs : List (Group W))
      → mem t (group_tickets (group_rows rows gs))
        ≡ (mem t (group_tickets gs) || mem t (row_tickets rows))
  unfolding group_rows
  mem-group_rows t [] gs = ground arith
  mem-group_rows t (none ∷ rows) gs = mem-group_rows t rows gs
  mem-group_rows t (some r ∷ rows) gs =
      ground (arith, mem-group_rows t rows (add_row r gs), mem-add_row t r gs)

  distinct-add_row :
      (r : Row W) (gs : List (Group W))
      → distinct (group_tickets gs) ≡ true
      → distinct (group_tickets (add_row r gs)) ≡ true
  unfolding add_row
  distinct-add_row r [] h = refl
  distinct-add_row r (g ∷ gs) h =
      ground (
        arith,
        distinct-add_row r gs,
        mem-add_row g.ticket r gs,
        same_ticket_comm g.ticket r.ticket,
      )

  distinct-group_rows :
      (rows : List (Option (Row W))) (gs : List (Group W))
      → distinct (group_tickets gs) ≡ true
      → distinct (group_tickets (group_rows rows gs)) ≡ true
  unfolding group_rows
  distinct-group_rows [] gs h = h
  distinct-group_rows (none ∷ rows) gs h = distinct-group_rows rows gs h
  distinct-group_rows (some r ∷ rows) gs h =
      distinct-group_rows rows (add_row r gs) (distinct-add_row r gs h)

  group_rows-IsGroup :
      (rows : List (Option (Row W))) (gs : List (Group W))
      → All IsGroup gs
      → All IsGroup (group_rows rows gs)
  unfolding group_rows
  group_rows-IsGroup [] gs h = h
  group_rows-IsGroup (none ∷ rows) gs h = group_rows-IsGroup rows gs h
  group_rows-IsGroup (some r ∷ rows) gs h =
      group_rows-IsGroup rows (add_row r gs) (add_row-IsGroup r gs h)

module _ {ℓ} {W : Type ℓ} ⦃f : Float W⦄ (known : Ticket → Option (Known W)) where
  sane_rows-HasTicket :
      (t : Ticket) (rs : List (Row W)) → HasTicket t rs → HasTicket t (sane_rows rs)
  unfolding sane_rows
  sane_rows-HasTicket t [] h = tt
  sane_rows-HasTicket t (r ∷ rs) (h, hs) = elim (Bool-cases (is_sane r)) [
    | inl e ↦ rw e (h, sane_rows-HasTicket t rs hs)
    | inr e ↦ rw e (sane_rows-HasTicket t rs hs)
  ]

  choose-ticket :
      (t : Ticket) (r : Row W) (sane : List (Row W))
      → r.ticket ≡ t
      → HasTicket t sane
      → (choose r sane).ticket ≡ t
  unfolding choose
  choose-ticket t r [] h hs = h
  choose-ticket t r (s ∷ []) h hs = hs.0
  choose-ticket t r (s ∷ u ∷ rs) h hs = h

  -- A group adds its ticket to one of the two lists, and no other ticket.
  is_reported-resolve_rows :
      (t' t : Ticket) (rs : List (Row W)) (p : Positions W)
      → HasTicket t rs
      → IsFilled rs
      → is_reported t' (resolve_rows known t rs p) ≡ (same_ticket t t' || is_reported t' p)
  unfolding resolve_rows repair
  is_reported-resolve_rows t' t [] p h n = absurd n
  is_reported-resolve_rows t' t (r ∷ []) p (h, _) n = ground arith
  is_reported-resolve_rows t' t (r ∷ s ∷ rs) p h n =
      ground (
        arith,
        choose-ticket t r (sane_rows (r ∷ s ∷ rs)) h.0 (sane_rows-HasTicket t (r ∷ s ∷ rs) h),
      )

  is_reported-resolve_all :
      (t : Ticket) (gs : List (Group W))
      → All IsGroup gs
      → is_reported t (resolve_all known gs) ≡ mem t (group_tickets gs)
  unfolding resolve_all
  is_reported-resolve_all t [] h = refl
  is_reported-resolve_all t (g ∷ gs) (h, hs) = ground (
    arith,
    is_reported-resolve_rows t g.ticket g.rows (resolve_all known gs) h.0 h.1,
    is_reported-resolve_all t gs hs,
  )

  -- A group adds one position at most.
  result-resolve_rows :
      (t : Ticket) (rs : List (Row W)) (p : Positions W)
      → HasTicket t rs
      → mem t (tickets p.result) ≡ false
      → distinct (tickets p.result) ≡ true
      → distinct (tickets (resolve_rows known t rs p).result) ≡ true
  unfolding resolve_rows repair
  result-resolve_rows t [] p h m d = d
  result-resolve_rows t (r ∷ []) p (h, _) m d = ground arith
  result-resolve_rows t (r ∷ s ∷ rs) p h m d =
      ground (
        arith,
        choose-ticket t r (sane_rows (r ∷ s ∷ rs)) h.0 (sane_rows-HasTicket t (r ∷ s ∷ rs) h),
      )

  result-resolve_all :
      (gs : List (Group W))
      → All IsGroup gs
      → distinct (group_tickets gs) ≡ true
      → distinct (tickets (resolve_all known gs).result) ≡ true
  unfolding resolve_all
  result-resolve_all [] h d = refl
  result-resolve_all (g ∷ gs) (h, hs) d =
      result-resolve_rows g.ticket g.rows (resolve_all known gs) h.0
        (ground (arith, is_reported-resolve_all g.ticket gs hs))
        (result-resolve_all gs hs (ground arith))

  -- A ticket is reported, as a position or as dropped, exactly when some row of the bridge has it:
  -- no ticket is lost and none is invented.
  pub is_reported-dedupe_positions :
      (t : Ticket) (rows : List (Option (Row W)))
      → is_reported t (dedupe_positions rows known) ≡ mem t (row_tickets rows)
  unfolding dedupe_positions
  is_reported-dedupe_positions t rows = ground (
    arith,
    is_reported-resolve_all t (group_rows rows []) (group_rows-IsGroup rows [] tt),
    mem-group_rows t rows [],
  )

  -- No two positions of the result have the same ticket.
  pub distinct-dedupe_positions :
      (rows : List (Option (Row W)))
      → distinct (tickets (dedupe_positions rows known).result) ≡ true
  unfolding dedupe_positions
  distinct-dedupe_positions rows =
      result-resolve_all (group_rows rows []) (group_rows-IsGroup rows [] tt)
        (distinct-group_rows rows [] refl)
