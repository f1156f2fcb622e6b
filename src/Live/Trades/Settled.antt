-- ===== src/Live/Trades/Settled.antt =====
-- What `_reconcile_closed_trades` and `_restore_trail_baseline` guarantee
-- (live_trading/trading/live_loop.py).
use scalping.Prelude.{
  ℕ, ◌+◌, ◌≤◌, ◌≡◌, refl, ap, true, false, ◌||◌, ◌⊎◌, inl, inr, Option, none, some, List, [], ◌∷◌,
  ◌++◌, All, is_some, Bool-cases, Option-cases, arith,
}
use scalping.Float.{Float, ◌<?◌, nought}
use scalping.Market.{Direction}
use scalping.Risk.Trailing.{Baseline}
use scalping.Mt5.Positions.{same_ticket, Row, position_direction}
use scalping.Live.Engine.{LogRow}
use scalping.Live.Trades.{
  CloseHistory, apply_close_history, Broker, CheckedAt, has_ticket, candidate, apply_history,
  is_due, settle, mark_checked, mark_seen, reconcile_rows, reconcile_closed_trades, baseline_from,
  last_levels, from_log, or_baseline, restore_trail_baseline,
}

module _ {ℓ} {W : Type ℓ} ⦃f : Float W⦄ where
  -- The row became `r'`: it was an entry without a closing time, its position is gone, and the broker has
  -- a complete record.
  pub record IsSettled (k : Broker W) (log : List (LogRow W)) (r r' : LogRow W) : Type ℓ where
    pub id : ℕ
    pub history : CloseHistory W
    pub same_id : r.position_id ≡ some id
    pub was_unsettled : is_some r.close_time ≡ false
    pub is_entry : (is_some r.entry || is_some r.lot) ≡ true
    pub not_open : k.is_open id ≡ false
    pub known : k.history id ≡ some history
    pub applied : apply_close_history log r history ≡ some r'

  -- Row by row; two logs of different lengths are not even equal.
  abbrev pub EachSettled : Broker W → List (LogRow W) → List (LogRow W) → List (LogRow W) → Type ℓ
  EachSettled k log (r ∷ rs) (r' ∷ rs') =
      ((r' ≡ r) ⊎ IsSettled k log r r') × EachSettled k log rs rs'
  EachSettled k log rs rs' = rs' ≡ rs

  candidate_sound :
      (k : Broker W) (seen : List ℕ) (r : LogRow W) (id : ℕ)
      → candidate k seen r ≡ some id
      → (r.position_id ≡ some id)
        × (is_some r.close_time ≡ false)
        × ((is_some r.entry || is_some r.lot) ≡ true)
        × (k.is_open id ≡ false)
  unfolding candidate
  candidate_sound k seen r id h = ground arith

  settle-IsSettled :
      (k : Broker W) (log : List (LogRow W)) (checked : CheckedAt) (seen : List ℕ) (r : LogRow W)
      → let r' = settle k log checked (candidate k seen r) r in (r' ≡ r) ⊎ IsSettled k log r r'
  unfolding settle apply_history
  settle-IsSettled k log checked seen r = elim (Option-cases (candidate k seen r)) [
    | inl e ↦ rw e (inl refl)
    | inr (id, e) ↦ elim (Bool-cases (is_due k checked id)) [
      | inr d ↦ rw (e, d) (inl refl)
      | inl d ↦ elim (Option-cases (k.history id)) [
        | inl n ↦ rw (e, d, n) (inl refl)
        | inr (h, n) ↦ elim (Option-cases (apply_close_history log r h)) [
          | inl a ↦ rw (e, d, n, a) (inl refl)
          | inr (r', a) ↦
              let (i, u, t, o) = candidate_sound k seen r id e in
              rw (e, d, n, a)
                (inr (record {
                  id = id;
                  history = h;
                  same_id = i;
                  was_unsettled = u;
                  is_entry = t;
                  not_open = o;
                  known = n;
                  applied = a;
                }))
        ]
      ]
    ]
  ]

  reconcile_rows-EachSettled :
      (k : Broker W) (log : List (LogRow W)) (seen : List ℕ) (checked : CheckedAt)
      (rs : List (LogRow W))
      → EachSettled k log rs (reconcile_rows k log seen checked rs).0
  unfolding reconcile_rows
  reconcile_rows-EachSettled k log seen checked [] = refl
  reconcile_rows-EachSettled k log seen checked (r ∷ rs) = (
    settle-IsSettled k log checked seen r,
    reconcile_rows-EachSettled k log (mark_seen (candidate k seen r) seen)
        (mark_checked k (candidate k seen r) checked) rs,
  )

  -- The row of a list at the place that follows those of another.
  abbrev pub row_after : List (LogRow W) → List (LogRow W) → Option (LogRow W)
  row_after [] (r ∷ rs) = some r
  row_after (x ∷ xs) (r ∷ rs) = row_after xs rs
  row_after _ [] = none

  -- Rows of other positions.
  abbrev pub AreOthers : (id : ℕ) → List (LogRow W) → Type 0
  AreOthers id rs = All (λ r. same_ticket r.position_id (some id) ≡ false) rs

  candidate_complete :
      (k : Broker W) (seen : List ℕ) (r : LogRow W) (id : ℕ)
      → r.position_id ≡ some id
      → is_some r.close_time ≡ false
      → (is_some r.entry || is_some r.lot) ≡ true
      → k.is_open id ≡ false
      → has_ticket id seen ≡ false
      → candidate k seen r ≡ some id
  unfolding candidate
  candidate_complete k seen r id i u t o s = ground arith

  -- A row of another position leaves this one unseen and not asked for.
  mark_seen-others :
      (k : Broker W) (seen : List ℕ) (r : LogRow W) (id : ℕ)
      → same_ticket r.position_id (some id) ≡ false
      → has_ticket id seen ≡ false
      → has_ticket id (mark_seen (candidate k seen r) seen) ≡ false
  unfolding mark_seen
  mark_seen-others k seen r id other s = elim (Option-cases (candidate k seen r)) [
    | inl e ↦ rw e s
    | inr (j, e) ↦ rw e (ground (arith, candidate_sound k seen r j e))
  ]

  mark_checked-others :
      (k : Broker W) (seen : List ℕ) (checked : CheckedAt) (r : LogRow W) (id : ℕ)
      → same_ticket r.position_id (some id) ≡ false
      → mark_checked k (candidate k seen r) checked id ≡ checked id
  unfolding mark_checked
  mark_checked-others k seen checked r id other = elim (Option-cases (candidate k seen r)) [
    | inl e ↦ rw e refl
    | inr (j, e) ↦ rw e (ground (arith, candidate_sound k seen r j e))
  ]

  module _ (k : Broker W) (log : List (LogRow W)) (r r' : LogRow W) (id : ℕ)
      (h : CloseHistory W) where
    settle_complete :
        (checked : CheckedAt)
        → is_due k checked id ≡ true
        → k.history id ≡ some h
        → apply_close_history log r h ≡ some r'
        → settle k log checked (some id) r ≡ r'
    unfolding settle apply_history
    settle_complete checked due known e = rw (due, known, e) refl

    reconcile_rows-settled :
        (before after : List (LogRow W)) (seen : List ℕ) (checked : CheckedAt)
        → AreOthers id before
        → r.position_id ≡ some id
        → is_some r.close_time ≡ false
        → (is_some r.entry || is_some r.lot) ≡ true
        → k.is_open id ≡ false
        → has_ticket id seen ≡ false
        → is_due k checked id ≡ true
        → k.history id ≡ some h
        → apply_close_history log r h ≡ some r'
        → row_after before (reconcile_rows k log seen checked (before ++ r ∷ after)).0 ≡ some r'
    unfolding reconcile_rows
    reconcile_rows-settled [] after seen checked others i u t o s due known e =
        rw (candidate_complete k seen r id i u t o s)
          (ap some (settle_complete checked due known e))
    reconcile_rows-settled (x ∷ before) after seen checked (other, others) i u t o s due known e =
        reconcile_rows-settled before after _ _ others i u t o
          (mark_seen-others k seen x id other s)
          (rw (mark_checked-others k seen checked x id other) due) known e

  -- In a log, an entry (a row with an entry price or a lot) has no closing time, its position is no
  -- longer open, no earlier row is of that position, the broker was not asked for it within 60 seconds,
  -- and has a complete record `h` of it. A pass then puts the entry with that record in its place; and
  -- it keeps every row of the log as it is, unless the row is such an entry, without a closing time, of
  -- a position that is not open, and becomes that entry with the broker's complete record of it.
  pub reconcile_closed_trades-EachSettled :
      (k : Broker W) (checked : CheckedAt) (before after : List (LogRow W)) (r r' : LogRow W)
      (id : ℕ) (h : CloseHistory W)
      → AreOthers id before
      → r.position_id ≡ some id
      → is_some r.close_time ≡ false
      → (is_some r.entry || is_some r.lot) ≡ true
      → k.is_open id ≡ false
      → checked id + 60 ≤ k.now
      → k.history id ≡ some h
      → apply_close_history (before ++ r ∷ after) r h ≡ some r'
      → let log = before ++ r ∷ after in
        let log' = (reconcile_closed_trades k checked log).0 in
        EachSettled k log log log' × (row_after before log' ≡ some r')
  unfolding reconcile_closed_trades
  reconcile_closed_trades-EachSettled k checked before after r r' id h others i u t o due known e =
      let log = before ++ r ∷ after in
      (
        reconcile_rows-EachSettled k log [] checked log,
        reconcile_rows-settled k log r r' id h before after [] checked others i u t o refl
            (ground arith) known e,
      )

  abbrev pub HasRisk : Option (Baseline W) → Type 0
  HasRisk none = Unit
  HasRisk (some b) = (nought <? b.risk_distance) ≡ true

  baseline_from-HasRisk : (d : Direction) (entry stop : W) → HasRisk (baseline_from d entry stop)
  unfolding baseline_from
  baseline_from-HasRisk d entry stop = elim (Bool-cases (nought <? f.abs (f.sub entry stop))) [
    | inl e ↦ rw e e
    | inr e ↦ rw e tt
  ]

  from_log-HasRisk : (x : Option (Direction × W × W)) → HasRisk (from_log x)
  unfolding from_log
  from_log-HasRisk none = tt
  from_log-HasRisk (some (d, entry, stop)) = baseline_from-HasRisk d entry stop

  or_baseline-HasRisk :
      (a b : Option (Baseline W)) → HasRisk a → HasRisk b → HasRisk (or_baseline a b)
  unfolding or_baseline
  or_baseline-HasRisk none b p q = q
  or_baseline-HasRisk (some a) b p q = p

  -- A baseline that is found again has a positive risk distance: without one, the position is not
  -- trailed.
  pub restore_trail_baseline-HasRisk :
      (log : List (LogRow W)) (r : Row W) → HasRisk (restore_trail_baseline log r)
  unfolding restore_trail_baseline
  restore_trail_baseline-HasRisk log r =
      let d = position_direction r.type r.order_type in
      or_baseline-HasRisk (from_log (last_levels log r.ticket none d))
        (baseline_from d r.open_price r.sl) (from_log-HasRisk (last_levels log r.ticket none d))
        (baseline_from-HasRisk d r.open_price r.sl)
