-- ===== src/Panel/Heartbeat/Once.antt =====
-- Each trade is announced once by telegram_panel/core/heartbeat.py.
use scalping.Prelude.{
  ℕ, ◌≡◌, ◌∙◌, refl, sym, ap, not, ◌&&◌, Option, none, some, List, [], ◌∷◌, ◌++◌, any, arith,
}
use scalping.Panel.Heartbeat.{
  Position, Poll, Event, HeartbeatMonitor, member, valid, tickets, announce, trade_events, check_if,
  loop, new_monitor,
}
use scalping.Panel.Heartbeat.Announced.{
  AllDistinct, AllDistinct-append, member-append, AreApart, announced, readings, shows, first_shows,
  later_shows, announced-append, announce-member, announce-AllDistinct, valid-shows,
  check-announced, check-known,
}

module _ {ℓ} {D : Type ℓ} where
  -- A check adds to the readings that came before.
  abbrev reading_of : Option (Poll D) → Option (List (Position D))
  reading_of none = none
  reading_of (some p) = p.positions

  check_if-announced :
      (p : Option (Poll D)) (m : HeartbeatMonitor)
      → announced (check_if p m).1
        ≡ announced (trade_events (reading_of p) m.known_position_tickets).1
  unfolding check_if trade_events
  check_if-announced none m = refl
  check_if-announced (some p) m = check-announced p m

  check_if-known :
      (p : Option (Poll D)) (m : HeartbeatMonitor)
      → (check_if p m).0.known_position_tickets
        ≡ (trade_events (reading_of p) m.known_position_tickets).0
  unfolding check_if trade_events
  check_if-known none m = refl
  check_if-known (some p) m = check-known p m

  abbrev add_reading :
      Option (List (Position D)) → List (List (Position D)) → List (List (Position D))
  add_reading none rs = rs
  add_reading (some r) rs = r ∷ rs

  readings-cons :
      (p : Option (Poll D)) (ps : List (Option (Poll D)))
      → readings (p ∷ ps) ≡ add_reading (reading_of p) (readings ps)
  readings-cons none ps = refl
  readings-cons (some p) ps = ground arith

  -- From some known tickets on: a ticket is announced exactly if it is shown and not known.
  abbrev AnnouncesNew : List ℕ → List (List (Position D)) → List (Event D) → Type 0
  AnnouncesNew k rs es =
      AllDistinct (announced es)
      × ((t : ℕ) → member t (announced es) ≡ (any (shows t) rs && not (member t k)))

  AnnouncesNew-append :
      (k : List ℕ) (r : List (Position D)) (rs : List (List (Position D))) (es : List (Event D))
      → AnnouncesNew (k ++ tickets (valid r)) rs es
      → AnnouncesNew k (r ∷ rs) (announce k [] (valid r) ++ es)
  AnnouncesNew-append k r rs es (d, all) =
      let now = announce k [] (valid r) in
      let joined = announced-append now es in
      let apart : AreApart (announced now) (announced es) = λ t h. ground (
        arith,
        h,
        all t,
        announce-member t k [] (valid r),
        member-append t k (tickets (valid r)),
      ) in
      (
        rw joined (
            AllDistinct-append (announced now) (announced es) (announce-AllDistinct k [] (valid r))
              d apart),
        λ t. rw joined (
            ground (
              arith,
              all t,
              announce-member t k [] (valid r),
              valid-shows t r,
              member-append t k (tickets (valid r)),
              member-append t (announced now) (announced es),
            )),
      )

  -- What a reading adds to the known tickets, and what it announces.
  abbrev known_after : Option (List (Position D)) → List ℕ → List ℕ
  unfolding valid
  known_after none k = k
  known_after (some r) k = k ++ tickets (valid r)

  abbrev opened_by : Option (List (Position D)) → List ℕ → List (Event D)
  unfolding announce valid
  opened_by none k = []
  opened_by (some r) k = announce k [] (valid r)

  trade_events-some :
      (o : Option (List (Position D))) (k : List ℕ)
      → trade_events o (some k) ≡ (some (known_after o k), opened_by o k)
  unfolding trade_events known_after opened_by
  trade_events-some none k = refl
  trade_events-some (some r) k = refl

  AnnouncesNew-step :
      (o : Option (List (Position D))) (k : List ℕ) (rs : List (List (Position D)))
      (es fs : List (Event D))
      → announced es ≡ announced (opened_by o k)
      → AnnouncesNew (known_after o k) rs fs
      → AnnouncesNew k (add_reading o rs) (es ++ fs)
  unfolding known_after opened_by
  AnnouncesNew-step none k rs es fs e (d, all) =
      let same = announced-append es fs ∙ ap (λ ts. ts ++ announced fs) e in
      (rw same d, λ t. rw same (all t))
  AnnouncesNew-step (some r) k rs es fs e h =
      let now = announce k [] (valid r) in
      let same =
        announced-append es fs ∙ ap (λ ts. ts ++ announced fs) e ∙ sym (announced-append now fs) in
      let (d, all) = AnnouncesNew-append k r rs fs h in (rw same d, λ t. rw same (all t))

  loop-AnnouncesNew :
      (ps : List (Option (Poll D))) (m : HeartbeatMonitor) (k : List ℕ)
      → m.known_position_tickets ≡ some k
      → AnnouncesNew k (readings ps) (loop ps m).1
  unfolding loop
  loop-AnnouncesNew [] m k e = (tt, λ t. refl)
  loop-AnnouncesNew (p ∷ ps) m k e =
      let o = reading_of p in
      let at_k = ap (λ (ks : Option (List ℕ)). trade_events o ks) e ∙ trade_events-some o k in
      let (m', es) = check_if p m in
      let known = check_if-known p m ∙ ap (λ (r : Option (List ℕ) × List (Event D)). r.0) at_k in
      let now =
        check_if-announced p m
        ∙ ap (λ (r : Option (List ℕ) × List (Event D)). announced r.1) at_k in
      let (d, all) =
        AnnouncesNew-step o k (readings ps) es (loop ps m').1 now
          (loop-AnnouncesNew ps m' (known_after o k) known) in
      (d, λ t. rw (readings-cons p ps) (all t))

  -- From no known tickets on: the first reading is not announced.
  abbrev AnnouncesLater : List (List (Position D)) → List (Event D) → Type 0
  AnnouncesLater rs es =
      AllDistinct (announced es)
      × ((t : ℕ) → member t (announced es) ≡ (later_shows t rs && not (first_shows t rs)))

  AnnouncesLater-step :
      (o : Option (List (Position D))) (m : HeartbeatMonitor) (ps : List (Option (Poll D)))
      (es : List (Event D))
      → m.known_position_tickets ≡ (trade_events {D = D} o none).0
      → announced es ≡ announced (trade_events o none).1
      → (m.known_position_tickets ≡ none → AnnouncesLater (readings ps) (loop ps m).1)
      → AnnouncesLater (add_reading o (readings ps)) (es ++ (loop ps m).1)
  unfolding trade_events
  AnnouncesLater-step none m ps es known now rest =
      let fs = (loop ps m).1 in
      let (d, all) = rest known in
      let same = announced-append es fs ∙ ap (λ ts. ts ++ announced fs) now in
      (rw same d, λ t. rw same (all t))
  AnnouncesLater-step (some r) m ps es known now rest =
      let fs = (loop ps m).1 in
      let (d, all) = loop-AnnouncesNew ps m (tickets (valid r)) known in
      let same = announced-append es fs ∙ ap (λ ts. ts ++ announced fs) now in
      (
        rw same d,
        λ t. rw same (all t ∙ ap (λ b. any (shows t) (readings ps) && not b) (valid-shows t r)),
      )

  loop-AnnouncesLater :
      (ps : List (Option (Poll D))) (m : HeartbeatMonitor)
      → m.known_position_tickets ≡ none
      → AnnouncesLater (readings ps) (loop ps m).1
  unfolding loop
  loop-AnnouncesLater [] m e = (tt, λ t. refl)
  loop-AnnouncesLater (p ∷ ps) m e =
      let o = reading_of p in
      let at_none = ap (λ (ks : Option (List ℕ)). trade_events o ks) e in
      let (m', es) = check_if p m in
      let known = check_if-known p m ∙ ap (λ (r : Option (List ℕ) × List (Event D)). r.0) at_none in
      let now =
        check_if-announced p m
        ∙ ap (λ (r : Option (List ℕ) × List (Event D)). announced r.1) at_none in
      let (d, all) = AnnouncesLater-step o m' ps es known now (loop-AnnouncesLater ps m') in
      (d, λ t. rw (readings-cons p ps) (all t))

  -- Over any rounds of a new monitor, those included in which the robot service or the bridge raises: no
  -- ticket is announced twice, and a ticket is announced exactly if some later reading of positions shows
  -- it and the first one did not.
  pub loop_announced :
      (hb_interval : ℕ) (ps : List (Option (Poll D)))
      → let tickets = announced (loop ps (new_monitor hb_interval)).1 in
        AllDistinct tickets
        × ((t : ℕ)
            → member t tickets ≡ (later_shows t (readings ps) && not (first_shows t (readings ps))))
  loop_announced i ps = loop-AnnouncesLater ps (new_monitor i) refl
