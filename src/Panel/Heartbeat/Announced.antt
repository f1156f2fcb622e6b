-- ===== src/Panel/Heartbeat/Announced.antt =====
-- The tickets that one check of telegram_panel/core/heartbeat.py announces.
use scalping.Prelude.{
  ℕ, ◌≡◌, ◌∙◌, refl, ap, Bool, true, false, not, ◌&&◌, ◌||◌, Option, none, some, List, [], ◌∷◌,
  ◌++◌, any, ◌==◌, arith, if◌then◌else◌,
}
use scalping.Panel.Robot.{RobotStatus, ConnectionStatus}
use scalping.Panel.Heartbeat.{
  Position, Poll, Event, robot_error, robot_started, robot_stopped, robot_paused, connection_lost,
  connection_restored, heartbeat, trade_opened, HeartbeatMonitor, member, valid, tickets, announce,
  trade_events, status_events, connection_events, check,
}

abbrev pub AllDistinct : List ℕ → Type 0
AllDistinct [] = Unit
AllDistinct (t ∷ ts) = (member t ts ≡ false) × AllDistinct ts

pub member-append : (t : ℕ) (xs ys : List ℕ) → member t (xs ++ ys) ≡ (member t xs || member t ys)
member-append t [] ys = refl
member-append t (x ∷ xs) ys = ground (arith, member-append t xs ys)

-- The lists share no element.
abbrev pub AreApart : List ℕ → List ℕ → Type 0
AreApart xs ys = (t : ℕ) → member t xs ≡ true → member t ys ≡ false

pub AllDistinct-append :
    (xs ys : List ℕ) → AllDistinct xs → AllDistinct ys → AreApart xs ys → AllDistinct (xs ++ ys)
AllDistinct-append [] ys dx dy a = dy
AllDistinct-append (x ∷ xs) ys (n, dx) dy a = (
  rw (member-append x xs ys) (ground (arith, n, a x)),
  AllDistinct-append xs ys dx dy (λ t h. a t (ground (arith, h))),
)

abbrev is_ticket : ℕ → Option ℕ → Bool
is_ticket t none = false
is_ticket t (some u) = t == u

module _ {ℓ} {D : Type ℓ} where
  -- The tickets of the trades among some events.
  abbrev pub announced : List (Event D) → List ℕ
  announced [] = []
  announced (trade_opened t d ∷ es) = t ∷ announced es
  announced (_ ∷ es) = announced es

  -- The readings of positions that succeeded.
  abbrev pub readings : List (Option (Poll D)) → List (List (Position D))
  readings [] = []
  readings (none ∷ ps) = readings ps
  readings (some p ∷ ps) = elim p.positions [ none ↦ readings ps | some qs ↦ qs ∷ readings ps ]

  -- A ticket is in a reading.
  abbrev pub shows : ℕ → List (Position D) → Bool
  shows t ps = any (λ p. is_ticket t p.ticket) ps

  abbrev pub first_shows : ℕ → List (List (Position D)) → Bool
  first_shows t [] = false
  first_shows t (r ∷ rs) = shows t r

  abbrev pub later_shows : ℕ → List (List (Position D)) → Bool
  later_shows t [] = false
  later_shows t (r ∷ rs) = any (shows t) rs

  pub announced-append :
      (es fs : List (Event D)) → announced (es ++ fs) ≡ announced es ++ announced fs
  announced-append [] fs = refl
  announced-append (trade_opened t d ∷ es) fs = ap (λ ts. t ∷ ts) (announced-append es fs)
  announced-append (robot_error ∷ es) fs = announced-append es fs
  announced-append (robot_started ∷ es) fs = announced-append es fs
  announced-append (robot_stopped ∷ es) fs = announced-append es fs
  announced-append (robot_paused ∷ es) fs = announced-append es fs
  announced-append (connection_lost ∷ es) fs = announced-append es fs
  announced-append (connection_restored ∷ es) fs = announced-append es fs
  announced-append (heartbeat n ∷ es) fs = announced-append es fs

  -- A ticket is announced exactly if a row has it and it is in neither set.
  pub announce-member :
      (t : ℕ) (k n : List ℕ) (ps : List (ℕ × D))
      → member t (announced (announce k n ps))
        ≡ (member t (tickets ps) && not (member t k) && not (member t n))
  unfolding announce
  announce-member t k n [] = refl
  announce-member t k n ((u, d) ∷ ps) =
      ground (arith, announce-member t k n ps, announce-member t k (u ∷ n) ps)

  pub announce-AllDistinct :
      (k n : List ℕ) (ps : List (ℕ × D)) → AllDistinct (announced (announce k n ps))
  unfolding announce
  announce-AllDistinct k n [] = tt
  announce-AllDistinct k n ((u, d) ∷ ps) = ground (
    arith,
    announce-AllDistinct k n ps,
    announce-AllDistinct k (u ∷ n) ps,
    announce-member u k (u ∷ n) ps,
  )

  pub valid-shows : (t : ℕ) (ps : List (Position D)) → member t (tickets (valid ps)) ≡ shows t ps
  unfolding valid
  valid-shows t [] = refl
  valid-shows t (p ∷ ps) = ground (arith, valid-shows t ps)

-- The events of a check that are no trades.
status_events-announced {ℓ} :
    (D : Type ℓ) (l : Option RobotStatus) (now : RobotStatus)
    → announced (status_events {D = D} l now) ≡ []
unfolding status_events
status_events-announced D l now = ground arith

connection_events-announced {ℓ} :
    (D : Type ℓ) (l : Option ConnectionStatus) (now : ConnectionStatus)
    → announced (connection_events {D = D} l now) ≡ []
unfolding connection_events
connection_events-announced D l now = ground arith

abbrev beat_events {ℓ} : (D : Type ℓ) → Bool → ℕ → List (Event D)
beat_events D b t = if b then heartbeat t ∷ [] else []

beat-announced {ℓ} : (D : Type ℓ) (b : Bool) (t : ℕ) → announced (beat_events D b t) ≡ []
beat-announced D b t = ground arith

module _ {ℓ} {D : Type ℓ} where
  announced-others :
      (es fs gs hs : List (Event D))
      → announced es ≡ []
      → announced fs ≡ []
      → announced gs ≡ []
      → announced (es ++ (fs ++ (gs ++ hs))) ≡ announced hs
  announced-others es fs gs hs e f g =
      announced-append es (fs ++ (gs ++ hs))
      ∙ ap (λ ts. ts ++ announced (fs ++ (gs ++ hs))) e
      ∙ announced-append fs (gs ++ hs)
      ∙ ap (λ ts. ts ++ announced (gs ++ hs)) f
      ∙ announced-append gs hs
      ∙ ap (λ ts. ts ++ announced hs) g

  pub check-announced :
      (p : Poll D) (m : HeartbeatMonitor)
      → announced (check p m).1 ≡ announced (trade_events p.positions m.known_position_tickets).1
  unfolding check
  check-announced p m =
      announced-others (status_events m.last_status p.status)
        (connection_events m.last_connection p.connection) (beat_events D _ p.now)
        (trade_events p.positions m.known_position_tickets).1
        (status_events-announced D m.last_status p.status)
        (connection_events-announced D m.last_connection p.connection) (beat-announced D _ p.now)

  pub check-known :
      (p : Poll D) (m : HeartbeatMonitor)
      → (check p m).0.known_position_tickets ≡ (trade_events p.positions m.known_position_tickets).0
  unfolding check
  check-known p m = refl
