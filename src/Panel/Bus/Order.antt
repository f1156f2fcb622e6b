-- ===== src/Panel/Bus/Order.antt =====
-- The queue of telegram_panel/core/event_bus.py keeps the order of events and loses none that it takes.
use scalping.Prelude.{
  ℕ, ◌+◌, ◌≤◌, ◌≡◌, refl, sym, ap, ◌∙◌, ◌-◌, ◌⊎◌, Bool, true, false, not, ◌&&◌, Option, none, some,
  List, [], ◌∷◌, ◌++◌, map, length, length-append, ltb, arith, Bool-cases, inl, inr, if◌then◌else◌,
}
use mathlib.Core.List.{append_assoc, append-nil}
use scalping.Panel.Bus.{
  Event, Delivery, WorkerPhase, gone, waiting, busy, Worker, latest, older, EventBus, Operation,
  start, stop, take, finish, timeout, subscribe, unsubscribe, publish, maxsize, empty_bus,
  publish_event, handlers_of, is_waiting, is_busy, leave_waiting, leave_busy, enter, task_done,
  begin, deliver, deliver_if, finish_if, timeout_if, cancel, step, and_then, run,
}

abbrev one_if_busy : WorkerPhase → ℕ
one_if_busy gone = 0
one_if_busy waiting = 0
one_if_busy busy = 1

idle-one_if_busy : (x : Bool) → one_if_busy (if x then waiting else gone) ≡ 0
idle-one_if_busy x = ground arith

module _ {ℓ} {D : Type ℓ} where
  -- The event that an operation puts into the queue, if there is room.
  abbrev pub enqueued : Operation D → EventBus D → List (Event D)
  enqueued (publish e) b = if ltb (length b.queue) maxsize then e ∷ [] else []
  enqueued _ b = []

  -- Those of a sequence of operations.
  unfoldable pub taken : List (Operation D) → EventBus D → List (Event D)
  unfolding step
  taken [] b = []
  taken (o ∷ os) b = enqueued o b ++ taken os (step o b).0

  abbrev pub delivered_events : List (Delivery D) → List (Event D)
  delivered_events ds = map (λ d. d.event) ds

  -- The workers whose handlers are running.
  abbrev pub busy_workers : EventBus D → ℕ
  busy_workers b = one_if_busy b.phase + b.older_busy

  -- How often `stop` is called while the handlers of the worker that it cancels are running.
  abbrev interrupts : Operation D → EventBus D → ℕ
  interrupts stop b = one_if_busy b.phase
  interrupts _ b = 0

  unfoldable pub interrupted : List (Operation D) → EventBus D → ℕ
  unfolding step
  interrupted [] b = 0
  interrupted (o ∷ os) b = interrupts o b + interrupted os (step o b).0

  -- The queue fits; the unfinished tasks are the events that wait or are handled, less `n` at most.
  abbrev pub IsCounted : ℕ → EventBus D → Type 0
  IsCounted n b =
      (length b.queue ≤ maxsize)
      × (b.unfinished ≤ length b.queue + busy_workers b)
      × (length b.queue + busy_workers b ≤ b.unfinished + n)

  publish_event-IsCounted :
      (n : ℕ) (e : Event D) (b : EventBus D) → IsCounted n b → IsCounted n (publish_event e b)
  unfolding publish_event
  publish_event-IsCounted n e b (fits, le, ge) = elim (Bool-cases (ltb (length b.queue) maxsize)) [
    | inl h ↦ rw h (ground (arith, fits, le, ge, length-append b.queue (e ∷ [])))
    | inr h ↦ rw h (fits, le, ge)
  ]

  -- The busy workers, less the given one.
  abbrev others_busy : Worker → EventBus D → ℕ
  others_busy latest b = b.older_busy
  others_busy older b = busy_workers b

  enter_counts :
      (p : WorkerPhase) (w : Worker) (b : EventBus D)
      → let c = enter p w b in
        (c.queue ≡ b.queue)
        × (c.unfinished ≡ b.unfinished)
        × (busy_workers c ≡ others_busy w b + one_if_busy p)
  unfolding enter
  enter_counts p latest b = (refl, refl, omega arith)
  enter_counts gone older b = (refl, refl, omega arith)
  enter_counts waiting older b = (refl, refl, omega arith)
  enter_counts busy older b = (refl, refl, omega arith)

  task_done_counts :
      (w : Worker) (b : EventBus D)
      → let c = task_done w b in
        (c.queue ≡ b.queue) × (c.unfinished ≡ b.unfinished - 1) × (busy_workers c ≡ others_busy w b)
  unfolding task_done
  task_done_counts latest b =
      let goes_on = ltb 0 b.unfinished && b.running in
      let p = if goes_on then waiting else gone in
      let (q, u, n) = enter_counts p latest (record b { unfinished = b.unfinished - 1 }) in
      (q, u, omega (arith, n, idle-one_if_busy goes_on))
  task_done_counts older b =
      let goes_on = ltb 0 b.unfinished && b.running in
      let p = if goes_on then waiting else gone in
      let (q, u, n) = enter_counts p older (record b { unfinished = b.unfinished - 1 }) in
      (q, u, omega (arith, n, idle-one_if_busy goes_on))

  waits-others_busy :
      (w : Worker) (b : EventBus D) (q : List (Event D))
      → is_waiting w b ≡ true
      → others_busy w (leave_waiting w (record b { queue = q })) ≡ busy_workers b
  unfolding is_waiting leave_waiting
  waits-others_busy latest b q r = ground arith
  waits-others_busy older b q r = refl

  busy-others_busy :
      (w : Worker) (b : EventBus D)
      → is_busy w b ≡ true
      → others_busy w (leave_busy w b) + 1 ≡ busy_workers b
  unfolding is_busy leave_busy
  busy-others_busy latest b r = ground arith
  busy-others_busy older b r = ground arith

  leave_waiting_kept :
      (w : Worker) (b : EventBus D)
      → let c = leave_waiting w b in (c.queue ≡ b.queue) × (c.unfinished ≡ b.unfinished)
  unfolding leave_waiting
  leave_waiting_kept latest b = (refl, refl)
  leave_waiting_kept older b = (refl, refl)

  leave_busy_kept :
      (w : Worker) (b : EventBus D)
      → let c = leave_busy w b in (c.queue ≡ b.queue) × (c.unfinished ≡ b.unfinished)
  unfolding leave_busy
  leave_busy_kept latest b = (refl, refl)
  leave_busy_kept older b = (refl, refl)

  -- What `begin` does to the numbers: one event less is unfinished, or one worker more is busy.
  begin_counts :
      (w : Worker) (hs : List ℕ) (b : EventBus D)
      → let c = begin w hs b in
        (c.queue ≡ b.queue)
        × (((c.unfinished ≡ b.unfinished - 1) × (busy_workers c ≡ others_busy w b))
            ⊎ ((c.unfinished ≡ b.unfinished) × (busy_workers c ≡ others_busy w b + 1)))
  unfolding begin
  begin_counts w [] b = let (q, u, n) = task_done_counts w b in (q, inl (u, n))
  begin_counts w (h ∷ hs) b = let (q, u, n) = enter_counts busy w b in (q, inr (u, n))

  deliver-IsCounted :
      (n : ℕ) (w : Worker) (b : EventBus D) (q : List (Event D))
      → b.queue ≡ q
      → is_waiting w b ≡ true
      → IsCounted n b
      → IsCounted n (deliver w b q).0
  unfolding deliver
  deliver-IsCounted n w b [] e r h = h
  deliver-IsCounted n w b (x ∷ q) e r (fits, le, ge) =
      let long : length b.queue ≡ length (x ∷ q) = ap length e in
      let c = record b { queue = q } in
      let hs = handlers_of b.subscribers x.type in
      let (q', u') = leave_waiting_kept w c in
      let (q'', counts) = begin_counts w hs (leave_waiting w c) in
      let size : length (begin w hs (leave_waiting w c)).queue ≡ length q =
        ap length q'' ∙ ap length q' in
      let busy_before = waits-others_busy w b q r in
      elim counts [
        | inl (u, k) ↦ (
          omega (arith, fits, long, size),
          omega (arith, le, long, size, u, u', k, busy_before),
          omega (arith, ge, long, size, u, u', k, busy_before),
        )
        | inr (u, k) ↦ (
          omega (arith, fits, long, size),
          omega (arith, le, long, size, u, u', k, busy_before),
          omega (arith, ge, long, size, u, u', k, busy_before),
        )
      ]

  deliver_if-IsCounted :
      (n : ℕ) (r : Bool) (w : Worker) (b : EventBus D)
      → is_waiting w b ≡ r
      → IsCounted n b
      → IsCounted n (deliver_if r w b).0
  unfolding deliver_if
  deliver_if-IsCounted n true w b r h = deliver-IsCounted n w b b.queue refl r h
  deliver_if-IsCounted n false w b r h = h

  finish_if-IsCounted :
      (n : ℕ) (r : Bool) (w : Worker) (b : EventBus D)
      → is_busy w b ≡ r
      → IsCounted n b
      → IsCounted n (finish_if r w b)
  unfolding finish_if
  finish_if-IsCounted n true w b r (fits, le, ge) =
      let (q', u') = leave_busy_kept w b in
      let (q'', u, k) = task_done_counts w (leave_busy w b) in
      let size : length (task_done w (leave_busy w b)).queue ≡ length b.queue =
        ap length q'' ∙ ap length q' in
      let one = busy-others_busy w b r in
      (
        omega (arith, fits, size),
        omega (arith, le, size, u, u', k, one),
        omega (arith, ge, size, u, u', k, one),
      )
  finish_if-IsCounted n false w b r h = h

  timeout_if-IsCounted :
      (n : ℕ) (r : Bool) (w : Worker) (b : EventBus D)
      → is_waiting w b && not b.running ≡ r
      → IsCounted n b
      → IsCounted n (timeout_if r w b)
  unfolding timeout_if leave_waiting is_waiting
  timeout_if-IsCounted n true latest b r (fits, le, ge) = ground (arith, fits, le, ge)
  timeout_if-IsCounted n true older b r h = h
  timeout_if-IsCounted n false w b r h = h

  start-IsCounted :
      (n : ℕ) (p : WorkerPhase) (b : EventBus D)
      → b.phase ≡ p
      → IsCounted n b
      → IsCounted n (record (enter p older b) { running = true; phase = waiting })
  unfolding enter
  start-IsCounted n gone b e (fits, le, ge) = ground (arith, fits, le, ge)
  start-IsCounted n waiting b e (fits, le, ge) = ground (arith, fits, le, ge)
  start-IsCounted n busy b e (fits, le, ge) = ground (arith, fits, le, ge)

  stop-IsCounted :
      (n : ℕ) (p : WorkerPhase) (b : EventBus D)
      → b.phase ≡ p
      → IsCounted n b
      → IsCounted (one_if_busy p + n) (cancel p (record b { running = false }))
  unfolding cancel
  stop-IsCounted n gone b e (fits, le, ge) = ground (arith, fits, le, ge)
  stop-IsCounted n waiting b e (fits, le, ge) = ground (arith, fits, le, ge)
  stop-IsCounted n busy b e (fits, le, ge) = ground (arith, fits, le, ge)

  undisturbed : (n : ℕ) (b : EventBus D) → IsCounted n b → IsCounted (0 + n) b
  undisturbed n b (fits, le, ge) = (fits, le, omega (arith, ge))

  step-IsCounted :
      (n : ℕ) (o : Operation D) (b : EventBus D)
      → IsCounted n b
      → IsCounted (interrupts o b + n) (step o b).0
  unfolding step
  step-IsCounted n start b h = undisturbed n (step start b).0 (start-IsCounted n b.phase b refl h)
  step-IsCounted n stop b h = stop-IsCounted n b.phase b refl h
  step-IsCounted n (take w) b h =
      undisturbed n (step (take w) b).0 (deliver_if-IsCounted n (is_waiting w b) w b refl h)
  step-IsCounted n (finish w) b h =
      undisturbed n (step (finish w) b).0 (finish_if-IsCounted n (is_busy w b) w b refl h)
  step-IsCounted n (timeout w) b h =
      undisturbed n (step (timeout w) b).0 (timeout_if-IsCounted n _ w b refl h)
  step-IsCounted n (subscribe t k) b h = undisturbed n (step (subscribe t k) b).0 h
  step-IsCounted n (unsubscribe t k) b h = undisturbed n (step (unsubscribe t k) b).0 h
  step-IsCounted n (publish e) b h =
      undisturbed n (step (publish e) b).0 (publish_event-IsCounted n e b h)

  run-IsCounted :
      (n : ℕ) (os : List (Operation D)) (b : EventBus D)
      → IsCounted n b
      → IsCounted (interrupted os b + n) (run os b).0
  unfolding run interrupted
  run-IsCounted n [] b h = undisturbed n b h
  run-IsCounted n (o ∷ os) b h =
      let (fits, le, ge) =
        run-IsCounted (interrupts o b + n) os (step o b).0 (step-IsCounted n o b h) in
      (fits, le, omega (arith, ge))

  -- The events of a delivery, if there is one.
  abbrev delivered : Option (Delivery D) → List (Event D)
  delivered none = []
  delivered (some d) = d.event ∷ []

  publish_event-queue :
      (e : Event D) (b : EventBus D) → (publish_event e b).queue ≡ b.queue ++ enqueued (publish e) b
  unfolding publish_event
  publish_event-queue e b = elim (Bool-cases (ltb (length b.queue) maxsize)) [
    | inl h ↦ rw h refl
    | inr h ↦ rw h (sym (append-nil b.queue))
  ]

  deliver-queue :
      (w : Worker) (b : EventBus D) (q : List (Event D))
      → b.queue ≡ q
      → delivered (deliver w b q).1 ++ (deliver w b q).0.queue ≡ q
  unfolding deliver
  deliver-queue w b [] e = e
  deliver-queue w b (x ∷ q) e =
      let c = record b { queue = q } in
      let hs = handlers_of b.subscribers x.type in
      ap (λ r. x ∷ r) ((begin_counts w hs (leave_waiting w c)).0 ∙ (leave_waiting_kept w c).0)

  deliver_if-queue :
      (r : Bool) (w : Worker) (b : EventBus D)
      → delivered (deliver_if r w b).1 ++ (deliver_if r w b).0.queue ≡ b.queue
  unfolding deliver_if
  deliver_if-queue true w b = deliver-queue w b b.queue refl
  deliver_if-queue false w b = refl

  finish_if-queue : (r : Bool) (w : Worker) (b : EventBus D) → (finish_if r w b).queue ≡ b.queue
  unfolding finish_if
  finish_if-queue true w b = (task_done_counts w (leave_busy w b)).0 ∙ (leave_busy_kept w b).0
  finish_if-queue false w b = refl

  timeout_if-queue : (r : Bool) (w : Worker) (b : EventBus D) → (timeout_if r w b).queue ≡ b.queue
  unfolding timeout_if
  timeout_if-queue true w b = (leave_waiting_kept w b).0
  timeout_if-queue false w b = refl

  cancel-queue : (p : WorkerPhase) (b : EventBus D) → (cancel p b).queue ≡ b.queue
  unfolding cancel
  cancel-queue gone b = refl
  cancel-queue waiting b = refl
  cancel-queue busy b = refl

  -- What was waiting and what comes in are what goes out and what waits, in this order.
  step-queue :
      (o : Operation D) (b : EventBus D)
      → b.queue ++ enqueued o b ≡ delivered (step o b).1 ++ (step o b).0.queue
  unfolding step
  step-queue start b = append-nil b.queue ∙ sym (enter_counts b.phase older b).0
  step-queue stop b = append-nil b.queue ∙ sym (cancel-queue b.phase (record b { running = false }))
  step-queue (take w) b = append-nil b.queue ∙ sym (deliver_if-queue (is_waiting w b) w b)
  step-queue (finish w) b = append-nil b.queue ∙ sym (finish_if-queue (is_busy w b) w b)
  step-queue (timeout w) b = append-nil b.queue ∙ sym (timeout_if-queue _ w b)
  step-queue (subscribe t k) b = append-nil b.queue
  step-queue (unsubscribe t k) b = append-nil b.queue
  step-queue (publish e) b = sym (publish_event-queue e b)

  delivered_events-and_then :
      (d : Option (Delivery D)) (ds : List (Delivery D))
      → delivered_events (and_then d ds) ≡ delivered d ++ delivered_events ds
  delivered_events-and_then none ds = refl
  delivered_events-and_then (some d) ds = refl

  run-queue :
      (os : List (Operation D)) (b : EventBus D)
      → b.queue ++ taken os b ≡ delivered_events (run os b).1 ++ (run os b).0.queue
  unfolding run taken
  run-queue [] b = append-nil b.queue
  run-queue (o ∷ os) b =
      let c = (step o b).0 in
      let d = (step o b).1 in
      let ds = (run os c).1 in
      let end = (run os c).0.queue in
      let split = append_assoc b.queue (enqueued o b) (taken os c) in
      let one = ap (λ q. q ++ taken os c) (step-queue o b) in
      let next = append_assoc (delivered d) c.queue (taken os c) in
      let rest = ap (λ q. delivered d ++ q) (run-queue os c) in
      let back = append_assoc (delivered d) (delivered_events ds) end in
      let joined = ap (λ q. q ++ end) (delivered_events-and_then d ds) in
      sym split ∙ one ∙ next ∙ rest ∙ sym back ∙ sym joined

  -- Over any calls and steps of workers from a new bus on: the events that the queue had room for are
  -- given to the handlers in the order of their publication, each once, and those not given wait in the
  -- queue, which never has more than 500 of them. Its unfinished tasks are never more than the events
  -- that wait or are being handled, and fewer by at most the number of calls of `stop` that cancelled
  -- running handlers, each of which counts its event as done twice: without such a call they are equal.
  pub run_order :
      (os : List (Operation D))
      → let (b, ds) = run os empty_bus in
        (taken os empty_bus ≡ delivered_events ds ++ b.queue)
        × (length b.queue ≤ 500)
        × (b.unfinished ≤ length b.queue + busy_workers b)
        × (length b.queue + busy_workers b ≤ b.unfinished + interrupted os empty_bus)
  run_order os =
      let (fits, le, ge) = run-IsCounted 0 os empty_bus (omega arith, omega arith, omega arith) in
      (run-queue os empty_bus, fits, le, omega (arith, ge))
