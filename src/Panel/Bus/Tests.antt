-- ===== src/Panel/Bus/Tests.antt =====
-- Runs of telegram_panel/core/event_bus.py.
use scalping.Prelude.{ℕ, ◌+◌, ◌≤◌, ◌≡◌, refl, List, [], ◌∷◌, ◌++◌, length, map}
use scalping.Panel.Bus.{
  Event, gone, latest, Operation, start, stop, take, finish, subscribe, unsubscribe, publish,
  empty_bus, handlers_of, add_handler, without, remove_handler, publish_event, deliver, deliver_if,
  step, run,
}
use scalping.Panel.Bus.Order.{taken, delivered_events, busy_workers, interrupted, run_order}

abbrev event : ℕ → ℕ → Event ℕ
event t n = record { type = t; data_of = n }

-- Two handlers of the type 1, of which one leaves; the last event waits.
abbrev calls : List (Operation ℕ)
calls =
    start
    ∷ subscribe 1 7
    ∷ subscribe 1 8
    ∷ publish (event 1 10)
    ∷ publish (event 2 20)
    ∷ take latest
    ∷ unsubscribe 1 7
    ∷ publish (event 1 30)
    ∷ finish latest
    ∷ take latest
    ∷ take latest
    ∷ publish (event 1 40)
    ∷ stop
    ∷ take latest
    ∷ []

given : map (λ d. d.handlers) (run calls empty_bus).1 ≡ (7 ∷ 8 ∷ []) ∷ [] ∷ (8 ∷ []) ∷ []
unfolding run step publish_event deliver deliver_if handlers_of add_handler without remove_handler
given = refl

-- The stop cancels a running handler: one event waits, and no task is unfinished.
interrupted_once :
    let b = (run calls empty_bus).0 in (length b.queue ≡ 1) × (b.unfinished ≡ 0) × (b.phase ≡ gone)
unfolding run step publish_event deliver deliver_if handlers_of add_handler without remove_handler
interrupted_once = (refl, refl, refl)

run_order_example :
    let b = (run calls empty_bus).0 in
    let ds = (run calls empty_bus).1 in
    (taken calls empty_bus ≡ delivered_events ds ++ b.queue)
    × (length b.queue ≤ 500)
    × (b.unfinished ≤ length b.queue + busy_workers b)
    × (length b.queue + busy_workers b ≤ b.unfinished + interrupted calls empty_bus)
run_order_example = run_order calls
