-- ===== src/Panel/Bus.antt =====
-- telegram_panel/core/event_bus.py: the queue of events between publishers and subscribers. Types of
-- events and handlers are numbers; an operation is a call, or a step of a worker. Each call of `start`
-- creates a worker; `stop` cancels the one created last.
use scalping.Prelude.{
  ℕ, ◌+◌, ◌-◌, Bool, true, false, not, ◌&&◌, Option, none, some, List, [], ◌∷◌, ◌++◌, length, ltb,
  ◌==◌, if◌then◌else◌,
}
pub mod Order
mod Tests

pub record Event {ℓ} (D : Type ℓ) : Type ℓ where
  pub type : ℕ
  pub data_of : D

-- An event, with the handlers that it was given to.
pub record Delivery {ℓ} (D : Type ℓ) : Type ℓ where
  pub event : Event D
  pub handlers : List ℕ

-- Where a worker is: in `queue.get`, or awaiting the handlers of an event, or at its end.
pub data WorkerPhase : Type 0 where
  gone waiting busy : WorkerPhase

-- A worker: the one of `_worker_task`, or one that an earlier call of `start` created.
pub data Worker : Type 0 where
  latest older : Worker

-- `EventBus`, with the unfinished tasks that the queue counts, the worker of `_worker_task`, and the
-- number of the older ones in each phase.
pub record EventBus {ℓ} (D : Type ℓ) : Type ℓ where
  pub subscribers : List (ℕ × List ℕ)
  pub queue : List (Event D)
  pub unfinished : ℕ
  pub running : Bool
  pub phase : WorkerPhase
  pub older_waiting : ℕ
  pub older_busy : ℕ

pub data Operation {ℓ} (D : Type ℓ) : Type ℓ where
  start stop : Operation D
  take finish timeout : Worker → Operation D
  subscribe unsubscribe : (event_type handler : ℕ) → Operation D
  publish : Event D → Operation D

-- `asyncio.Queue(maxsize=500)`.
abbrev pub maxsize : ℕ
maxsize = 500

-- `self._subscribers.get(event_type, [])`.
handlers_of : List (ℕ × List ℕ) → (event_type : ℕ) → List ℕ
handlers_of [] t = []
handlers_of ((k, hs) ∷ ss) t = if k == t then hs else handlers_of ss t

-- The handlers of a type, or a new list at the end.
add_handler : List (ℕ × List ℕ) → (event_type handler : ℕ) → List (ℕ × List ℕ)
add_handler [] t h = (t, h ∷ []) ∷ []
add_handler ((k, hs) ∷ ss) t h =
    let rest = add_handler ss t h in if k == t then (k, hs ++ h ∷ []) ∷ ss else (k, hs) ∷ rest

without : (handler : ℕ) → List ℕ → List ℕ
without h [] = []
without h (g ∷ gs) = let rest = without h gs in if g == h then rest else g ∷ rest

remove_handler : List (ℕ × List ℕ) → (event_type handler : ℕ) → List (ℕ × List ℕ)
unfolding without
remove_handler [] t h = []
remove_handler ((k, hs) ∷ ss) t h =
    let rest = remove_handler ss t h in if k == t then (k, without h hs) ∷ ss else (k, hs) ∷ rest

module _ {ℓ} {D : Type ℓ} where
  abbrev pub empty_bus : EventBus D
  empty_bus = record {
    subscribers = [];
    queue = [];
    unfinished = 0;
    running = false;
    phase = gone;
    older_waiting = 0;
    older_busy = 0;
  }

  -- `put_nowait`, unless the queue is full.
  publish_event : Event D → EventBus D → EventBus D
  publish_event e b =
      if ltb (length b.queue) maxsize
      then record b { queue = b.queue ++ e ∷ []; unfinished = b.unfinished + 1 }
      else b

  is_waiting : Worker → EventBus D → Bool
  is_waiting latest b = elim b.phase [ gone ↦ false | waiting ↦ true | busy ↦ false ]
  is_waiting older b = ltb 0 b.older_waiting

  is_busy : Worker → EventBus D → Bool
  is_busy latest b = elim b.phase [ gone ↦ false | waiting ↦ false | busy ↦ true ]
  is_busy older b = ltb 0 b.older_busy

  -- A worker leaves its phase, and enters one.
  leave_waiting : Worker → EventBus D → EventBus D
  leave_waiting latest b = record b { phase = gone }
  leave_waiting older b = record b { older_waiting = b.older_waiting - 1 }

  leave_busy : Worker → EventBus D → EventBus D
  leave_busy latest b = record b { phase = gone }
  leave_busy older b = record b { older_busy = b.older_busy - 1 }

  enter : WorkerPhase → Worker → EventBus D → EventBus D
  enter p latest b = record b { phase = p }
  enter gone older b = b
  enter waiting older b = record b { older_waiting = b.older_waiting + 1 }
  enter busy older b = record b { older_busy = b.older_busy + 1 }

  -- `task_done` in `finally`, and `while self._running`. Without an unfinished task `task_done` raises,
  -- which ends the worker.
  task_done : Worker → EventBus D → EventBus D
  unfolding enter
  task_done w b =
      enter (if ltb 0 b.unfinished && b.running then waiting else gone) w
        (record b { unfinished = b.unfinished - 1 })

  -- An event without handlers is done at once.
  begin : Worker → (handlers : List ℕ) → EventBus D → EventBus D
  unfolding task_done enter
  begin w [] b = task_done w b
  begin w (h ∷ hs) b = enter busy w b

  -- A waiting worker gives the first event to the handlers of its type.
  deliver : Worker → EventBus D → (queue : List (Event D)) → EventBus D × Option (Delivery D)
  unfolding handlers_of begin leave_waiting
  deliver w b [] = (b, none)
  deliver w b (e ∷ es) =
      let hs = handlers_of b.subscribers e.type in
      (
        begin w hs (leave_waiting w (record b { queue = es })),
        some (record { event = e; handlers = hs }),
      )

  deliver_if : (is_waiting : Bool) → Worker → EventBus D → EventBus D × Option (Delivery D)
  unfolding deliver
  deliver_if true w b = deliver w b b.queue
  deliver_if false w b = (b, none)

  -- The handlers of an event have ended, whatever they raise.
  finish_if : (is_busy : Bool) → Worker → EventBus D → EventBus D
  unfolding task_done leave_busy
  finish_if true w b = task_done w (leave_busy w b)
  finish_if false w b = b

  -- A second without an event: the worker looks at `_running` again.
  timeout_if : (ends : Bool) → Worker → EventBus D → EventBus D
  unfolding leave_waiting
  timeout_if true w b = leave_waiting w b
  timeout_if false w b = b

  -- A cancelled worker ends. If handlers are running, `task_done` is called in `except` and again in
  -- `finally`; a call that finds no unfinished task raises.
  cancel : WorkerPhase → EventBus D → EventBus D
  cancel busy b = record b { unfinished = b.unfinished - 2; phase = gone }
  cancel waiting b = record b { phase = gone }
  cancel gone b = b

  step : Operation D → EventBus D → EventBus D × Option (Delivery D)
  unfolding publish_event deliver_if finish_if timeout_if cancel enter is_waiting is_busy
      add_handler remove_handler
  step start b = (record (enter b.phase older b) { running = true; phase = waiting }, none)
  step stop b = (cancel b.phase (record b { running = false }), none)
  step (take w) b = deliver_if (is_waiting w b) w b
  step (finish w) b = (finish_if (is_busy w b) w b, none)
  step (timeout w) b = (timeout_if (is_waiting w b && not b.running) w b, none)
  step (subscribe t h) b = (record b { subscribers = add_handler b.subscribers t h }, none)
  step (unsubscribe t h) b = (record b { subscribers = remove_handler b.subscribers t h }, none)
  step (publish e) b = (publish_event e b, none)

  abbrev and_then : Option (Delivery D) → List (Delivery D) → List (Delivery D)
  and_then none ds = ds
  and_then (some d) ds = d ∷ ds

  -- Any operations, and what they deliver.
  unfoldable pub run : List (Operation D) → EventBus D → EventBus D × List (Delivery D)
  unfolding step
  run [] b = (b, [])
  run (o ∷ os) b = let (c, d) = step o b in let (c', ds) = run os c in (c', and_then d ds)
