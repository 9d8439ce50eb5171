-- ===== src/Notification/Bus.antt =====
-- Src_Simulation/include/notification.hpp: the event bus. A step is one section of the code that
-- runs under a lock of the bus.
pub mod Delivery
use stock_market_trading_sim.Common.{
  ◌≡◌, ℕ, zero, suc, ◌+◌, ◌-◌, ◌%◌, ◌^◌, Bool, true, false, ◌&&◌, List, [], ◌∷◌, ◌++◌, map, length,
  eqb, if◌then◌else◌,
}
use stock_market_trading_sim.Notification.{Event}

abbrev pub SubscriptionId : Type 0
SubscriptionId = ℕ

-- Where the worker is in a round of `run`: before the lock, with an event popped, after its
-- dispatch, and out of the loop.
pub data Worker (P : Type 0) : Type 0 where
  waiting : Worker P
  dispatching : Event P → Worker P
  finishing : Worker P
  ended : Worker P

-- `subscribers` holds the keys of `subscribers_`, and `calls` the calls that subscribers got.
pub record NotificationBus (P : Type 0) : Type 0 where
  pub queue : List (Event P)
  pub stopping : Bool
  pub in_flight : ℕ
  pub subscribers : List SubscriptionId
  pub next_subscription_id : SubscriptionId
  pub worker : Worker P
  pub calls : List (SubscriptionId × Event P)

abbrev pub without : SubscriptionId → List SubscriptionId → List SubscriptionId
without id [] = []
without id (i ∷ ids) = let left = without id ids in if eqb i id then left else i ∷ left

-- How many times an id stands among the subscribers.
abbrev pub times : SubscriptionId → List SubscriptionId → ℕ
times own [] = 0
times own (id ∷ ids) = let n = times own ids in if eqb id own then suc n else n

module _ {P : Type 0} where
  abbrev pub new_bus : NotificationBus P
  new_bus = record {
    queue = [];
    stopping = false;
    in_flight = 0;
    subscribers = [];
    next_subscription_id = 1;
    worker = Worker.waiting;
    calls = [];
  }

  unfoldable pub subscribe : NotificationBus P → NotificationBus P
  subscribe b = record b {
    subscribers = b.subscribers ++ b.next_subscription_id ∷ [];
    next_subscription_id = (b.next_subscription_id + 1) % 2 ^ 64;
  }

  unfoldable pub unsubscribe : SubscriptionId → NotificationBus P → NotificationBus P
  unsubscribe id b = record b { subscribers = without id b.subscribers }

  unfoldable pub publish : Event P → NotificationBus P → NotificationBus P
  publish ev b = record b { queue = b.queue ++ ev ∷ [] }

  unfoldable pub pending : NotificationBus P → ℕ
  pending b = length b.queue

  -- The destructor's first section.
  unfoldable pub stop : NotificationBus P → NotificationBus P
  stop b = record b { stopping = true }

  abbrev pub is_empty : List (Event P) → Bool
  is_empty [] = true
  is_empty (ev ∷ evs) = false

  -- What `flush` waits for.
  unfoldable pub flush_returns : NotificationBus P → Bool
  flush_returns b = is_empty b.queue && eqb b.in_flight 0

  -- The next section of `run`. A wait whose condition does not hold changes nothing.
  unfoldable pub run_section : Worker P → List (Event P) → NotificationBus P → NotificationBus P
  run_section Worker.waiting [] b = if b.stopping then record b { worker = Worker.ended } else b
  run_section Worker.waiting (ev ∷ rest) b = record b {
    queue = rest;
    in_flight = b.in_flight + 1;
    worker = Worker.dispatching ev;
  }
  run_section (Worker.dispatching ev) q b = record b {
    calls = b.calls ++ map (λ id. (id, ev)) b.subscribers;
    worker = Worker.finishing;
  }
  run_section Worker.finishing q b = record b {
    in_flight = b.in_flight - 1;
    worker = Worker.waiting;
  }
  run_section Worker.ended q b = b

  unfoldable pub worker_step : NotificationBus P → NotificationBus P
  worker_step b = run_section b.worker b.queue b

  -- Several sections of the worker, with nothing between them.
  unfoldable pub worker_steps : ℕ → NotificationBus P → NotificationBus P
  worker_steps zero b = b
  worker_steps (suc n) b = worker_steps n (worker_step b)

  -- The events of the calls that a subscriber got, in their order.
  abbrev pub got : SubscriptionId → List (SubscriptionId × Event P) → List (Event P)
  got own [] = []
  got own ((id, ev) ∷ calls) = let evs = got own calls in if eqb id own then ev ∷ evs else evs

  -- What happens to a bus while one subscriber stays, from a state where the worker waits with an
  -- empty queue, with the events that are published on the way. A new subscriber has another id.
  pub data Run (own : SubscriptionId) (start : NotificationBus P)
      : List (Event P) → NotificationBus P → Type 0 where
    started :
        start.worker ≡ Worker.waiting
        → start.queue ≡ []
        → start.in_flight ≡ 0
        → times own start.subscribers ≡ 1
        → Run own start [] start
    publishes :
        {ps : List (Event P)} {b : NotificationBus P} (ev : Event P)
        → Run own start ps b
        → Run own start (ps ++ ev ∷ []) (publish ev b)
    works :
        {ps : List (Event P)} {b : NotificationBus P}
        → Run own start ps b
        → Run own start ps (worker_step b)
    subscribes :
        {ps : List (Event P)} {b : NotificationBus P}
        → eqb b.next_subscription_id own ≡ false
        → Run own start ps b
        → Run own start ps (subscribe b)
    unsubscribes :
        {ps : List (Event P)} {b : NotificationBus P} (id : SubscriptionId)
        → eqb id own ≡ false
        → Run own start ps b
        → Run own start ps (unsubscribe id b)
    stops :
        {ps : List (Event P)} {b : NotificationBus P}
        → Run own start ps b
        → Run own start ps (stop b)
