-- ===== src/Notification/Bus/Delivery.antt =====
-- What the bus delivers, and that it gets there (Src_Simulation/include/notification.hpp).
use stock_market_trading_sim.Common.{
  ℕ, zero, suc, ◌≡◌, ◌≢◌, refl, sym, ap, ◌∙◌, inl, inr, true, false, ◌&&◌, List, [], ◌∷◌, ◌++◌, map,
  arith, eqb, eqb_iff, either, Bool-cases,
}
use mathlib.Core.List.{append_assoc, append-nil}
use stock_market_trading_sim.Notification.{Event}
use stock_market_trading_sim.Notification.Bus.{
  SubscriptionId, NotificationBus, Worker, without, times, got, Run, started, publishes, works,
  subscribes, unsubscribes, stops, publish, subscribe, unsubscribe, stop, flush_returns,
  run_section, worker_step, worker_steps, is_empty,
}

times-append :
    (own id : SubscriptionId) (ids : List SubscriptionId)
    → eqb id own ≡ false
    → times own (ids ++ id ∷ []) ≡ times own ids
times-append own id [] h = rw h refl
times-append own id (other ∷ ids) h = elim (Bool-cases (eqb other own)) [
  | inl k ↦ rw k (ap suc (times-append own id ids h))
  | inr k ↦ rw k (times-append own id ids h)
]

times-without :
    (own id : SubscriptionId) (ids : List SubscriptionId)
    → eqb id own ≡ false
    → times own (without id ids) ≡ times own ids
times-without own id [] h = refl
times-without own id (other ∷ ids) h =
    ground
      (arith, h, times-without own id ids h, eqb_iff id other, eqb_iff id own, eqb_iff other own)

module _ {P : Type 0} where
  -- The number of events popped whose dispatch has not been counted as done.
  abbrev busy : Worker P → ℕ
  busy Worker.waiting = 0
  busy (Worker.dispatching ev) = 1
  busy Worker.finishing = 1
  busy Worker.ended = 0

  -- The event whose callbacks the next section of the worker calls.
  abbrev in_hand : Worker P → List (Event P)
  in_hand Worker.waiting = []
  in_hand (Worker.dispatching ev) = ev ∷ []
  in_hand Worker.finishing = []
  in_hand Worker.ended = []

  -- What the subscriber got since the start, with what is in hand and queued, is what was published.
  record IsAccounted (own : SubscriptionId) (start : NotificationBus P) (ps : List (Event P))
      (b : NotificationBus P) : Type 0 where
    events : got own start.calls ++ ps ≡ got own b.calls ++ (in_hand b.worker ++ b.queue)
    counted : b.in_flight ≡ busy b.worker
    once : times own b.subscribers ≡ 1

  got-append :
      (own : SubscriptionId) (xs ys : List (SubscriptionId × Event P))
      → got own (xs ++ ys) ≡ got own xs ++ got own ys
  got-append own [] ys = refl
  got-append own ((id, ev) ∷ xs) ys = elim (Bool-cases (eqb id own)) [
    | inl k ↦ rw k (ap (λ evs. ev ∷ evs) (got-append own xs ys))
    | inr k ↦ rw k (got-append own xs ys)
  ]

  abbrev copies : ℕ → Event P → List (Event P)
  copies zero ev = []
  copies (suc n) ev = ev ∷ copies n ev

  -- A round of calls gives a subscriber the event as often as it is subscribed.
  got-round :
      (own : SubscriptionId) (ev : Event P) (ids : List SubscriptionId)
      → got own (map (λ id. (id, ev)) ids) ≡ copies (times own ids) ev
  got-round own ev [] = refl
  got-round own ev (id ∷ ids) = elim (Bool-cases (eqb id own)) [
    | inl k ↦ rw k (ap (λ evs. ev ∷ evs) (got-round own ev ids))
    | inr k ↦ rw k (got-round own ev ids)
  ]

  got-dispatched :
      (own : SubscriptionId) (ev : Event P) (ids : List SubscriptionId)
      (calls : List (SubscriptionId × Event P))
      → times own ids ≡ 1
      → got own (calls ++ map (λ id. (id, ev)) ids) ≡ got own calls ++ ev ∷ []
  got-dispatched own ev ids calls h =
      got-append own calls (map (λ id. (id, ev)) ids)
      ∙ ap (λ evs. got own calls ++ evs) (got-round own ev ids ∙ ap (λ n. copies n ev) h)

  section-IsAccounted :
      (own : SubscriptionId) (start : NotificationBus P) (ps : List (Event P)) (w : Worker P)
      (q : List (Event P)) (b : NotificationBus P)
      → b.worker ≡ w
      → b.queue ≡ q
      → IsAccounted own start ps b
      → IsAccounted own start ps (run_section w q b)
  unfolding run_section
  section-IsAccounted own start ps Worker.waiting [] b hw hq a =
      either (IsAccounted own start ps) b.stopping
        (record {
          events = a.events ∙ ap (λ w. got own b.calls ++ (in_hand w ++ b.queue)) hw;
          counted = a.counted ∙ ap busy hw;
          once = a.once;
        })
        a
  section-IsAccounted own start ps Worker.waiting (ev ∷ q) b hw hq a = record {
    events =
        a.events
        ∙ ap (λ w. got own b.calls ++ (in_hand w ++ b.queue)) hw
        ∙ ap (λ q'. got own b.calls ++ q') hq;
    counted = omega (arith, a.counted ∙ ap busy hw);
    once = a.once;
  }
  section-IsAccounted own start ps (Worker.dispatching ev) q b hw hq a = record {
    events =
        a.events
        ∙ ap (λ w. got own b.calls ++ (in_hand w ++ b.queue)) hw
        ∙ sym (append_assoc (got own b.calls) (ev ∷ []) b.queue)
        ∙ ap (λ evs. evs ++ b.queue) (sym (got-dispatched own ev b.subscribers b.calls a.once));
    counted = a.counted ∙ ap busy hw;
    once = a.once;
  }
  section-IsAccounted own start ps Worker.finishing q b hw hq a = record {
    events = a.events ∙ ap (λ w. got own b.calls ++ (in_hand w ++ b.queue)) hw;
    counted = omega (arith, a.counted ∙ ap busy hw);
    once = a.once;
  }
  section-IsAccounted own start ps Worker.ended q b hw hq a = a

  abbrev pub rounds : List (Event P) → ℕ
  rounds [] = zero
  rounds (ev ∷ q) = suc (suc (suc (rounds q)))

  drained :
      (q : List (Event P)) (b : NotificationBus P)
      → b.worker ≡ Worker.waiting
      → b.queue ≡ q
      → b.in_flight ≡ 0
      → flush_returns (worker_steps (rounds q) b) ≡ true
  unfolding worker_steps worker_step flush_returns run_section
  drained [] b hw hq hn = ground arith
  drained (ev ∷ q) b hw hq hn = rw (hw, hq) (drained q _ refl refl (omega (arith, hn)))

  Run-IsAccounted :
      {own : SubscriptionId} {start : NotificationBus P} {ps : List (Event P)}
      {b : NotificationBus P}
      → Run own start ps b
      → IsAccounted own start ps b
  unfolding worker_step publish subscribe unsubscribe stop
  Run-IsAccounted {own} {start} (started hw hq hn once) = record {
    events =
        ap (λ q. got own start.calls ++ q) (sym hq)
        ∙ ap (λ w. got own start.calls ++ (in_hand w ++ start.queue)) (sym hw);
    counted = hn ∙ ap busy (sym hw);
    once = once;
  }
  Run-IsAccounted {own} {start} (publishes {ps} {b} ev r) =
      let a = Run-IsAccounted r in
      record {
        events =
            sym (append_assoc (got own start.calls) ps (ev ∷ []))
            ∙ ap (λ es. es ++ ev ∷ []) a.events
            ∙ append_assoc (got own b.calls) (in_hand b.worker ++ b.queue) (ev ∷ [])
            ∙ ap (λ es. got own b.calls ++ es) (append_assoc (in_hand b.worker) b.queue (ev ∷ []));
        counted = a.counted;
        once = a.once;
      }
  Run-IsAccounted {own} {start} (works {ps} {b} r) =
      section-IsAccounted own start ps b.worker b.queue b refl refl (Run-IsAccounted r)
  Run-IsAccounted {own} (subscribes {ps} {b} h r) =
      let a = Run-IsAccounted r in
      record {
        events = a.events;
        counted = a.counted;
        once = times-append own b.next_subscription_id b.subscribers h ∙ a.once;
      }
  Run-IsAccounted {own} (unsubscribes {ps} {b} id h r) =
      let a = Run-IsAccounted r in
      record {
        events = a.events;
        counted = a.counted;
        once = times-without own id b.subscribers h ∙ a.once;
      }
  Run-IsAccounted (stops r) =
      let a = Run-IsAccounted r in record { events = a.events; counted = a.counted; once = a.once }

  emptied : (q : List (Event P)) (n : ℕ) → (is_empty q && eqb n 0) ≡ true → q ≡ []
  emptied [] n h = refl
  emptied (ev ∷ q) n h = ground arith

  nothing_left :
      (w : Worker P) (q : List (Event P)) (n : ℕ)
      → n ≡ busy w
      → (is_empty q && eqb n 0) ≡ true
      → in_hand w ++ q ≡ []
  nothing_left Worker.waiting q n c h = emptied q n h
  nothing_left (Worker.dispatching ev) q n c h = ground (arith, emptied q n h)
  nothing_left Worker.finishing q n c h = emptied q n h
  nothing_left Worker.ended q n c h = emptied q n h

  -- For a subscriber that stays subscribed, once, from a state on where the worker waits with an
  -- empty queue: when `flush` returns, the calls that it got since are one for each event that was
  -- published since, in the order of publication.
  pub flush_returns-delivers :
      {own : SubscriptionId} {start : NotificationBus P} {ps : List (Event P)}
      {b : NotificationBus P}
      → Run own start ps b
      → flush_returns b ≡ true
      → got own b.calls ≡ got own start.calls ++ ps
  unfolding flush_returns
  flush_returns-delivers {own} {start} {ps} {b} r h =
      let a = Run-IsAccounted r in
      sym (
        a.events
        ∙ ap (λ es. got own b.calls ++ es) (nothing_left b.worker b.queue b.in_flight a.counted h)
        ∙ append-nil (got own b.calls))

  -- The sections that the worker still has to run.
  unfoldable pub work_left : Worker P → List (Event P) → ℕ
  work_left Worker.waiting q = rounds q
  work_left (Worker.dispatching ev) q = suc (suc (rounds q))
  work_left Worker.finishing q = suc (rounds q)
  work_left Worker.ended q = 0

  settled :
      (w : Worker P) (q : List (Event P)) (b : NotificationBus P)
      → b.worker ≡ w
      → b.queue ≡ q
      → b.in_flight ≡ busy w
      → w ≢ Worker.ended
      → flush_returns (worker_steps (work_left w q) b) ≡ true
  unfolding work_left worker_steps worker_step run_section
  settled Worker.waiting q b hw hq hn k = drained q b hw hq hn
  settled (Worker.dispatching ev) q b hw hq hn k =
      rw (hw, hq) (drained q _ refl refl (omega (arith, hn)))
  settled Worker.finishing q b hw hq hn k = rw (hw, hq) (drained q _ refl refl (omega (arith, hn)))
  settled Worker.ended q b hw hq hn k = absurd (k refl)

  worker_steps-Run :
      (n : ℕ) {own : SubscriptionId} {start : NotificationBus P} {ps : List (Event P)}
      {b : NotificationBus P}
      → Run own start ps b
      → Run own start ps (worker_steps n b)
  unfolding worker_steps
  worker_steps-Run zero r = r
  worker_steps-Run (suc n) r = worker_steps-Run n (works r)

  -- For a subscriber that stays subscribed, once, from a state on where the worker waits with an
  -- empty queue: while the worker has not ended, the worker alone gets to a state in which `flush`
  -- returns and the calls that the subscriber got since are one for each event that was published
  -- since, in the order of publication.
  pub Run-drains :
      {own : SubscriptionId} {start : NotificationBus P} {ps : List (Event P)}
      {b : NotificationBus P}
      → Run own start ps b
      → b.worker ≢ Worker.ended
      → (flush_returns (worker_steps (work_left b.worker b.queue) b) ≡ true)
        × (got own (worker_steps (work_left b.worker b.queue) b).calls ≡ got own start.calls ++ ps)
  Run-drains {b = b} r k =
      let h = settled b.worker b.queue b refl refl (Run-IsAccounted r).counted k in
      (h, flush_returns-delivers (worker_steps-Run (work_left b.worker b.queue) r) h)
