-- ===== src/OrderBook/Priority.antt =====
-- Price-time priority. The specification has no levels: it is one queue of resting orders, each with
-- its price, and the incoming order takes from its front. The matching loops of
-- Src_Simulation/src/order_book.cpp implement it.
use stock_market_trading_sim.Common.{
  ℕ, suc, ◌+◌, ◌-◌, min, ◌≡◌, refl, ap, sym, true, false, not, ◌||◌, List, [], ◌∷◌, ◌++◌, arith,
  ltb, eqb, length, All, All-imp, subst, if◌then◌else◌, Bool-cases, inl, inr,
}
use stock_market_trading_sim.Double.{Double}
use stock_market_trading_sim.Types.{Symbol, TimePoint, Side, Order, Trade}
use stock_market_trading_sim.OrderBook.{
  Levels, OrderBook, Fill, trade_of, fill_queue, match_levels, out_of_reach, match_order,
  match_order_cases, match_incoming_buy, match_incoming_sell,
}
use stock_market_trading_sim.OrderBook.Invariant.{IsNonEmpty, IsLevel, IsValid}

abbrev pub Entries : Type 0 → Type 0
Entries P = List (P × Order P)

module _ {P : Type 0} where
  abbrev pub at_price : P → List (Order P) → Entries P → Entries P
  at_price p [] es = es
  at_price p (o ∷ queue) es = (p, o) ∷ at_price p queue es

  -- The resting orders of one side in the order in which they are to trade.
  abbrev pub entries : Levels P → Entries P
  entries [] = []
  entries ((p, queue) ∷ levels) = at_price p queue (entries levels)

  -- The side that an order of this side trades with.
  abbrev pub other_side : Side → OrderBook P → Levels P
  other_side Side.buy book = book.asks
  other_side Side.sell book = book.bids

module _ {P : Type 0} ⦃d : Double P⦄ (symbol : Symbol) (stamp : ℕ → TimePoint) where
  -- The specification: take from the first entry while something is left and its price is in reach.
  unfoldable pub sweep : ℕ → Order P → Entries P → Fill P (Entries P)
  sweep made incoming [] = record { trades = []; left = incoming; rest = [] }
  sweep made incoming ((p, o) ∷ es) =
      let n = min incoming.quantity o.quantity in
      let incoming' = record incoming { quantity = incoming.quantity - n } in
      let trade = trade_of incoming.side symbol (stamp made) p n incoming o in
      let more = sweep (suc made) incoming' es in
      if not (ltb 0 incoming.quantity) || out_of_reach incoming p
      then record { trades = []; left = incoming; rest = (p, o) ∷ es }
      else if eqb (o.quantity - n) 0
      then record { trades = trade ∷ more.trades; left = more.left; rest = more.rest }
      else record {
        trades = trade ∷ [];
        left = incoming';
        rest = (p, record o { quantity = o.quantity - n }) ∷ es;
      }

  -- What `sweep` does after the loop over a queue has ended with `here`.
  abbrev continue_with : ℕ → P → Entries P → Fill P (List (Order P)) → Fill P (Entries P)
  continue_with made p es here = elim here.rest [
    | [] ↦
        let more = sweep (made + length here.trades) here.left es in
        record { trades = here.trades ++ more.trades; left = more.left; rest = more.rest }
    | o ∷ queue ↦ record {
      trades = here.trades;
      left = here.left;
      rest = (p, o) ∷ at_price p queue es;
    }
  ]

  sweep-at_price :
      (made : ℕ) (incoming : Order P) (p : P) (queue : List (Order P)) (es : Entries P)
      → out_of_reach incoming p ≡ false
      → sweep made incoming (at_price p queue es)
        ≡ continue_with made p es (fill_queue symbol stamp made p incoming queue)
  unfolding fill_queue sweep out_of_reach
  sweep-at_price made incoming p [] es h =
      let e : made + 0 ≡ made = omega arith in ap (λ m. sweep m incoming es) (sym e)
  sweep-at_price made incoming p (o ∷ queue) es h =
      let incoming' = record incoming {
        quantity = incoming.quantity - min incoming.quantity o.quantity;
      } in
      let more = fill_queue symbol stamp (suc made) p incoming' queue in
      let e : suc made + length more.trades ≡ made + suc (length more.trades) = omega arith in
      ground (arith, e, sweep-at_price (suc made) incoming' p queue es h)

  sweep-nil :
      (made : ℕ) (incoming : Order P)
      → sweep made incoming [] ≡ record { trades = []; left = incoming; rest = [] }
  unfolding sweep
  sweep-nil made incoming = refl

  sweep_stop :
      (made : ℕ) (incoming o : Order P) (p : P) (es : Entries P)
      → (not (ltb 0 incoming.quantity) || out_of_reach incoming p) ≡ true
      → sweep made incoming ((p, o) ∷ es)
        ≡ record { trades = []; left = incoming; rest = (p, o) ∷ es }
  unfolding sweep
  sweep_stop made incoming o p es h = rw h

  -- The loop over the levels does to the entries what `sweep` does.
  match_levels-sweep :
      (made : ℕ) (incoming : Order P) (levels : Levels P)
      → All (λ l. IsNonEmpty l.1) levels
      → let f = match_levels symbol stamp made incoming levels in
        let s = sweep made incoming (entries levels) in
        (f.trades ≡ s.trades) × (f.left ≡ s.left) × (entries f.rest ≡ s.rest)
  unfolding match_levels
  match_levels-sweep made incoming [] v = rw (sweep-nil made incoming) (refl, refl, refl)
  match_levels-sweep made incoming ((p, []) ∷ levels) (n, v) = absurd n
  match_levels-sweep made incoming ((p, o ∷ queue) ∷ levels) (n, v) =
      let here = fill_queue symbol stamp made p incoming (o ∷ queue) in
      elim (Bool-cases (not (ltb 0 incoming.quantity) || out_of_reach incoming p)) [
        | inl e ↦
            rw (e, sweep_stop made incoming o p (at_price p queue (entries levels)) e)
              (refl, refl, refl)
        | inr e ↦
            let ih = match_levels-sweep (made + length here.trades) here.left levels v in
            let step = sweep-at_price made incoming p (o ∷ queue) (entries levels) (ground arith) in
            rw (e, step) (ground (arith, ih))
      ]

module _ {P : Type 0} ⦃d : Double P⦄ (stamp : ℕ → TimePoint) where
  -- A call's trades and the entries that it leaves are those of the one queue.
  pub record Sweeps (incoming : Order P) (book : OrderBook P) (side : Side)
      (r : List (Trade P) × OrderBook P) : Type 0 where
    pub trades_eq :
        r.0 ≡ (sweep book.symbol stamp 0 incoming (entries (other_side side book))).trades
    pub rest_eq :
        entries (other_side side r.1)
        ≡ (sweep book.symbol stamp 0 incoming (entries (other_side side book))).rest

  -- Price-time priority: on a valid book, the trades of a call are those of one queue in which the
  -- resting orders of the other side stand best price first and oldest first within a price, and the
  -- incoming order takes from its front while something of it is left and its limit is not passed;
  -- and the entries that stay on the other side are those that the queue keeps.
  pub match_order-Sweeps :
      (incoming : Order P) (book : OrderBook P)
      → IsValid book
      → Sweeps incoming book incoming.side (match_order stamp incoming book)
  unfolding match_incoming_buy match_incoming_sell
  match_order-Sweeps incoming book v =
      match_order_cases (Sweeps incoming book incoming.side) stamp incoming book
        (λ e.
          let (ts, _, es) =
            match_levels-sweep book.symbol stamp 0 incoming book.asks
              (All-imp (IsLevel Side.sell) _ book.asks (λ l v. v.0) v.ask_levels) in
          subst (λ x. Sweeps incoming book x (match_incoming_buy stamp incoming book)) (sym e)
            (record { trades_eq = ts; rest_eq = es }))
        (λ e.
          let (ts, _, es) =
            match_levels-sweep book.symbol stamp 0 incoming book.bids
              (All-imp (IsLevel Side.buy) _ book.bids (λ l v. v.0) v.bid_levels) in
          subst (λ x. Sweeps incoming book x (match_incoming_sell stamp incoming book)) (sym e)
            (record { trades_eq = ts; rest_eq = es }))
