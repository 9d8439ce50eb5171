-- ===== src/OrderBook.antt =====
-- Src_Simulation/include/order_book.hpp and src/order_book.cpp: the book of one symbol. A call holds
-- the book's mutex from its first line to its last, so each operation is one step on the state.
-- A map from prices to queues is the list of its entries, best price first.
pub mod Cancel
pub mod Views
pub mod Fills
pub mod Invariant
pub mod Rest
pub mod Validity
pub mod Conservation
pub mod Priority
pub mod Trades
pub mod Cancellation
pub mod Shrinking
pub mod Depth
use stock_market_trading_sim.Common.{
  ◌≡◌, refl, ℕ, zero, suc, ◌+◌, ◌-◌, Bool, true, false, not, ◌&&◌, ◌||◌, Option, none, some, List,
  [], ◌∷◌, ◌++◌, ltb, eqb, if◌then◌else◌, length, sum_by, min,
}
use stock_market_trading_sim.Double.{Double}
use stock_market_trading_sim.Types.{
  OrderId, Symbol, TimePoint, Side, OrderKind, Order, Trade, is_market,
}

abbrev pub Levels : Type 0 → Type 0
Levels P = List (P × List (Order P))

pub record OrderBook (P : Type 0) : Type 0 where
  pub symbol : Symbol
  pub bids : Levels P
  pub asks : Levels P

module _ {P : Type 0} where
  unfoldable pub new_book : Symbol → OrderBook P
  new_book s = record { symbol = s; bids = []; asks = [] }

  -- The fields of a trade, by the side of the incoming order; the price is the resting level's.
  abbrev pub trade_of : Side → Symbol → TimePoint → P → ℕ → Order P → Order P → Trade P
  trade_of Side.buy s now price n incoming resting = record {
    buy_order_id = incoming.id;
    sell_order_id = resting.id;
    buyer = incoming.client;
    seller = resting.client;
    symbol = s;
    quantity = n;
    price = price;
    timestamp = now;
  }
  trade_of Side.sell s now price n incoming resting = record {
    buy_order_id = resting.id;
    sell_order_id = incoming.id;
    buyer = resting.client;
    seller = incoming.client;
    symbol = s;
    quantity = n;
    price = price;
    timestamp = now;
  }

-- The state of the loops: the trades made, what is left of `incoming`, and what is left of the queue
-- or of the map of the other side.
pub record Fill (P B : Type 0) : Type 0 where
  pub trades : List (Trade P)
  pub left : Order P
  pub rest : B

module _ {P : Type 0} (symbol : Symbol) (stamp : ℕ → TimePoint) where
  -- The loop over one queue, after `made` trades of the call; `stamp k` is the clock at trade `k`.
  -- Where `resting` keeps a remainder nothing is left of `incoming`, and the loop's test fails.
  unfoldable pub fill_queue : ℕ → P → Order P → List (Order P) → Fill P (List (Order P))
  fill_queue made price incoming [] = record { trades = []; left = incoming; rest = [] }
  fill_queue made price incoming (resting ∷ queue) =
      let traded_qty = min incoming.quantity resting.quantity in
      let trade = trade_of incoming.side symbol (stamp made) price traded_qty incoming resting in
      let incoming' = record incoming { quantity = incoming.quantity - traded_qty } in
      let resting' = record resting { quantity = resting.quantity - traded_qty } in
      let more = fill_queue (suc made) price incoming' queue in
      if ltb 0 incoming.quantity
      then (if eqb resting'.quantity 0
          then record { trades = trade ∷ more.trades; left = more.left; rest = more.rest }
          else record { trades = trade ∷ []; left = incoming'; rest = resting' ∷ queue })
      else record { trades = []; left = incoming; rest = resting ∷ queue }

module _ {P : Type 0} ⦃d : Double P⦄ where
  -- A buyer's limit is below the level, or a seller's above it.
  abbrev pub beyond : Side → P → P → Bool
  beyond Side.buy price level = d.lt price level
  beyond Side.sell price level = d.lt level price

  -- The test under which a limit order does not cross the spread.
  unfoldable pub out_of_reach : Order P → P → Bool
  out_of_reach incoming level =
      not (is_market incoming.kind) && beyond incoming.side incoming.price level

  -- The loop over the levels of the other side. A queue that is not empty after its loop has used
  -- up `incoming`, and the outer test fails.
  unfoldable pub match_levels :
      Symbol → (ℕ → TimePoint) → ℕ → Order P → Levels P → Fill P (Levels P)
  match_levels symbol stamp made incoming [] = record { trades = []; left = incoming; rest = [] }
  match_levels symbol stamp made incoming ((price, queue) ∷ levels) =
      let here = fill_queue symbol stamp made price incoming queue in
      let more = match_levels symbol stamp (made + length here.trades) here.left levels in
      if not (ltb 0 incoming.quantity) || out_of_reach incoming price
      then record { trades = []; left = incoming; rest = (price, queue) ∷ levels }
      else elim here.rest [
        | [] ↦ record { trades = here.trades ++ more.trades; left = more.left; rest = more.rest }
        | o ∷ queue' ↦ record {
          trades = here.trades;
          left = here.left;
          rest = (price, o ∷ queue') ∷ levels;
        }
      ]

  -- `map[order.price].push_back(order)`, where `before` is the map's comparison.
  unfoldable pub push_back : (P → P → Bool) → Order P → Levels P → Levels P
  push_back before o [] = (o.price, o ∷ []) ∷ []
  push_back before o ((p, queue) ∷ levels) =
      if before o.price p
      then (o.price, o ∷ []) ∷ (p, queue) ∷ levels
      else if before p o.price
      then (p, queue) ∷ push_back before o levels
      else (p, queue ++ (o ∷ [])) ∷ levels

  -- The comparisons of `bids_` and `asks_`.
  abbrev pub better : Side → P → P → Bool
  better Side.buy x y = d.lt y x
  better Side.sell x y = d.lt x y

  abbrev pub rests : Order P → Bool
  rests o = ltb 0 o.quantity && not (is_market o.kind)

  unfoldable pub match_incoming_buy :
      (ℕ → TimePoint) → Order P → OrderBook P → List (Trade P) × OrderBook P
  match_incoming_buy stamp incoming book =
      let f = match_levels book.symbol stamp 0 incoming book.asks in
      (
        f.trades,
        record book {
          asks = f.rest;
          bids = if rests f.left then push_back (better Side.buy) f.left book.bids else book.bids;
        },
      )

  unfoldable pub match_incoming_sell :
      (ℕ → TimePoint) → Order P → OrderBook P → List (Trade P) × OrderBook P
  match_incoming_sell stamp incoming book =
      let f = match_levels book.symbol stamp 0 incoming book.bids in
      (
        f.trades,
        record book {
          bids = f.rest;
          asks = if rests f.left then push_back (better Side.sell) f.left book.asks else book.asks;
        },
      )

  -- `OrderBook::match`
  unfoldable pub match_order :
      (ℕ → TimePoint) → Order P → OrderBook P → List (Trade P) × OrderBook P
  match_order stamp incoming book = elim incoming.side [
    | Side.buy ↦ match_incoming_buy stamp incoming book
    | Side.sell ↦ match_incoming_sell stamp incoming book
  ]

  -- A property of both sides' code is a property of `match_order`.
  pub match_order_cases {κ} :
      (Q : List (Trade P) × OrderBook P → Type κ) (stamp : ℕ → TimePoint) (incoming : Order P)
      (book : OrderBook P)
      → (incoming.side ≡ Side.buy → Q (match_incoming_buy stamp incoming book))
      → (incoming.side ≡ Side.sell → Q (match_incoming_sell stamp incoming book))
      → Q (match_order stamp incoming book)
  unfolding match_order
  match_order_cases Q stamp incoming book b s =
      (elim incoming.side
          as (λ x.
            incoming.side ≡ x
            → Q (elim x [
              | Side.buy ↦ match_incoming_buy stamp incoming book
              | Side.sell ↦ match_incoming_sell stamp incoming book
            ])) [ Side.buy ↦ b | Side.sell ↦ s ])
        refl
