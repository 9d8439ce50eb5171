-- ===== src/Registry/Consistency.antt =====
-- The index of the registry and its buckets agree (Src_Simulation/src/order_registry.cpp).
use stock_market_trading_sim.Common.{
  ◌≡◌, ◌∙◌, true, false, ◌&&◌, Option, none, some, [], arith, is_some, value_or, Bool-cases,
  Option-cases, inl, inr, if◌then◌else◌,
}
use stock_market_trading_sim.Common.Keys.{◌==◌, id_key, symbol_key}
use stock_market_trading_sim.Common.Maps.{
  lookup, erase, emplace, get_or, lookup-insert, lookup-erase, lookup-emplace, lookup-nil,
}
use stock_market_trading_sim.Types.{OrderId, Symbol, Order}
use stock_market_trading_sim.Registry.{OrderRegistry, add, cancel, erase_from}

module _ {P : Type 0} where
  -- The order under an id in the bucket of a symbol.
  unfoldable pub waiting : Symbol → OrderId → OrderRegistry P → Option (Order P)
  waiting s id r = lookup id (get_or s [] r.waiting_by_symbol)

  pub record IsConsistent (r : OrderRegistry P) : Type 0 where
    pub indexed :
        (id : OrderId) (s : Symbol)
        → lookup id r.order_symbol_index ≡ some s
        → (o : Order P) × (waiting s id r ≡ some o)
    pub stored :
        (id : OrderId) (s : Symbol) (o : Order P)
        → waiting s id r ≡ some o
        → (lookup id r.order_symbol_index ≡ some s) × (o.id ≡ id) × (o.symbol ≡ s)

  waiting-add :
      (o : Order P) (r : OrderRegistry P) (s : Symbol) (j : OrderId)
      → waiting s j (add o r) ≡ (
          if o.symbol == s
          then (if o.id == j then some (value_or (waiting s j r) o) else waiting s j r)
          else waiting s j r)
  unfolding waiting add get_or
  waiting-add o r s j = ground (
    arith,
    lookup-insert o.symbol s (emplace o.id o (get_or o.symbol [] r.waiting_by_symbol))
        r.waiting_by_symbol,
    lookup-emplace o.id j o (get_or o.symbol [] r.waiting_by_symbol),
    symbol_key.same_iff o.symbol s,
    id_key.same_iff o.id j,
  )

  waiting-erase_from :
      (id : OrderId) (t : Symbol) (r : OrderRegistry P) (s : Symbol) (j : OrderId)
      → lookup j (get_or s [] (erase_from id t r.waiting_by_symbol))
        ≡ (if t == s then (if id == j then none else waiting s j r) else waiting s j r)
  unfolding waiting get_or
  waiting-erase_from id t r s j = elim (Option-cases (lookup t r.waiting_by_symbol)) [
    | inl k ↦
        rw (k, erase_from)
          (ground
            (arith, k, lookup-nil {V = Order P} j, symbol_key.same_iff t s, id_key.same_iff id j))
    | inr (bucket, k) ↦
        rw (k, erase_from)
          (ground (
            arith,
            k,
            lookup-insert t s (erase id bucket) r.waiting_by_symbol,
            lookup-erase id j bucket,
            symbol_key.same_iff t s,
            id_key.same_iff id j,
          ))
  ]

  waiting_absent :
      (r : OrderRegistry P) (id : OrderId) (s : Symbol)
      → IsConsistent r
      → lookup id r.order_symbol_index ≡ none
      → waiting s id r ≡ none
  waiting_absent r id s v fresh = elim (Option-cases (waiting s id r)) [
    | inl e ↦ e
    | inr (o, e) ↦ cc (fresh, (v.stored id s o e).0)
  ]

  waiting-add_fresh :
      (o : Order P) (r : OrderRegistry P)
      → lookup o.id r.order_symbol_index ≡ none
      → IsConsistent r
      → (s : Symbol) (j : OrderId)
      → waiting s j (add o r) ≡ (if (o.symbol == s) && (o.id == j) then some o else waiting s j r)
  waiting-add_fresh o r fresh v s j =
      ground (arith, waiting-add o r s j, waiting_absent r o.id s v fresh, id_key.same_iff o.id j)

  index-add :
      (o : Order P) (r : OrderRegistry P)
      → lookup o.id r.order_symbol_index ≡ none
      → (j : OrderId)
      → lookup j (add o r).order_symbol_index
        ≡ (if o.id == j then some o.symbol else lookup j r.order_symbol_index)
  unfolding add
  index-add o r fresh j = ground (arith, lookup-emplace o.id j o.symbol r.order_symbol_index)

  -- Adding an order under a fresh id keeps index and buckets in step, and the order can be found
  -- under its symbol and id; nothing else changes.
  pub add-IsConsistent :
      (o : Order P) (r : OrderRegistry P)
      → lookup o.id r.order_symbol_index ≡ none
      → IsConsistent r
      → IsConsistent (add o r)
        × ((s : Symbol) (j : OrderId)
            → waiting s j (add o r)
              ≡ (if (o.symbol == s) && (o.id == j) then some o else waiting s j r))
  add-IsConsistent o r fresh v = (
    record {
      indexed = λ id s h. elim (Bool-cases (o.id == id)) [
        | inl e ↦ (
          o,
          ground (
            arith,
            h,
            e,
            index-add o r fresh id,
            waiting-add_fresh o r fresh v s id,
            symbol_key.same_iff o.symbol s,
          ),
        )
        | inr e ↦
            let (x, k) = v.indexed id s (ground (arith, h, e, index-add o r fresh id)) in
            (x, ground (arith, k, e, waiting-add_fresh o r fresh v s id))
      ];
      stored = λ id s x h. ground (
        arith,
        h,
        index-add o r fresh id,
        waiting-add_fresh o r fresh v s id,
        symbol_key.same_iff o.symbol s,
        id_key.same_iff o.id id,
        v.stored id s x,
        waiting_absent r o.id s v fresh,
      );
    },
    waiting-add_fresh o r fresh v,
  )

  -- An order stands in no other bucket than the one that the index names.
  waiting_elsewhere :
      (r : OrderRegistry P) (id : OrderId) (t s : Symbol)
      → IsConsistent r
      → lookup id r.order_symbol_index ≡ some t
      → (t == s) ≡ false
      → waiting s id r ≡ none
  waiting_elsewhere r id t s v k ne = elim (Option-cases (waiting s id r)) [
    | inl e ↦ e
    | inr (o, e) ↦ ground (arith, (v.stored id s o e).0, k, symbol_key.same_iff t s, ne)
  ]

  index-cancel :
      (id : OrderId) (r : OrderRegistry P) (j : OrderId)
      → lookup j (cancel id r).1.order_symbol_index
        ≡ (if id == j then none else lookup j r.order_symbol_index)
  unfolding cancel
  index-cancel id r j = ground (arith, lookup-erase id j r.order_symbol_index, id_key.same_iff id j)

  cancel_miss :
      (id : OrderId) (r : OrderRegistry P)
      → lookup id r.order_symbol_index ≡ none
      → cancel id r ≡ (false, r)
  unfolding cancel
  cancel_miss id r k = rw (k, cancel)

  cancel_hit :
      (id : OrderId) (r : OrderRegistry P) (t : Symbol)
      → lookup id r.order_symbol_index ≡ some t
      → cancel id r ≡ (
        true,
        record {
          waiting_by_symbol = erase_from id t r.waiting_by_symbol;
          order_symbol_index = erase id r.order_symbol_index;
        },
      )
  unfolding cancel
  cancel_hit id r t k = rw (k, cancel)

  waiting-cancel :
      (id : OrderId) (r : OrderRegistry P)
      → IsConsistent r
      → (s : Symbol) (j : OrderId)
      → waiting s j (cancel id r).1 ≡ (if id == j then none else waiting s j r)
  waiting-cancel id r v s j = elim (Option-cases (lookup id r.order_symbol_index)) [
    | inl k ↦
        rw (cancel_miss id r k) (ground (arith, waiting_absent r id s v k, id_key.same_iff id j))
    | inr (t, k) ↦ rw (cancel_hit id r t k) (
        unfold waiting in
        waiting-erase_from id t r s j
        ∙ unfold waiting in
          ground (arith, Bool-cases (t == s), waiting_elsewhere r id t s v k, id_key.same_iff id j))
  ]

  -- Cancelling a waiting order by id says whether the id was waiting, takes it out of the index and of
  -- its bucket, leaves all others where they were, and keeps index and buckets in step.
  pub cancel-IsConsistent :
      (id : OrderId) (r : OrderRegistry P)
      → IsConsistent r
      → ((cancel id r).0 ≡ is_some (lookup id r.order_symbol_index))
        × IsConsistent (cancel id r).1
        × ((s : Symbol) (j : OrderId)
            → waiting s j (cancel id r).1 ≡ (if id == j then none else waiting s j r))
  cancel-IsConsistent id r v = (
    unfold cancel in ground arith,
    record {
      indexed = λ j s h. elim (Bool-cases (id == j)) [
        | inl e ↦ absurd (ground (arith, h, e, index-cancel id r j))
        | inr e ↦
            let (x, k) = v.indexed j s (ground (arith, h, e, index-cancel id r j)) in
            (x, ground (arith, k, e, waiting-cancel id r v s j))
      ];
      stored = λ j s x h. ground (
        arith,
        h,
        index-cancel id r j,
        waiting-cancel id r v s j,
        id_key.same_iff id j,
        v.stored j s x,
      );
    },
    waiting-cancel id r v,
  )
