-- ===== src/Tests/Sockets.antt =====
-- Messages over a socket that passes one byte at a time.
use stock_market_trading_sim.Common.{
  ℕ, suc, ◌<◌, ◌≡◌, refl, Option, some, List, [], ◌∷◌, ◌++◌, length, ◌≤◌, arith,
}
use stock_market_trading_sim.Protocol.{Socket, Transfer, send_framed, recv_framed, encode_length}
use stock_market_trading_sim.Protocol.Stream.{IsStream}
use stock_market_trading_sim.Protocol.Frames.{
  framed, send_framed-written, recv_framed-framed, recv_framed-oversized,
}
use stock_market_trading_sim.Protocol.Ending.{Ended, recv_framed-Ended}

-- The bytes that arrive, and those that were written.
abbrev Wire : Type 0
Wire = List ℕ × List ℕ

abbrev drip_recv : ℕ → Wire → Option (List ℕ) × Wire
drip_recv k ([], w) = (some [], ([], w))
drip_recv k (b ∷ a, w) = (some (b ∷ []), (a, w))

abbrev drip_send : List ℕ → Wire → Option ℕ × Wire
drip_send [] (a, w) = (some 0, (a, w))
drip_send (b ∷ bs) (a, w) = (some 1, (a, w ++ b ∷ []))

instance abbrev drip : Socket Wire
drip = record { recv = drip_recv; send = drip_send }

abbrev drip_arriving : Wire → List ℕ
drip_arriving (a, w) = a

abbrev drip_written : Wire → List ℕ
drip_written (a, w) = w

drip_reads :
    (k : ℕ) (s : Wire)
    → 0 < length (drip_arriving s)
    → (b : ℕ) × (bs : List ℕ) × (s' : Wire) × (drip_recv (suc k) s ≡ (some (b ∷ bs), s'))
      × (length bs ≤ k)
      × (drip_arriving s ≡ b ∷ bs ++ drip_arriving s')
drip_reads k ([], w) h = absurd (omega (arith, h))
drip_reads k (b ∷ a, w) h = (b, [], (a, w), refl, omega arith, refl)

drip-IsStream : IsStream Wire drip_arriving drip_written
drip-IsStream = record {
  reads = drip_reads;
  writes = λ b. λ bs. λ s. (0, (s.0, s.1 ++ b ∷ []), refl, omega arith, refl);
}

abbrev hello : List ℕ
hello = 104 ∷ 105 ∷ []

send_framed-written_example :
    (s' : Wire) × (send_framed hello ([], []) ≡ (Transfer.done tt, s'))
    × (drip_written s' ≡ framed hello)
send_framed-written_example =
    send_framed-written drip_arriving drip_written drip-IsStream hello ([], []) (omega arith)

recv_framed-framed_example :
    (s' : Wire) × (recv_framed (framed hello ++ 7 ∷ [], []) ≡ (Transfer.done hello, s'))
    × (drip_arriving s' ≡ 7 ∷ [])
recv_framed-framed_example =
    recv_framed-framed drip_arriving drip_written drip-IsStream hello (7 ∷ [])
      (framed hello ++ 7 ∷ [], []) (omega arith) refl

recv_framed-oversized_example :
    (s' : Wire) × (recv_framed (encode_length 8 2000000 ++ 7 ∷ [], []) ≡ (Transfer.failed, s'))
    × (drip_arriving s' ≡ 7 ∷ [])
recv_framed-oversized_example =
    recv_framed-oversized drip_arriving drip_written drip-IsStream 2000000 (7 ∷ [])
      (encode_length 8 2000000 ++ 7 ∷ [], []) (omega arith) (omega arith) refl

abbrev loaded_wire : Wire
loaded_wire = (framed hello, [])

recv_framed-Ended_example :
    Ended (recv_framed loaded_wire).0 × Ended (send_framed hello loaded_wire).0
recv_framed-Ended_example = recv_framed-Ended hello loaded_wire
