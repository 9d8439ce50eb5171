-- ===== src/Protocol/Ending.antt =====
-- Enough rounds are given to the loops of Src_Simulation/src/net/protocol.cpp, whatever the socket does.
use stock_market_trading_sim.Common.{
  ℕ, zero, suc, ◌≤◌, Option, none, some, List, [], ◌∷◌, drop, length, length-drop, ltb, either,
  arith,
}
use stock_market_trading_sim.Protocol.{
  Socket, Transfer, recv_round, recv_exact, send_round, send_exact, encode_length, decode_length,
  max_message_bytes, send_framed, send_payload, recv_framed, recv_payload,
}
use stock_market_trading_sim.Protocol.Header.{length-encode_length}

-- The loop came to an end by itself.
abbrev pub Ended : {A : Type 0} → Transfer A → Type 0
Ended (Transfer.done x) = Unit
Ended Transfer.failed = Unit
Ended Transfer.spent = ⊥

module _ {S : Type 0} ⦃os : Socket S⦄ where
  recv_round-Ended :
      (k : ℕ) (got : List ℕ) (again : ℕ → List ℕ → S → Transfer (List ℕ) × S)
      (r : Option (List ℕ) × S)
      → ((j : ℕ) (g : List ℕ) (s : S) → j ≤ k → Ended (again j g s).0)
      → Ended (recv_round k got again r).0
  recv_round-Ended k got again (none, s) h = tt
  recv_round-Ended k got again (some [], s) h = tt
  recv_round-Ended k got again (some (b ∷ bs), s) h = h _ _ s (omega arith)

  recv_exact-Ended :
      (rounds k : ℕ) (got : List ℕ) (s : S) → k ≤ rounds → Ended (recv_exact rounds k got s).0
  unfolding recv_exact
  recv_exact-Ended rounds zero got s h = tt
  recv_exact-Ended zero (suc k) got s h = absurd (omega (arith, h))
  recv_exact-Ended (suc rounds) (suc k) got s h =
      recv_round-Ended k got (recv_exact rounds) (os.recv (suc k) s)
        (λ j. λ g. λ s'. λ l. recv_exact-Ended rounds j g s' (omega (arith, h, l)))

  send_round-Ended :
      (b : ℕ) (bs : List ℕ) (again : List ℕ → S → Transfer Unit × S) (r : Option ℕ × S)
      → ((cs : List ℕ) (s : S) → length cs ≤ length bs → Ended (again cs s).0)
      → Ended (send_round (b ∷ bs) again r).0
  send_round-Ended b bs again (none, s) h = tt
  send_round-Ended b bs again (some zero, s) h = tt
  send_round-Ended b bs again (some (suc n), s) h =
      h (drop n bs) s (omega (arith, length-drop n bs))

  send_exact-Ended :
      (rounds : ℕ) (bs : List ℕ) (s : S) → length bs ≤ rounds → Ended (send_exact rounds bs s).0
  unfolding send_exact
  send_exact-Ended rounds [] s h = tt
  send_exact-Ended zero (b ∷ bs) s h = absurd (omega (arith, h))
  send_exact-Ended (suc rounds) (b ∷ bs) s h =
      send_round-Ended b bs (send_exact rounds) (os.send (b ∷ bs) s)
        (λ cs. λ s'. λ l. send_exact-Ended rounds cs s' (omega (arith, h, l)))

  recv_payload-Ended : (r : Transfer (List ℕ) × S) → Ended r.0 → Ended (recv_payload r).0
  unfolding recv_payload
  recv_payload-Ended (Transfer.done header, s) h =
      either {A = Transfer (List ℕ) × S} (λ r. Ended r.0)
        (ltb max_message_bytes (decode_length 0 header)) tt
        (recv_exact-Ended (decode_length 0 header) (decode_length 0 header) [] s (omega arith))
  recv_payload-Ended (Transfer.failed, s) h = tt
  recv_payload-Ended (Transfer.spent, s) h = h

  send_payload-Ended :
      (payload : List ℕ) (r : Transfer Unit × S) → Ended r.0 → Ended (send_payload payload r).0
  unfolding send_payload
  send_payload-Ended payload (Transfer.done u, s) h =
      send_exact-Ended (length payload) payload s (omega arith)
  send_payload-Ended payload (Transfer.failed, s) h = tt
  send_payload-Ended payload (Transfer.spent, s) h = h

  -- Whatever recv and send answer, receiving a message and sending one end within the rounds given: as many as bytes are wanted.
  pub recv_framed-Ended :
      (payload : List ℕ) (s : S) → Ended (recv_framed s).0 × Ended (send_framed payload s).0
  unfolding recv_framed send_framed
  recv_framed-Ended payload s = (
    recv_payload-Ended (recv_exact 8 8 [] s) (recv_exact-Ended 8 8 [] s (omega arith)),
    send_payload-Ended payload _
        (send_exact-Ended 8 (encode_length 8 _) s (omega (arith, length-encode_length 8 _))),
  )
