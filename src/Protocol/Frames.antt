-- ===== src/Protocol/Frames.antt =====
-- Whole messages over a stream socket (Src_Simulation/src/net/protocol.cpp).
use stock_market_trading_sim.Common.{
  ℕ, ◌<◌, ◌≤◌, ◌^◌, ◌≡◌, refl, ap, ◌∙◌, List, [], ◌++◌, length, arith,
}
use mathlib.Core.List.{append_assoc}
use stock_market_trading_sim.Protocol.{
  Socket, Transfer, recv_exact, send_exact, encode_length, decode_length, max_message_bytes,
  send_framed, send_payload, recv_framed, recv_payload,
}
use stock_market_trading_sim.Protocol.Header.{decode_length-encode_length, length-encode_length}
use stock_market_trading_sim.Protocol.Stream.{IsStream, recv_exact_lem, send_exact_lem}

-- A message with its header.
abbrev pub framed : List ℕ → List ℕ
framed payload = encode_length 8 (length payload) ++ payload

module _ {S : Type 0} ⦃os : Socket S⦄ (arriving written : S → List ℕ)
    (stream : IsStream S arriving written) where
  -- A message of fewer than 2^64 bytes is sent: what is written grows by its frame.
  pub send_framed-written :
      (payload : List ℕ) (s : S)
      → length payload < 2 ^ 64
      → (s' : S) × (send_framed payload s ≡ (Transfer.done tt, s'))
        × (written s' ≡ written s ++ framed payload)
  unfolding send_framed send_payload
  send_framed-written payload s h =
      let (s1, q, w) =
        send_exact_lem arriving written stream 8 (encode_length 8 (length payload)) s
          (omega (arith, length-encode_length 8 (length payload))) in
      let (s2, r, x) =
        send_exact_lem arriving written stream (length payload) payload s1 (omega arith) in
      (
        s2,
        ap (send_payload payload)
              (ap (λ n. send_exact 8 (encode_length 8 n) s) (omega (arith, h)) ∙ q)
            ∙ r,
        x
            ∙ ap (λ y. y ++ payload) w
            ∙ append_assoc (written s) (encode_length 8 (length payload)) payload,
      )

  -- Of bytes that begin with a header, the header is read as the length.
  header_read :
      (n : ℕ) (rest : List ℕ) (s : S)
      → n < 2 ^ 64
      → arriving s ≡ encode_length 8 n ++ rest
      → (s' : S) × (recv_framed s ≡ recv_payload (Transfer.done (encode_length 8 n), s'))
        × (arriving s' ≡ rest)
        × (decode_length 0 (encode_length 8 n) ≡ n)
  unfolding recv_framed
  header_read n rest s h a =
      let (s1, q, w) =
        recv_exact_lem arriving written stream 8 8 [] (encode_length 8 n) rest s (omega arith)
          (length-encode_length 8 n) a in
      (s1, ap recv_payload q, w, decode_length-encode_length n h)

  within :
      (header : List ℕ) (n : ℕ) (s : S)
      → decode_length 0 header ≡ n
      → n ≤ max_message_bytes
      → recv_payload (Transfer.done header, s) ≡ recv_exact n n [] s
  unfolding recv_payload
  within header n s d h = rw d (ground (arith, h))

  beyond :
      (header : List ℕ) (n : ℕ) (s : S)
      → decode_length 0 header ≡ n
      → max_message_bytes < n
      → recv_payload (Transfer.done header, s) ≡ (Transfer.failed, s)
  unfolding recv_payload
  beyond header n s d h = rw d (ground (arith, h))

  -- A frame of at most kMaxMessageBytes that arrives is read as its message, and what is behind it is left.
  pub recv_framed-framed :
      (payload rest : List ℕ) (s : S)
      → length payload ≤ max_message_bytes
      → arriving s ≡ framed payload ++ rest
      → (s' : S) × (recv_framed s ≡ (Transfer.done payload, s')) × (arriving s' ≡ rest)
  unfolding recv_payload
  recv_framed-framed payload rest s h a =
      let (s1, q, w, d) =
        header_read (length payload) (payload ++ rest) s (omega (arith, h))
          (a ∙ append_assoc (encode_length 8 (length payload)) payload rest) in
      let (s2, r, x) =
        recv_exact_lem arriving written stream (length payload) (length payload) [] payload rest s1
          (omega arith) refl w in
      (s2, q ∙ within (encode_length 8 (length payload)) (length payload) s1 d h ∙ r, x)

  -- A header that claims more than kMaxMessageBytes is refused, and nothing behind it is read.
  pub recv_framed-oversized :
      (n : ℕ) (rest : List ℕ) (s : S)
      → max_message_bytes < n
      → n < 2 ^ 64
      → arriving s ≡ encode_length 8 n ++ rest
      → (s' : S) × (recv_framed s ≡ (Transfer.failed, s')) × (arriving s' ≡ rest)
  unfolding recv_payload
  recv_framed-oversized n rest s o h a =
      let (s1, q, w, d) = header_read n rest s h a in
      (s1, q ∙ beyond (encode_length 8 n) n s1 d o, w)
