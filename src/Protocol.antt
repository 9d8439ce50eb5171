-- ===== src/Protocol.antt =====
-- Src_Simulation/src/net/protocol.cpp: framed messages over a socket. `recv` and `send` of the
-- operating system are arguments; a byte is a number below 256.
pub mod Header
pub mod Stream
pub mod Frames
pub mod Ending
use stock_market_trading_sim.Common.{
  ℕ, zero, suc, ◌+◌, ◌-◌, ◌*◌, ◌/◌, ◌%◌, ◌^◌, Bool, true, false, Option, none, some, List, [], ◌∷◌,
  ◌++◌, drop, length, eqb, ltb, if◌then◌else◌,
}

-- `kMaxMessageBytes`
abbrev pub max_message_bytes : ℕ
max_message_bytes = 1048576

-- The last `k` of the header's bytes, most significant first.
unfoldable pub encode_length : ℕ → ℕ → List ℕ
encode_length zero n = []
encode_length (suc k) n = n / 2 ^ (8 * k) % 256 ∷ encode_length k n

-- The loop over the header. `|` adds, since the shift leaves the low byte 0.
unfoldable pub decode_length : ℕ → List ℕ → ℕ
decode_length acc [] = acc
decode_length acc (byte ∷ bytes) = decode_length (acc * 256 % 2 ^ 64 + byte) bytes

-- `spent` is no answer of the source: the bound on the number of rounds was too small.
pub data Transfer (A : Type 0) : Type 0 where
  done : A → Transfer A
  failed spent : Transfer A

-- A socket: `recv k` gives at most `k` bytes, none of them when the peer has closed, or an error; `send` tells how
-- many of the bytes it took.
pub record Socket (S : Type 0) : Type 0 where
  pub recv : ℕ → S → Option (List ℕ) × S
  pub send : List ℕ → S → Option ℕ × S

module _ {S : Type 0} ⦃os : Socket S⦄ where
  -- The rest of a round, on what `recv` answers; `again` is the next round.
  abbrev pub recv_round :
      ℕ
      → List ℕ
      → (ℕ → List ℕ → S → Transfer (List ℕ) × S)
      → Option (List ℕ) × S
      → Transfer (List ℕ) × S
  recv_round k got again (none, s) = (Transfer.failed, s)
  recv_round k got again (some [], s) = (Transfer.failed, s)
  recv_round k got again (some (b ∷ bs), s) = again (k - length bs) (got ++ b ∷ bs) s

  -- A loop has at most as many rounds as bytes are wanted.
  unfoldable pub recv_exact : ℕ → ℕ → List ℕ → S → Transfer (List ℕ) × S
  recv_exact rounds zero got s = (Transfer.done got, s)
  recv_exact zero (suc k) got s = (Transfer.spent, s)
  recv_exact (suc rounds) (suc k) got s = recv_round k got (recv_exact rounds) (os.recv (suc k) s)

  abbrev pub send_round :
      List ℕ → (List ℕ → S → Transfer Unit × S) → Option ℕ × S → Transfer Unit × S
  send_round bs again (none, s) = (Transfer.failed, s)
  send_round bs again (some zero, s) = (Transfer.failed, s)
  send_round bs again (some (suc n), s) = again (drop (suc n) bs) s

  unfoldable pub send_exact : ℕ → List ℕ → S → Transfer Unit × S
  send_exact rounds [] s = (Transfer.done tt, s)
  send_exact zero (b ∷ bs) s = (Transfer.spent, s)
  send_exact (suc rounds) (b ∷ bs) s = send_round (b ∷ bs) (send_exact rounds) (os.send (b ∷ bs) s)

  unfoldable pub send_payload : List ℕ → Transfer Unit × S → Transfer Unit × S
  send_payload payload (Transfer.done u, s) = send_exact (length payload) payload s
  send_payload payload (Transfer.failed, s) = (Transfer.failed, s)
  send_payload payload (Transfer.spent, s) = (Transfer.spent, s)

  unfoldable pub send_framed : List ℕ → S → Transfer Unit × S
  send_framed payload s =
      send_payload payload (send_exact 8 (encode_length 8 (length payload % 2 ^ 64)) s)

  unfoldable pub recv_payload : Transfer (List ℕ) × S → Transfer (List ℕ) × S
  recv_payload (Transfer.done header, s) =
      let payload = recv_exact (decode_length 0 header) (decode_length 0 header) [] s in
      if ltb max_message_bytes (decode_length 0 header) then (Transfer.failed, s) else payload
  recv_payload (Transfer.failed, s) = (Transfer.failed, s)
  recv_payload (Transfer.spent, s) = (Transfer.spent, s)

  unfoldable pub recv_framed : S → Transfer (List ℕ) × S
  recv_framed s = recv_payload (recv_exact 8 8 [] s)
