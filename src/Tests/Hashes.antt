-- ===== src/Tests/Hashes.antt =====
-- SHA-256 at the test vectors of FIPS 180-4.
use stock_market_trading_sim.Common.{ℕ, ◌≡◌, refl, List, [], ◌∷◌, length, All, ◌<◌}
use stock_market_trading_sim.Sha256.{
  to_hex, hash, finalize, update, update_loop, pad_zeros, take_in, process_block, words_of, extend,
  compress, compress_round, rotr, length_bytes, digest,
}
use stock_market_trading_sim.Sha256.Standard.{standard_hash, hash-standard_hash}
use stock_market_trading_sim.Sha256.Hex.{from_hex, hash-to_hex}

-- "abc"
abc_digest :
    hash (0x61 ∷ 0x62 ∷ 0x63 ∷ [])
    ≡ 0xba ∷ 0x78 ∷ 0x16 ∷ 0xbf ∷ 0x8f ∷ 0x01 ∷ 0xcf ∷ 0xea ∷ 0x41 ∷ 0x41 ∷ 0x40 ∷ 0xde ∷ 0x5d
      ∷ 0xae ∷ 0x22 ∷ 0x23 ∷ 0xb0 ∷ 0x03 ∷ 0x61 ∷ 0xa3 ∷ 0x96 ∷ 0x17 ∷ 0x7a ∷ 0x9c ∷ 0xb4 ∷ 0x10
      ∷ 0xff ∷ 0x61 ∷ 0xf2 ∷ 0x00 ∷ 0x15 ∷ 0xad ∷ []
unfolding hash finalize update update_loop pad_zeros take_in process_block words_of extend compress
    compress_round rotr length_bytes digest
abc_digest = refl

abbrev abc : List ℕ
abc = 0x61 ∷ 0x62 ∷ 0x63 ∷ []

hash-standard_hash_example : hash abc ≡ standard_hash abc
hash-standard_hash_example = hash-standard_hash abc

hash-to_hex_example :
    (length (hash abc) ≡ 32)
    × All (λ x. x < 256) (hash abc)
    × (length (to_hex (hash abc)) ≡ 64)
    × (from_hex (to_hex (hash abc)) ≡ hash abc)
hash-to_hex_example = hash-to_hex abc
