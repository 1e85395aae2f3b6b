-- ===== src/Examples/Digests.antt =====
-- Digests of the client program.
use asn.Base.{arith, ℕ, ◌≡◌, refl, some, List, [], ◌∷◌, length}
use asn.Client.Sha256.{Sha256Ctx, sha256_init}
use mathlib.Core.Option
use asn.Client.Mac.{repeated, derive_key-repeated, hmac_of, hmac_sha256-hmac_of}
use asn.Client.Digest.{digest, sha256_parts, zero_bytes, hmac_sha256, derive_key}
use asn.Client.Keys.{joined, sha256_parts-digest}

-- "abc"
sha256_abc :
    Option.map digest (sha256_parts ((97 ∷ 98 ∷ 99 ∷ []) ∷ []) (sha256_init (zero_bytes 64)))
    ≡ some (
        0xba ∷ 0x78 ∷ 0x16 ∷ 0xbf ∷ 0x8f ∷ 0x01 ∷ 0xcf ∷ 0xea ∷ 0x41 ∷ 0x41 ∷ 0x40 ∷ 0xde ∷ 0x5d
        ∷ 0xae ∷ 0x22 ∷ 0x23 ∷ 0xb0 ∷ 0x03 ∷ 0x61 ∷ 0xa3 ∷ 0x96 ∷ 0x17 ∷ 0x7a ∷ 0x9c ∷ 0xb4 ∷ 0x10
        ∷ 0xff ∷ 0x61 ∷ 0xf2 ∷ 0x00 ∷ 0x15 ∷ 0xad ∷ [])
unfolding sha256_parts
sha256_abc = refl

sha256_parts-digest_example :
    (bytes : List ℕ) × (ctx : Sha256Ctx) × (sha256_parts
        ((97 ∷ []) ∷ (98 ∷ 99 ∷ []) ∷ [])
        (sha256_init (zero_bytes 64))
      ≡ some (bytes, ctx))
    × (sha256_parts ((97 ∷ joined ((98 ∷ 99 ∷ []) ∷ [])) ∷ []) (sha256_init (zero_bytes 64))
        ≡ some (bytes, ctx))
    × (length bytes ≡ 32)
sha256_parts-digest_example =
    sha256_parts-digest (97 ∷ []) ((98 ∷ 99 ∷ []) ∷ []) (zero_bytes 64) refl (omega arith)

hmac_sha256-hmac_of_example :
    (bytes : List ℕ) × (hmac_sha256 (zero_bytes 64) (1 ∷ 2 ∷ []) (3 ∷ []) ≡ some bytes)
    × (hmac_of (1 ∷ 2 ∷ []) (3 ∷ []) ≡ some bytes)
    × (length bytes ≡ 32)
hmac_sha256-hmac_of_example =
    hmac_sha256-hmac_of (zero_bytes 64) (1 ∷ 2 ∷ []) (3 ∷ []) refl (omega arith) (omega arith)

derive_key-repeated_example :
    (bytes : List ℕ) × (derive_key (zero_bytes 64) (1 ∷ 2 ∷ []) (3 ∷ []) 1000 ≡ some bytes)
    × (repeated 1000 (1 ∷ 2 ∷ 3 ∷ []) ≡ some bytes)
    × (length bytes ≡ 32)
derive_key-repeated_example =
    derive_key-repeated (zero_bytes 64) (1 ∷ 2 ∷ []) (3 ∷ []) 1000 refl (omega arith) (omega arith)
