-- ===== src/Client/Digest.antt =====
-- The client program in Languages: sha256_final(), hmac_sha256() and derive_key().
use asn.Base.{
  ℕ, zero, suc, ◌+◌, ◌-◌, ◌*◌, ◌/◌, ◌%◌, ◌^◌, Option, some, List, [], ◌∷◌, ◌++◌, length, ltb,
  if◌then◌else◌, copy_to,
}
use mathlib.Core.Option
use Prim.Native.Nat.{bit_xor}
use asn.Client.Sha256.{Words, Sha256Ctx, option_bind, sha256_transform, sha256_init, sha256_update}

abbrev pub zero_bytes : ℕ → List ℕ
zero_bytes zero = []
zero_bytes (suc n) = 0 ∷ zero_bytes n

-- `number` from its top byte, the `k`th, down to its lowest.
abbrev pub big_endian : ℕ → ℕ → List ℕ
big_endian zero number = number % 256 ∷ []
big_endian (suc k) number = number / 256 ^ suc k % 256 ∷ big_endian k number

-- The words of the state, big-endian.
abbrev pub digest_bytes : Words → List ℕ
digest_bytes s =
    big_endian 3 s.a
    ++ (big_endian 3 s.b
        ++ (big_endian 3 s.c
            ++ (big_endian 3 s.d
                ++ (big_endian 3 s.e
                    ++ (big_endian 3 s.f ++ (big_endian 3 s.g ++ big_endian 3 s.h))))))

-- The first part of sha256_final(): 0x80, zeros, and another block where the length has no room.
unfoldable pub pad : Sha256Ctx → Option Sha256Ctx
unfolding sha256_transform
pad ctx =
    if ltb ctx.datalen 56
    then Option.map (λ block. record ctx { block = block })
        (copy_to ctx.block ctx.datalen (0x80 ∷ zero_bytes (55 - ctx.datalen)))
    else option_bind (copy_to ctx.block ctx.datalen (0x80 ∷ zero_bytes (63 - ctx.datalen))) (λ full.
      option_bind (sha256_transform full ctx.state) (λ s.
        Option.map (λ block. record ctx { block = block; state = s })
          (copy_to full 0 (zero_bytes 56))))

-- The second part: the length in bits, and the digest with the context that is left.
unfoldable pub close : Sha256Ctx → Option (List ℕ × Sha256Ctx)
unfolding sha256_transform
close ctx =
    let bitlen = (ctx.bitlen + ctx.datalen * 8 % 2 ^ 32) % 2 ^ 64 in
    option_bind (copy_to ctx.block 56 (big_endian 7 bitlen)) (λ block.
      Option.map (λ s. (digest_bytes s, record ctx { block = block; bitlen = bitlen; state = s }))
        (sha256_transform block ctx.state))

-- sha256_final()
unfoldable pub sha256_final : Sha256Ctx → Option (List ℕ × Sha256Ctx)
unfolding pad close
sha256_final ctx = option_bind (pad ctx) close

-- The digest of the parts, one after the other: behind sha256_init(), a sha256_update() for each, and
-- sha256_final().
unfoldable pub sha256_parts : List (List ℕ) → Sha256Ctx → Option (List ℕ × Sha256Ctx)
unfolding sha256_final sha256_update
sha256_parts [] ctx = sha256_final ctx
sha256_parts (p ∷ ps) ctx = option_bind (sha256_update p ctx) (sha256_parts ps)

-- The bytes of a digest.
abbrev pub digest : List ℕ × Sha256Ctx → List ℕ
digest (bytes, ctx) = bytes

abbrev pub xor_pad : ℕ → List ℕ → List ℕ
xor_pad x [] = []
xor_pad x (k ∷ ks) = bit_xor k x ∷ xor_pad x ks

-- hmac_sha256() behind the test on the length of the key. Each digest begins with the block that the
-- one before it left in the context, which sha256_init() leaves as it is.
unfoldable pub hmac_with : List ℕ → List ℕ → List ℕ → Option (List ℕ)
unfolding sha256_parts
hmac_with block key message = option_bind (copy_to (zero_bytes 64) 0 key) (λ padded.
    option_bind (sha256_parts (xor_pad 0x36 padded ∷ message ∷ []) (sha256_init block))
      (λ (inner, ctx).
        Option.map digest
          (sha256_parts (xor_pad 0x5c padded ∷ inner ∷ []) (sha256_init ctx.block))))

-- hmac_sha256(), where `uninit` is the block of its fresh context.
unfoldable pub hmac_sha256 : List ℕ → List ℕ → List ℕ → Option (List ℕ)
unfolding hmac_with
hmac_sha256 uninit key message =
    if ltb 64 (length key)
    then option_bind (sha256_parts (key ∷ []) (sha256_init uninit))
        (λ (short, ctx). hmac_with ctx.block short message)
    else hmac_with uninit key message

-- The rounds of derive_key() behind the first digest.
unfoldable pub rehash : ℕ → List ℕ → List ℕ → Option (List ℕ)
unfolding sha256_parts
rehash zero block key = some key
rehash (suc rounds) block key =
    option_bind (sha256_parts (key ∷ []) (sha256_init block))
      (λ (next, ctx). rehash rounds ctx.block next)

-- derive_key(), where `uninit` is the block of its fresh context.
unfoldable pub derive_key : List ℕ → List ℕ → List ℕ → ℕ → Option (List ℕ)
unfolding rehash
derive_key uninit password salt iterations =
    option_bind (sha256_parts (password ∷ salt ∷ []) (sha256_init uninit))
      (λ (key, ctx). rehash (iterations - 1) ctx.block key)
