-- ===== src/Client/Mac.antt =====
-- The client program in Languages: hmac_sha256() and derive_key() against the digest of a message in
-- one piece.
use asn.Base.{
  ℕ, zero, suc, ◌+◌, ◌-◌, ◌^◌, ◌≤◌, ◌<◌, ◌≡◌, refl, ap, sym, ◌∙◌, Option, some, List, [], ◌∷◌, ◌++◌,
  append-nil, length, length-append, drop, splice-append_drop, copy_to, if◌then◌else◌, ltb,
  Bool-cases, inl, inr, le→leb, arith,
}
use mathlib.Core.List.{map}
use Prim.Native.Nat.{bit_xor}
use asn.Client.Sha256.{Sha256Ctx, option_bind, sha256_init}
use asn.Client.Digest.{
  zero_bytes, sha256_parts, hmac_with, hmac_sha256, xor_pad, rehash, derive_key,
}
use asn.Client.Keys.{joined}
use asn.Client.Returns.{length-zero_bytes}
use asn.Client.Standard.{digest_of, sha256_parts-digest_of}

-- The digest of the digest, and so on, `n` times.
abbrev pub repeated : ℕ → List ℕ → Option (List ℕ)
repeated zero bytes = some bytes
repeated (suc n) bytes = option_bind (digest_of bytes) (repeated n)

rehash-repeated :
    (rounds : ℕ) (block key : List ℕ)
    → length block ≡ 64
    → length key ≡ 32
    → (bytes : List ℕ) × (rehash rounds block key ≡ some bytes)
      × (repeated rounds key ≡ some bytes)
      × (length bytes ≡ 32)
unfolding rehash
rehash-repeated zero block key whole size = (key, refl, refl, size)
rehash-repeated (suc rounds) block key whole size =
    let all : key ++ joined [] ≡ key = append-nil key in
    let (next, ctx, run, of, size', kept) =
      sha256_parts-digest_of key [] block whole (rw all (omega arith)) in
    let (bytes, e, f, l) = rehash-repeated rounds ctx.block next kept size' in
    (bytes, rw run e, rw (rw all at of) f, l)

-- derive_key() returns the digest of the password and the salt in a row, taken `iterations` times in
-- all, each time of the digest before, where digest_of() is the digest of a message in one piece: 32
-- bytes, with no access outside an array, whatever the block of the fresh context holds. There is an
-- iteration, the block of the context is 64 bytes, and password and salt are shorter than 2 ^ 32 bytes
-- together.
pub derive_key-repeated :
    (uninit password salt : List ℕ) (iterations : ℕ)
    → length uninit ≡ 64
    → length (password ++ salt) < 2 ^ 32
    → 1 ≤ iterations
    → (bytes : List ℕ) × (derive_key uninit password salt iterations ≡ some bytes)
      × (repeated iterations (password ++ salt) ≡ some bytes)
      × (length bytes ≡ 32)
unfolding derive_key
derive_key-repeated uninit password salt iterations whole short one =
    let all : password ++ joined (salt ∷ []) ≡ password ++ salt =
      ap (λ l. password ++ l) (append-nil salt) in
    let (key, ctx, run, of, size, kept) =
      sha256_parts-digest_of password (salt ∷ []) uninit whole (rw all short) in
    let (bytes, e, f, l) = rehash-repeated (iterations - 1) ctx.block key kept size in
    let count : suc (iterations - 1) ≡ iterations = omega arith in
    let repeats : repeated (suc (iterations - 1)) (password ++ salt) ≡ some bytes =
      rw (rw all at of) f in
    (bytes, rw run e, ap (λ n. repeated n (password ++ salt)) (sym count) ∙ repeats, l)

-- The key filled up with zeros to a block, with each byte masked.
abbrev pub masked : ℕ → List ℕ → List ℕ
masked x key = map (λ k. bit_xor k x) (key ++ zero_bytes (64 - length key))

-- A key of more than a block is hashed.
abbrev pub short_key : List ℕ → Option (List ℕ)
short_key key = if ltb 64 (length key) then digest_of key else some key

-- The HMAC of RFC 2104, of a digest with blocks of 64 bytes.
abbrev pub hmac_of : List ℕ → List ℕ → Option (List ℕ)
hmac_of key message = option_bind (short_key key) (λ k.
    option_bind (digest_of (masked 0x36 k ++ message))
      (λ inner. digest_of (masked 0x5c k ++ inner)))

xor_pad-map : (x : ℕ) (ks : List ℕ) → xor_pad x ks ≡ map (λ k. bit_xor k x) ks
xor_pad-map x [] = refl
xor_pad-map x (k ∷ ks) = ap (λ l. bit_xor k x ∷ l) (xor_pad-map x ks)

drop-zero_bytes : (n m : ℕ) → drop n (zero_bytes m) ≡ zero_bytes (m - n)
drop-zero_bytes zero m = ap zero_bytes {x = m} {y = m - 0} (omega arith)
drop-zero_bytes (suc n) zero = ap zero_bytes {x = 0} {y = 0 - suc n} (omega arith)
drop-zero_bytes (suc n) (suc m) =
    drop-zero_bytes n m ∙ ap zero_bytes {x = m - n} {y = suc m - suc n} (omega arith)

length-xor_pad : (x : ℕ) (ks : List ℕ) → length (xor_pad x ks) ≡ length ks
length-xor_pad x [] = refl
length-xor_pad x (k ∷ ks) = ap suc (length-xor_pad x ks)

-- memset() and memcpy() of the key, and the mask.
padded_key :
    (key : List ℕ)
    → length key ≤ 64
    → copy_to (zero_bytes 64) 0 key ≡ some (key ++ zero_bytes (64 - length key))
padded_key key few =
    let room : 0 + length key ≤ length (zero_bytes 64) = omega arith in
    rw (le→leb (0 + length key) (length (zero_bytes 64)) room) (
      ap some (
        splice-append_drop (zero_bytes 64) key (omega arith)
        ∙ ap (λ l. key ++ l) (drop-zero_bytes (length key) 64)))

length-masked : (x : ℕ) (key : List ℕ) → length key ≤ 64 → length (masked x key) ≡ 64
length-masked x key few = omega (
  arith,
  ap length (xor_pad-map x (key ++ zero_bytes (64 - length key))),
  length-xor_pad x (key ++ zero_bytes (64 - length key)),
  length-append key (zero_bytes (64 - length key)),
  length-zero_bytes (64 - length key),
)

-- A digest of two parts, by `sha256_parts-digest_of`.
two_parts :
    (p q uninit : List ℕ)
    → length uninit ≡ 64
    → length p + length q < 2 ^ 32
    → (bytes : List ℕ) × (ctx : Sha256Ctx) × (sha256_parts (p ∷ q ∷ []) (sha256_init uninit)
        ≡ some (bytes, ctx))
      × (digest_of (p ++ q) ≡ some bytes)
      × (length bytes ≡ 32)
      × (length ctx.block ≡ 64)
two_parts p q uninit whole short =
    let all : p ++ joined (q ∷ []) ≡ p ++ q = ap (λ l. p ++ l) (append-nil q) in
    let (bytes, ctx, run, of, size, kept) =
      sha256_parts-digest_of p (q ∷ []) uninit whole
        (rw all (omega (arith, length-append p q, short))) in
    (bytes, ctx, run, rw all at of, size, kept)

hmac_with-masked :
    (block key message : List ℕ)
    → length block ≡ 64
    → length key ≤ 64
    → 64 + length message < 2 ^ 32
    → (bytes : List ℕ) × (hmac_with block key message ≡ some bytes)
      × (option_bind
            (digest_of (masked 0x36 key ++ message))
            (λ inner. digest_of (masked 0x5c key ++ inner))
          ≡ some bytes)
      × (length bytes ≡ 32)
unfolding hmac_with
hmac_with-masked block key message whole few short =
    let filled = key ++ zero_bytes (64 - length key) in
    let (inner, ctx, run, of, size, kept) =
      two_parts (masked 0x36 key) message block whole
        (omega (arith, length-masked 0x36 key few, short)) in
    let (bytes, ctx', run', of', size', _) =
      two_parts (masked 0x5c key) inner ctx.block kept
        (omega (arith, length-masked 0x5c key few, size)) in
    (
      bytes,
      rw (padded_key key few, xor_pad-map 0x36 filled, run, xor_pad-map 0x5c filled, run') refl,
      rw of of',
      size',
    )

-- hmac_sha256() is the HMAC of RFC 2104 over the digest of a message in one piece, digest_of(): of the
-- key, or of its digest where it has more than 64 bytes, filled up with zeros to 64 bytes and masked
-- with 0x36 before the message and with 0x5c before the inner digest. It returns 32 bytes, with no
-- access outside an array, whatever the block of the fresh context holds. The block is 64 bytes, the
-- key is shorter than 2 ^ 32 bytes, and so are a block and the message together.
pub hmac_sha256-hmac_of :
    (uninit key message : List ℕ)
    → length uninit ≡ 64
    → length key < 2 ^ 32
    → 64 + length message < 2 ^ 32
    → (bytes : List ℕ) × (hmac_sha256 uninit key message ≡ some bytes)
      × (hmac_of key message ≡ some bytes)
      × (length bytes ≡ 32)
unfolding hmac_sha256
hmac_sha256-hmac_of uninit key message whole small short = elim (Bool-cases (ltb 64 (length key))) [
  | inl long ↦
      let all : key ++ joined [] ≡ key = append-nil key in
      let (hashed, ctx, run, of, size, kept) =
        sha256_parts-digest_of key [] uninit whole (rw all small) in
      let (bytes, e, f, l) =
        hmac_with-masked ctx.block hashed message kept (omega (arith, size)) short in
      (bytes, rw (long, run) e, rw (long, rw all at of) f, l)
  | inr fits ↦
      let (bytes, e, f, l) = hmac_with-masked uninit key message whole (ground arith) short in
      (bytes, rw fits e, rw fits f, l)
]
