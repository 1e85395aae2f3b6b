-- ===== src/Client/Standard.antt =====
-- The client program in Languages: its digest over the blocks of the padded message.
use asn.Base.{
  ℕ, zero, suc, take, take-append, drop, drop-append, ◌/◌, ◌+◌, ◌-◌, ◌*◌, ◌%◌, ◌^◌, ◌<◌, ◌≡◌, refl,
  ap, sym, ◌∙◌, Option, none, some, List, [], ◌∷◌, ◌++◌, append_assoc, length, length-append, All,
  All-append, ltb, if◌then◌else◌, arith,
}
use mathlib.Core.Option
use asn.Client.Sha256.{Words, Sha256Ctx, option_bind, sha256_transform, sha256_init}
use asn.Client.Digest.{zero_bytes, digest_bytes, digest, sha256_parts}
use asn.Client.Keys.{joined, sha256_parts-digest}
use asn.Client.Returns.{sha256_parts-Gives}
use asn.Client.Blocks.{
  compress, IsBlock, Compressed, length-joined, sha256_update-Compressed, padded,
}
use asn.Client.Padding.{closing, Closes, sha256_final-Closes}

compress-append :
    (bs cs : List (List ℕ)) (s t : Words)
    → compress bs s ≡ some t
    → compress (bs ++ cs) s ≡ compress cs t
unfolding compress
compress-append [] cs s t h = let same : s ≡ t = cc in rw same
compress-append (b ∷ bs) cs s t h = behind (sha256_transform b s) (λ u. compress-append bs cs u t) h
  where
    behind :
        (o : Option Words)
        → ((u : Words) → compress bs u ≡ some t → compress (bs ++ cs) u ≡ compress cs t)
        → option_bind o (compress bs) ≡ some t
        → option_bind o (compress (bs ++ cs)) ≡ compress cs t
    behind none next k = cc
    behind (some u) next k = next u k

joined-append : (bs cs : List (List ℕ)) → joined (bs ++ cs) ≡ joined bs ++ joined cs
joined-append [] cs = refl
joined-append (b ∷ bs) cs =
    ap (λ l. b ++ l) (joined-append bs cs) ∙ sym (append_assoc b (joined bs) (joined cs))

-- The blocks of the update and of the end are the padded message.
joined-padded :
    (message : List ℕ) (start : Sha256Ctx) {o : Option Sha256Ctx} (c : Compressed start message o)
    (f : Closes c.context c.rest
      (if ltb (length c.rest) 56 then 55 - length c.rest else 119 - length c.rest))
    → start.bitlen ≡ 0
    → length message < 2 ^ 32
    → joined (c.blocks ++ f.blocks) ≡ padded message
joined-padded message start c f none_before short =
    let sum : length message ≡ 64 * length c.blocks + length c.rest = omega (
      arith,
      ap length c.cut,
      length-append (joined c.blocks) c.rest,
      length-joined c.blocks c.sizes,
    ) in
    let left : length message % 64 ≡ length c.rest = omega (arith, sum, c.held.open_end) in
    let bits : (c.context.bitlen + c.context.datalen * 8 % 2 ^ 32) % 2 ^ 64 ≡ 8 * length message =
      omega (arith, c.bits, c.held.count, c.held.open_end, sum) in
    let zeros : ℕ = if ltb (length c.rest) 56 then 55 - length c.rest else 119 - length c.rest in
    let tail : List ℕ = 0x80 ∷ (zero_bytes zeros ++ closing c.context) in
    let same : message ++ tail ≡ padded message = rw (left, bits) refl in
    joined-append c.blocks f.blocks
    ∙ ap (λ l. joined c.blocks ++ l) f.cut
    ∙ sym (append_assoc (joined c.blocks) c.rest tail)
    ∙ ap (λ l. l ++ tail) c.cut
    ∙ same

-- `n` blocks of 64 bytes from the front.
abbrev pub chunks : ℕ → List ℕ → List (List ℕ)
chunks zero xs = []
chunks (suc n) xs = take 64 xs ∷ chunks n (drop 64 xs)

chunks-joined : (bs : List (List ℕ)) → All IsBlock bs → chunks (length bs) (joined bs) ≡ bs
chunks-joined [] h = refl
chunks-joined (b ∷ bs) (h, hs) =
    let front : take 64 (b ++ joined bs) ≡ b =
      ap (λ k. take k (b ++ joined bs)) (sym h) ∙ take-append b (joined bs) in
    let back : drop 64 (b ++ joined bs) ≡ joined bs =
      ap (λ k. drop k (b ++ joined bs)) (sym h) ∙ drop-append b (joined bs) in
    rw (front, back, chunks-joined bs hs) refl

-- The words of the initial state.
abbrev pub initial_state : Words
initial_state = (sha256_init []).state

-- The digest of a message in one piece: the padded message is cut into blocks of 64 bytes, which are
-- compressed in order from the initial state on.
abbrev pub digest_of : List ℕ → Option (List ℕ)
digest_of message =
    Option.map digest_bytes
      (compress (chunks (length (padded message) / 64) (padded message)) initial_state)

digest_of-blocks :
    (message : List ℕ) (bs : List (List ℕ))
    → joined bs ≡ padded message
    → All IsBlock bs
    → digest_of message ≡ Option.map digest_bytes (compress bs initial_state)
digest_of-blocks message bs cut sizes =
    let count : length (padded message) / 64 ≡ length bs =
      omega (arith, ap length cut, length-joined bs sizes) in
    let same : chunks (length (padded message) / 64) (padded message) ≡ bs =
      ap (λ k. chunks k (padded message)) count
      ∙ ap (chunks (length bs)) (sym cut)
      ∙ chunks-joined bs sizes in
    ap (λ l. Option.map digest_bytes (compress l initial_state)) same

sha256_parts-one :
    (message uninit : List ℕ)
    → length uninit ≡ 64
    → length message < 2 ^ 32
    → Option.map digest (sha256_parts (message ∷ []) (sha256_init uninit)) ≡ digest_of message
unfolding sha256_parts
sha256_parts-one message uninit whole short =
    let start = sha256_init uninit in
    let c =
      sha256_update-Compressed message start []
        (record { whole = whole; count = refl; open_end = omega arith; part = refl })
        (omega arith) in
    let f = sha256_final-Closes c.context c.rest c.held in
    let run : Option.map digest (sha256_parts (message ∷ []) start)
        ≡ Option.map digest_bytes (compress (c.blocks ++ f.blocks) initial_state) =
      rw (c.given, compress-append c.blocks f.blocks start.state c.context.state c.state)
        f.result in
    run
    ∙ sym (
        digest_of-blocks message (c.blocks ++ f.blocks) (joined-padded message start c f refl short)
          (All-append IsBlock c.blocks f.blocks c.sizes f.sizes))

digest_given :
    (o : Option (List ℕ × Sha256Ctx)) (bytes : List ℕ) (ctx : Sha256Ctx) {r : Option (List ℕ)}
    → o ≡ some (bytes, ctx)
    → Option.map digest o ≡ r
    → r ≡ some bytes
digest_given o bytes ctx e f = sym f ∙ ap (Option.map digest) e

pub sha256_parts-digest_of :
    (p : List ℕ) (ps : List (List ℕ)) (uninit : List ℕ)
    → length uninit ≡ 64
    → length (p ++ joined ps) < 2 ^ 32
    → (bytes : List ℕ) × (ctx : Sha256Ctx) × (sha256_parts (p ∷ ps) (sha256_init uninit)
        ≡ some (bytes, ctx))
      × (digest_of (p ++ joined ps) ≡ some bytes)
      × (length bytes ≡ 32)
      × (length ctx.block ≡ 64)
sha256_parts-digest_of p ps uninit whole short =
    let (bytes, ctx, run, one, size) = sha256_parts-digest p ps uninit whole short in
    let ((bytes', ctx'), again, (_, kept)) =
      sha256_parts-Gives (p ∷ ps) (sha256_init uninit) (omega (arith, whole)) in
    let same : ctx' ≡ ctx = ground (arith, run, again) in
    (
      bytes,
      ctx,
      run,
      digest_given _ bytes ctx one (sha256_parts-one (p ++ joined ps) uninit whole short),
      size,
      rw same at kept,
    )
