-- ===== src/Client/Padding.antt =====
-- The client program in Languages: sha256_final(), as one or two blocks that are compressed.
use asn.Base.{
  ℕ, zero, suc, ◌+◌, ◌-◌, ◌*◌, ◌%◌, ◌^◌, ◌≤◌, ◌<◌, ◌≡◌, refl, ap, sym, ◌∙◌, Option, none, some,
  List, [], ◌∷◌, ◌++◌, append_assoc, append-nil, length, length-append, All, take, take-all, splice,
  take-splice, length-splice, copy_to, ltb, le→leb, lt→ltb, le→ltb, if◌then◌else◌, arith,
  Bool-cases, inl, inr,
}
use mathlib.Core.Option
use asn.Client.Sha256.{Words, Sha256Ctx, option_bind, sha256_transform}
use asn.Client.Digest.{zero_bytes, big_endian, digest_bytes, digest, pad, close, sha256_final}
use asn.Client.Returns.{sha256_transform-Gives, length-zero_bytes, length-big_endian}
use asn.Client.Keys.{joined}
use asn.Client.Blocks.{compress, IsBlock, HasPart}

bind_some : (o : Option Words) → option_bind o (λ s. some s) ≡ o
bind_some none = refl
bind_some (some s) = refl

compress-one : (b : List ℕ) (s : Words) → compress (b ∷ []) s ≡ sha256_transform b s
unfolding compress
compress-one b s = bind_some (sha256_transform b s)

-- The length in bits, as sha256_final() writes it.
abbrev pub closing : Sha256Ctx → List ℕ
closing ctx = big_endian 7 ((ctx.bitlen + ctx.datalen * 8 % 2 ^ 32) % 2 ^ 64)

length-closing : (ctx : Sha256Ctx) → length (closing ctx) ≡ 8
length-closing ctx = length-big_endian 7 ((ctx.bitlen + ctx.datalen * 8 % 2 ^ 32) % 2 ^ 64)

-- A run of cells up to the end of the block.
filled :
    (block front back : List ℕ) (i : ℕ)
    → length block ≡ 64
    → i ≡ length front
    → length front + length back ≡ 64
    → take i block ≡ front
    → copy_to block i back ≡ some (front ++ back)
filled block front back i whole at sum kept =
    let all = length-splice block i back in
    rw (le→leb (i + length back) (length block) (omega arith)) (
      ap some (
        sym (take-all 64 (splice block i back) (omega (arith, all)))
        ∙ take-splice block i back 64 (omega arith) (omega arith)
        ∙ ap (λ l. l ++ back) kept))

map-digest :
    (o : Option Words) (left : Words → Sha256Ctx)
    → Option.map digest (Option.map (λ s. (digest_bytes s, left s)) o) ≡ Option.map digest_bytes o
map-digest none left = refl
map-digest (some s) left = refl

close-filled :
    (ctx : Sha256Ctx) (front : List ℕ)
    → length ctx.block ≡ 64
    → length front ≡ 56
    → take 56 ctx.block ≡ front
    → Option.map digest (close ctx)
      ≡ Option.map digest_bytes (sha256_transform (front ++ closing ctx) ctx.state)
unfolding close
close-filled ctx front whole most kept =
    rw
      (filled ctx.block front (closing ctx) 56 whole (sym most)
        (omega (arith, most, length-closing ctx)) kept)
      (map-digest (sha256_transform (front ++ closing ctx) ctx.state) _)

-- The blocks that sha256_final() compresses: the part that the context holds and the padding.
pub record Closes (ctx : Sha256Ctx) (r : List ℕ) (zeros : ℕ) : Type 0 where
  pub blocks : List (List ℕ)
  pub cut : joined blocks ≡ r ++ (0x80 ∷ (zero_bytes zeros ++ closing ctx))
  pub sizes : All IsBlock blocks
  pub result :
      Option.map digest (sha256_final ctx) ≡ Option.map digest_bytes (compress blocks ctx.state)

-- The padding fits the block.
sha256_final-short :
    (ctx : Sha256Ctx) (r : List ℕ) → HasPart ctx r → length r < 56 → Closes ctx r (55 - length r)
unfolding sha256_final pad
sha256_final-short ctx r h few =
    let mark : List ℕ = 0x80 ∷ zero_bytes (55 - length r) in
    let block : List ℕ = splice ctx.block ctx.datalen mark in
    let zeros = length-zero_bytes (55 - length r) in
    let front = length-append r mark in
    let e : ctx.datalen ≡ length r = h.count in
    let same : 55 - ctx.datalen ≡ 55 - length r = omega (arith, e) in
    let fits : ctx.datalen + length mark ≤ length ctx.block = omega (arith, zeros, h.whole) in
    let all = length-splice ctx.block ctx.datalen mark in
    let kept : take 56 block ≡ r ++ mark =
      take-splice ctx.block ctx.datalen mark 56 (omega (arith, zeros, e)) (omega (arith, h.whole))
      ∙ ap (λ n. take n ctx.block ++ mark) e
      ∙ ap (λ l. l ++ mark) h.part in
    let last = append_assoc r mark (closing ctx) in
    record {
      blocks = ((r ++ mark) ++ closing ctx) ∷ [];
      cut = append-nil ((r ++ mark) ++ closing ctx) ∙ last;
      sizes = (
        omega (arith, length-append (r ++ mark) (closing ctx), front, zeros, length-closing ctx),
        tt,
      );
      result =
          rw
            (
              lt→ltb ctx.datalen 56 (omega (arith, e)),
              same,
              le→leb _ _ fits,
              compress-one ((r ++ mark) ++ closing ctx) ctx.state,
            )
            (close-filled (record ctx { block = block }) (r ++ mark) (omega (arith, all, h.whole))
              (omega (arith, front, zeros)) kept);
    }

zero_bytes-add : (n m : ℕ) → zero_bytes n ++ zero_bytes m ≡ zero_bytes (n + m)
zero_bytes-add zero m = ap zero_bytes {x = m} {y = zero + m} (omega arith)
zero_bytes-add (suc n) m =
    ap (λ l. 0 ∷ l) (zero_bytes-add n m)
    ∙ ap zero_bytes {x = suc (n + m)} {y = suc n + m} (omega arith)

joined_long :
    (r : List ℕ) (d : ℕ) (end_bytes : List ℕ)
    → 56 ≤ d
    → d < 64
    → joined ((r ++ (0x80 ∷ zero_bytes (63 - d))) ∷ (zero_bytes 56 ++ end_bytes) ∷ [])
      ≡ r ++ (0x80 ∷ (zero_bytes (119 - d) ++ end_bytes))
joined_long r d end_bytes many few =
    let sum : 63 - d + 56 ≡ 119 - d = omega arith in
    append_assoc r (0x80 ∷ zero_bytes (63 - d)) ((zero_bytes 56 ++ end_bytes) ++ [])
    ∙ ap (λ l. r ++ (0x80 ∷ l))
        (ap (λ l. zero_bytes (63 - d) ++ l) (append-nil (zero_bytes 56 ++ end_bytes))
          ∙ sym (append_assoc (zero_bytes (63 - d)) (zero_bytes 56) end_bytes)
          ∙ ap (λ l. l ++ end_bytes) (zero_bytes-add (63 - d) 56 ∙ ap zero_bytes sum))

compress-two :
    (b c : List ℕ) (s t : Words)
    → sha256_transform b s ≡ some t
    → compress (b ∷ c ∷ []) s ≡ sha256_transform c t
unfolding compress
compress-two b c s t ran = rw ran (bind_some (sha256_transform c t))

-- The padding takes another block: the full one, and zeros with the length.
module _ (ctx : Sha256Ctx) (r : List ℕ) (h : HasPart ctx r) (many : 56 ≤ length r) where
  full : List ℕ
  full = r ++ (0x80 ∷ zero_bytes (63 - length r))

  length-full : length full ≡ 64
  unfolding full
  length-full = omega (
    arith,
    length-append r (0x80 ∷ zero_bytes (63 - length r)),
    length-zero_bytes (63 - length r),
    h.open_end,
  )

  sha256_final-two :
      (s : Words)
      → sha256_transform full ctx.state ≡ some s
      → Option.map digest (sha256_final ctx)
        ≡ Option.map digest_bytes (compress (full ∷ (zero_bytes 56 ++ closing ctx) ∷ []) ctx.state)
  unfolding sha256_final pad full
  sha256_final-two s ran =
      let zeros = length-zero_bytes (63 - length r) in
      let e : ctx.datalen ≡ length r = h.count in
      let same : 63 - ctx.datalen ≡ 63 - length r = omega (arith, e) in
      let first : copy_to ctx.block ctx.datalen (0x80 ∷ zero_bytes (63 - length r)) ≡ some full =
        filled ctx.block r (0x80 ∷ zero_bytes (63 - length r)) ctx.datalen h.whole e
          (omega (arith, zeros, h.open_end)) (ap (λ n. take n ctx.block) e ∙ h.part) in
      let block : List ℕ = splice full 0 (zero_bytes 56) in
      let all = length-splice full 0 (zero_bytes 56) in
      rw
        (
          le→ltb ctx.datalen 56 (omega (arith, e)),
          same,
          first,
          ran,
          le→leb 56 (length full) (omega (arith, length-full)),
          compress-two full (zero_bytes 56 ++ closing ctx) ctx.state s ran,
        )
        (close-filled (record ctx { block = block; state = s }) (zero_bytes 56)
          (omega (arith, all, length-full)) refl
          (take-splice full 0 (zero_bytes 56) 56 refl (omega (arith, length-full))))

  sha256_final-long : Closes ctx r (119 - length r)
  unfolding full
  sha256_final-long =
      let (s, ran, _) = sha256_transform-Gives full ctx.state length-full in
      record {
        blocks = full ∷ (zero_bytes 56 ++ closing ctx) ∷ [];
        cut = joined_long r (length r) (closing ctx) many h.open_end;
        sizes = (
          length-full,
          (omega (arith, length-append (zero_bytes 56) (closing ctx), length-closing ctx), tt),
        );
        result = sha256_final-two s ran;
      }

pub sha256_final-Closes :
    (ctx : Sha256Ctx) (r : List ℕ)
    → HasPart ctx r
    → Closes ctx r (if ltb (length r) 56 then 55 - length r else 119 - length r)
sha256_final-Closes ctx r h = elim (Bool-cases (ltb (length r) 56)) [
  | inl few ↦ rw few (sha256_final-short ctx r h (ground arith))
  | inr many ↦ rw many (sha256_final-long ctx r h (ground arith))
]
