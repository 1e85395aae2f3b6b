-- ===== src/Client/Blocks.antt =====
-- The client program in Languages: sha256_update() compresses the message block by block.
use asn.Base.{
  ℕ, ◌+◌, ◌-◌, ◌*◌, ◌%◌, ◌^◌, ◌<◌, ◌≡◌, refl, ap, sym, ◌∙◌, false, Option, some, List, [], ◌∷◌,
  ◌++◌, append_assoc, append-nil, length, length-append, All, take, take-all, splice, take-splice,
  length-splice, store, store-splice, ltb, ◌==◌, ne→==, if◌then◌else◌, arith, Bool-cases, inl, inr,
}
use asn.Client.Sha256.{
  Words, Sha256Ctx, option_bind, sha256_transform, flush, absorb, sha256_update,
}
use asn.Client.Digest.{zero_bytes, big_endian}
use asn.Client.Returns.{sha256_transform-Gives}
use asn.Client.Keys.{joined}

-- The compression of whole blocks, one after the other.
unfoldable pub compress : List (List ℕ) → Words → Option Words
compress [] s = some s
compress (b ∷ bs) s = option_bind (sha256_transform b s) (compress bs)

abbrev pub IsBlock : List ℕ → Type 0
IsBlock b = length b ≡ 64

-- The zeros behind the byte 0x80, where `n` bytes stand before it.
abbrev pub zeros_behind : ℕ → ℕ
zeros_behind n = if ltb (n % 64) 56 then 55 - n % 64 else 119 - n % 64

-- The padded message: 0x80, zeros up to 8 bytes before the end of a block, and the length in bits.
abbrev pub padded : List ℕ → List ℕ
padded message =
    message
    ++ (0x80 ∷ (zero_bytes (zeros_behind (length message)) ++ big_endian 7 (8 * length message)))

-- The context holds the bytes `r` of a block that is not full.
pub record HasPart (ctx : Sha256Ctx) (r : List ℕ) : Type 0 where
  pub whole : length ctx.block ≡ 64
  pub count : ctx.datalen ≡ length r
  pub open_end : length r < 64
  pub part : take (length r) ctx.block ≡ r

-- `xs` behind the bytes `r` cut into blocks, which are compressed, and a rest.
pub record Compressed (ctx : Sha256Ctx) (all : List ℕ) (o : Option Sha256Ctx) : Type 0 where
  pub blocks : List (List ℕ)
  pub rest : List ℕ
  pub context : Sha256Ctx
  pub given : o ≡ some context
  pub cut : joined blocks ++ rest ≡ all
  pub sizes : All IsBlock blocks
  pub state : compress blocks ctx.state ≡ some context.state
  pub bits : context.bitlen ≡ ctx.bitlen + 512 * length blocks
  pub held : HasPart context rest

pub length-joined : (bs : List (List ℕ)) → All IsBlock bs → length (joined bs) ≡ 64 * length bs
length-joined [] h = refl
length-joined (b ∷ bs) (h, hs) = omega (arith, length-append b (joined bs), length-joined bs hs, h)

-- A byte behind the part of the block.
stored_byte :
    (x : ℕ) (ctx : Sha256Ctx) (r : List ℕ)
    → HasPart ctx r
    → (block : List ℕ) × (store ctx.block ctx.datalen x ≡ some block)
      × (length block ≡ 64)
      × (take (length (r ++ (x ∷ []))) block ≡ r ++ (x ∷ []))
stored_byte x ctx r h =
    let below : ctx.datalen < length ctx.block = omega (arith, h.whole, h.count, h.open_end) in
    let len = length-append r (x ∷ []) in
    let e : ctx.datalen ≡ length r = h.count in
    (
      splice ctx.block ctx.datalen (x ∷ []),
      store-splice ctx.block ctx.datalen x below,
      length-splice ctx.block ctx.datalen (x ∷ []) ∙ h.whole,
      take-splice ctx.block ctx.datalen (x ∷ []) (length (r ++ (x ∷ []))) (omega (arith, len, e))
            (omega (arith, len, h.whole, h.open_end))
          ∙ ap (λ n. take n ctx.block ++ (x ∷ [])) e
          ∙ ap (λ l. l ++ (x ∷ [])) h.part,
    )

-- The byte leaves room in the block.
absorb-open :
    (x : ℕ) (ctx : Sha256Ctx) (r : List ℕ)
    → HasPart ctx r
    → length r < 63
    → (next : Sha256Ctx) × (absorb x ctx ≡ some next)
      × (next.state ≡ ctx.state)
      × (next.bitlen ≡ ctx.bitlen)
      × HasPart next (r ++ (x ∷ []))
unfolding absorb flush
absorb-open x ctx r h room =
    let (block, e, whole, part) = stored_byte x ctx r h in
    let len = length-append r (x ∷ []) in
    let count : (ctx.datalen + 1) % 2 ^ 32 ≡ length r + 1 = omega (arith, h.count) in
    let open_end : (length r + 1 == 64) ≡ false = ne→== (length r + 1) 64 (omega arith) in
    (
      record ctx { block = block; datalen = length r + 1 },
      rw (e, count, open_end),
      refl,
      refl,
      record {
        whole = whole;
        count = omega (arith, len);
        open_end = omega (arith, len);
        part = part;
      },
    )

-- The byte fills the block, which is compressed.
absorb-full :
    (x : ℕ) (ctx : Sha256Ctx) (r : List ℕ)
    → HasPart ctx r
    → length r ≡ 63
    → ctx.bitlen + 512 < 2 ^ 64
    → (next : Sha256Ctx) × (absorb x ctx ≡ some next)
      × (sha256_transform (r ++ (x ∷ [])) ctx.state ≡ some next.state)
      × (next.bitlen ≡ ctx.bitlen + 512)
      × HasPart next []
unfolding absorb flush
absorb-full x ctx r h full small =
    let (block, e, whole, part) = stored_byte x ctx r h in
    let len = length-append r (x ∷ []) in
    let count : (ctx.datalen + 1) % 2 ^ 32 ≡ 64 = omega (arith, h.count) in
    let same : block ≡ r ++ (x ∷ []) =
      sym (take-all (length (r ++ (x ∷ []))) block (omega (arith, len, whole))) ∙ part in
    let bits : (ctx.bitlen + 512) % 2 ^ 64 ≡ ctx.bitlen + 512 = omega arith in
    let (s, ran, _) = sha256_transform-Gives block ctx.state whole in
    (
      record ctx { block = block; datalen = 0; bitlen = ctx.bitlen + 512; state = s },
      rw (e, count, ran, bits),
      ap (λ b. sha256_transform b ctx.state) (sym same) ∙ ran,
      refl,
      record { whole = whole; count = refl; open_end = omega arith; part = refl },
    )

pub sha256_update-Compressed :
    (xs : List ℕ) (ctx : Sha256Ctx) (r : List ℕ)
    → HasPart ctx r
    → ctx.bitlen + 8 * length (r ++ xs) < 2 ^ 64
    → Compressed ctx (r ++ xs) (sha256_update xs ctx)
unfolding sha256_update compress
sha256_update-Compressed [] ctx r h small = record {
  blocks = [];
  rest = r;
  context = ctx;
  given = refl;
  cut = sym (append-nil r);
  sizes = tt;
  state = refl;
  bits = omega arith;
  held = h;
}
sha256_update-Compressed (x ∷ xs) ctx r h small =
    let len = length-append r (x ∷ xs) in
    let step = append_assoc r (x ∷ []) xs in
    elim (Bool-cases (ltb (length r) 63)) [
      | inl room ↦
          let (next, e, state, bitlen, h') = absorb-open x ctx r h (ground arith) in
          let c =
            sha256_update-Compressed xs next (r ++ (x ∷ [])) h'
              (omega (arith, ap length step, bitlen)) in
          record {
            blocks = c.blocks;
            rest = c.rest;
            context = c.context;
            given = rw e c.given;
            cut = c.cut ∙ step;
            sizes = c.sizes;
            state = rw state at c.state;
            bits = omega (arith, c.bits, bitlen);
            held = c.held;
          }
      | inr full ↦
          let last : length r ≡ 63 = ground (arith, h.open_end) in
          let (next, e, state, bitlen, h') = absorb-full x ctx r h last (omega (arith, len)) in
          let c = sha256_update-Compressed xs next [] h' (omega (arith, len, bitlen)) in
          record {
            blocks = (r ++ (x ∷ [])) ∷ c.blocks;
            rest = c.rest;
            context = c.context;
            given = rw e c.given;
            cut =
                append_assoc (r ++ (x ∷ [])) (joined c.blocks) c.rest
                ∙ ap (λ l. (r ++ (x ∷ [])) ++ l) c.cut
                ∙ step;
            sizes = (omega (arith, length-append r (x ∷ [])), c.sizes);
            state = rw state c.state;
            bits = omega (arith, c.bits, bitlen);
            held = c.held;
          }
    ]
