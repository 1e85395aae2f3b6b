-- ===== src/Client/Returns.antt =====
-- The client program in Languages: the digest functions stay within their arrays.
use asn.Base.{
  ℕ, zero, suc, ◌+◌, ◌-◌, ◌*◌, ◌%◌, ◌^◌, ◌≤◌, ◌<◌, ◌≡◌, refl, ap, ◌∙◌, true, false, Option, some,
  List, [], ◌∷◌, length, modify-lt, store, ◌==◌, if◌then◌else◌, arith, ltb→lt, Bool, ltb, le→leb,
  length-splice, copy_to, splice,
}
use mathlib.Core.Option
use asn.Client.Sha256.{
  Words, Sha256Ctx, option_bind, load_words, extend_words, reverse_onto, run_rounds,
  round_constants, round, add_words, sha256_transform, flush, absorb, sha256_update,
}
use asn.Client.Digest.{zero_bytes, big_endian, pad, close, sha256_final, sha256_parts}

-- The result is there, and it is as `P` says.
abbrev pub Gives : {A : Type 0} → (A → Type 0) → Option A → Type 0
Gives {A} P o = (a : A) × (o ≡ some a) × P a

pub Gives-bind :
    {A B : Type 0} {P : A → Type 0} {Q : B → Type 0} (o : Option A) (f : A → Option B)
    → Gives P o
    → ((a : A) → P a → Gives Q (f a))
    → Gives Q (option_bind o f)
Gives-bind o f (a, e, p) k = let (b, e', q) = k a p in (b, rw e e', q)

pub Gives-map :
    {A B : Type 0} {P : A → Type 0} {Q : B → Type 0} (g : A → B) (o : Option A)
    → Gives P o
    → ((a : A) → P a → Q (g a))
    → Gives Q (Option.map g o)
Gives-map g o (a, e, p) k = (g a, rw e, k a p)

pub Gives-if :
    {A : Type 0} {P : A → Type 0} (b : Bool) (x y : Option A)
    → (b ≡ true → Gives P x)
    → (b ≡ false → Gives P y)
    → Gives P (if b then x else y)
Gives-if true x y hx hy = hx refl
Gives-if false x y hx hy = hy refl

load_words-Gives :
    (n : ℕ) (bytes m : List ℕ)
    → 4 * n ≤ length bytes
    → Gives (λ ws. length ws ≡ n + length m) (load_words n bytes m)
unfolding load_words
load_words-Gives zero bytes m h = (m, refl, omega arith)
load_words-Gives (suc n) [] m h = absurd (omega arith)
load_words-Gives (suc n) (b0 ∷ []) m h = absurd (omega arith)
load_words-Gives (suc n) (b0 ∷ b1 ∷ []) m h = absurd (omega arith)
load_words-Gives (suc n) (b0 ∷ b1 ∷ b2 ∷ []) m h = absurd (omega arith)
load_words-Gives (suc n) (b0 ∷ b1 ∷ b2 ∷ b3 ∷ bytes) m h =
    let (ws, e, l) = load_words-Gives n bytes (_ ∷ m) (omega arith) in (ws, e, omega (arith, l))

extend_words-Gives :
    (n : ℕ) (m : List ℕ) → 16 ≤ length m → Gives (λ ws. length ws ≡ n + length m) (extend_words n m)
unfolding extend_words
extend_words-Gives zero m h = (m, refl, omega arith)
extend_words-Gives (suc n)
      (m1 ∷ m2 ∷ m3 ∷ m4 ∷ m5 ∷ m6 ∷ m7 ∷ m8 ∷ m9 ∷ m10 ∷ m11 ∷ m12 ∷ m13 ∷ m14 ∷ m15 ∷ m16 ∷ m) h =
    let (ws, e, l) =
      extend_words-Gives n
        (_ ∷ m1 ∷ m2 ∷ m3 ∷ m4 ∷ m5 ∷ m6 ∷ m7 ∷ m8 ∷ m9 ∷ m10 ∷ m11 ∷ m12 ∷ m13 ∷ m14 ∷ m15 ∷ m16
          ∷ m)
        (omega arith) in
    (ws, e, omega (arith, l))
extend_words-Gives (suc n) _ h = absurd (omega arith)

length-reverse_onto : (xs ys : List ℕ) → length (reverse_onto xs ys) ≡ length xs + length ys
length-reverse_onto [] ys = omega arith
length-reverse_onto (x ∷ xs) ys = omega (arith, length-reverse_onto xs (x ∷ ys))

run_rounds-Gives :
    (ks ms : List ℕ) (w : Words)
    → length ks ≤ length ms
    → Gives (λ _. Unit {0}) (run_rounds ks ms w)
unfolding run_rounds
run_rounds-Gives [] ms w h = (w, refl, tt)
run_rounds-Gives (k ∷ ks) [] w h = absurd (omega arith)
run_rounds-Gives (k ∷ ks) (m ∷ ms) w h = run_rounds-Gives ks ms (round k m w) (omega arith)

pub sha256_transform-Gives :
    (block : List ℕ) (s : Words)
    → length block ≡ 64
    → Gives (λ _. Unit {0}) (sha256_transform block s)
unfolding sha256_transform
sha256_transform-Gives block s h =
    let (m, e, l) = load_words-Gives 16 block [] (omega arith) in
    let (m', e', l') = extend_words-Gives 48 m (omega (arith, l)) in
    let (w, e'', _) =
      run_rounds-Gives round_constants (reverse_onto m' []) s
        (omega (arith, l, l', length-reverse_onto m' [])) in
    (add_words s w, rw (e, e', e''), tt)

-- Between the calls: the block is the array of the context, and it is not full.
pub record IsOpen (ctx : Sha256Ctx) : Type 0 where
  pub whole : length ctx.block ≡ 64
  pub open_end : ctx.datalen < 64

flush-Gives :
    (ctx : Sha256Ctx) → length ctx.block ≡ 64 → ctx.datalen ≤ 64 → Gives IsOpen (flush ctx)
unfolding flush
flush-Gives ctx whole few =
    Gives-if (ctx.datalen == 64) _ _
      (λ e.
        Gives-map _ (sha256_transform ctx.block ctx.state)
          (sha256_transform-Gives ctx.block ctx.state whole) (λ s _. omega (arith, whole)))
      (λ e. (ctx, refl, ground arith))

absorb-Gives : (byte : ℕ) (ctx : Sha256Ctx) → IsOpen ctx → Gives IsOpen (absorb byte ctx)
unfolding absorb
absorb-Gives byte ctx h =
    Gives-bind (store ctx.block ctx.datalen byte) _
      (modify-lt ctx.block ctx.datalen (λ _. byte) (omega arith))
      (λ block l.
        flush-Gives (record ctx { block = block; datalen = (ctx.datalen + 1) % 2 ^ 32 })
          (l ∙ h.whole) (omega (arith, h.open_end)))

pub sha256_update-Gives :
    (xs : List ℕ) (ctx : Sha256Ctx) → IsOpen ctx → Gives IsOpen (sha256_update xs ctx)
unfolding sha256_update
sha256_update-Gives [] ctx h = (ctx, refl, h)
sha256_update-Gives (x ∷ xs) ctx h =
    Gives-bind (absorb x ctx) (sha256_update xs) (absorb-Gives x ctx h) (sha256_update-Gives xs)

pub length-zero_bytes : (n : ℕ) → length (zero_bytes n) ≡ n
length-zero_bytes zero = refl
length-zero_bytes (suc n) = ap suc (length-zero_bytes n)

pub copy_to-Gives :
    (xs : List ℕ) (i : ℕ) (ys : List ℕ)
    → i + length ys ≤ length xs
    → Gives (λ zs. length zs ≡ length xs) (copy_to xs i ys)
copy_to-Gives xs i ys h =
    (splice xs i ys, rw (le→leb (i + length ys) (length xs) h), length-splice xs i ys)

pad-Gives : (ctx : Sha256Ctx) → IsOpen ctx → Gives IsOpen (pad ctx)
unfolding pad
pad-Gives ctx h =
    let zeros = length-zero_bytes (55 - ctx.datalen) in
    let zeros' = length-zero_bytes (63 - ctx.datalen) in
    Gives-if (ltb ctx.datalen 56) _ _
      (λ few.
        Gives-map _ _
          (copy_to-Gives ctx.block ctx.datalen (0x80 ∷ zero_bytes (55 - ctx.datalen))
            (omega (arith, zeros, h.whole, ltb→lt ctx.datalen 56 few)))
          (λ block l. omega (arith, l, h.whole, h.open_end)))
      (λ many.
        Gives-bind _ _
          (copy_to-Gives ctx.block ctx.datalen (0x80 ∷ zero_bytes (63 - ctx.datalen))
            (omega (arith, zeros', h.whole, h.open_end)))
          (λ full l. Gives-bind _ _ (sha256_transform-Gives full ctx.state (l ∙ h.whole)) (λ s _.
            Gives-map _ _ (copy_to-Gives full 0 (zero_bytes 56) (omega (arith, l, h.whole)))
              (λ block l'. omega (arith, l, l', h.whole, h.open_end)))))

pub length-big_endian : (k n : ℕ) → length (big_endian k n) ≡ suc k
length-big_endian zero n = refl
length-big_endian (suc k) n = ap suc (length-big_endian k n)

-- A digest of 32 bytes, and the context whole.
abbrev pub IsDigest : List ℕ × Sha256Ctx → Type 0
IsDigest (h, ctx) = (length h ≡ 32) × (length ctx.block ≡ 64)

close-Gives : (ctx : Sha256Ctx) → IsOpen ctx → Gives IsDigest (close ctx)
unfolding close
close-Gives ctx h =
    Gives-bind _ _
      (copy_to-Gives ctx.block 56 (big_endian 7 ((ctx.bitlen + ctx.datalen * 8 % 2 ^ 32) % 2 ^ 64))
        (omega (arith, h.whole)))
      (λ block l.
        Gives-map _ _ (sha256_transform-Gives block ctx.state (l ∙ h.whole))
          (λ s _. (refl, l ∙ h.whole)))

pub sha256_parts-Gives :
    (ps : List (List ℕ)) (ctx : Sha256Ctx) → IsOpen ctx → Gives IsDigest (sha256_parts ps ctx)
unfolding sha256_parts sha256_final
sha256_parts-Gives [] ctx h = Gives-bind (pad ctx) close (pad-Gives ctx h) close-Gives
sha256_parts-Gives (p ∷ ps) ctx h =
    Gives-bind (sha256_update p ctx) (sha256_parts ps) (sha256_update-Gives p ctx h)
      (sha256_parts-Gives ps)
