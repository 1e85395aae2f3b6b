-- ===== src/Client/Sha256.antt =====
-- The client program in Languages: the SHA-256 of the client. A word is a number below 2 ^ 32, and sums wrap.
use asn.Base.{
  ℕ, zero, suc, ◌+◌, ◌-◌, ◌*◌, ◌/◌, ◌%◌, ◌^◌, Option, none, some, List, [], ◌∷◌, ◌==◌,
  if◌then◌else◌, store, bit_and, bit_or,
}
use mathlib.Core.Option
use Prim.Native.Nat.{bit_xor}

abbrev pub round_constants : List ℕ
round_constants =
    0x428a2f98 ∷ 0x71374491 ∷ 0xb5c0fbcf ∷ 0xe9b5dba5 ∷ 0x3956c25b ∷ 0x59f111f1 ∷ 0x923f82a4
    ∷ 0xab1c5ed5 ∷ 0xd807aa98 ∷ 0x12835b01 ∷ 0x243185be ∷ 0x550c7dc3 ∷ 0x72be5d74 ∷ 0x80deb1fe
    ∷ 0x9bdc06a7 ∷ 0xc19bf174 ∷ 0xe49b69c1 ∷ 0xefbe4786 ∷ 0x0fc19dc6 ∷ 0x240ca1cc ∷ 0x2de92c6f
    ∷ 0x4a7484aa ∷ 0x5cb0a9dc ∷ 0x76f988da ∷ 0x983e5152 ∷ 0xa831c66d ∷ 0xb00327c8 ∷ 0xbf597fc7
    ∷ 0xc6e00bf3 ∷ 0xd5a79147 ∷ 0x06ca6351 ∷ 0x14292967 ∷ 0x27b70a85 ∷ 0x2e1b2138 ∷ 0x4d2c6dfc
    ∷ 0x53380d13 ∷ 0x650a7354 ∷ 0x766a0abb ∷ 0x81c2c92e ∷ 0x92722c85 ∷ 0xa2bfe8a1 ∷ 0xa81a664b
    ∷ 0xc24b8b70 ∷ 0xc76c51a3 ∷ 0xd192e819 ∷ 0xd6990624 ∷ 0xf40e3585 ∷ 0x106aa070 ∷ 0x19a4c116
    ∷ 0x1e376c08 ∷ 0x2748774c ∷ 0x34b0bcb5 ∷ 0x391c0cb3 ∷ 0x4ed8aa4a ∷ 0x5b9cca4f ∷ 0x682e6ff3
    ∷ 0x748f82ee ∷ 0x78a5636f ∷ 0x84c87814 ∷ 0x8cc70208 ∷ 0x90befffa ∷ 0xa4506ceb ∷ 0xbef9a3f7
    ∷ 0xc67178f2 ∷ []

-- ROTRIGHT
abbrev pub rot_right : ℕ → ℕ → ℕ
rot_right a b = bit_or (a / 2 ^ b) (a * 2 ^ (32 - b) % 2 ^ 32)

-- CH, with `~x` on 32 bits
abbrev pub choose : ℕ → ℕ → ℕ → ℕ
choose x y z = bit_xor (bit_and x y) (bit_and (2 ^ 32 - 1 - x) z)

-- MAJ
abbrev pub majority : ℕ → ℕ → ℕ → ℕ
majority x y z = bit_xor (bit_xor (bit_and x y) (bit_and x z)) (bit_and y z)

-- EP0, EP1, SIG0, SIG1
abbrev pub ep0 : ℕ → ℕ
ep0 x = bit_xor (bit_xor (rot_right x 2) (rot_right x 13)) (rot_right x 22)

abbrev pub ep1 : ℕ → ℕ
ep1 x = bit_xor (bit_xor (rot_right x 6) (rot_right x 11)) (rot_right x 25)

abbrev pub sig0 : ℕ → ℕ
sig0 x = bit_xor (bit_xor (rot_right x 7) (rot_right x 18)) (x / 2 ^ 3)

abbrev pub sig1 : ℕ → ℕ
sig1 x = bit_xor (bit_xor (rot_right x 17) (rot_right x 19)) (x / 2 ^ 10)

-- The eight words of `state`, and the variables `a` to `h` of a round.
pub record Words : Type 0 where
  pub a : ℕ
  pub b : ℕ
  pub c : ℕ
  pub d : ℕ
  pub e : ℕ
  pub f : ℕ
  pub g : ℕ
  pub h : ℕ

-- SHA256_CTX; `block` is its `data`, 64 bytes.
pub record Sha256Ctx : Type 0 where
  pub block : List ℕ
  pub datalen : ℕ
  pub bitlen : ℕ
  pub state : Words

abbrev pub option_bind : {A B : Type 0} → Option A → (A → Option B) → Option B
option_bind none f = none
option_bind (some a) f = f a

-- The first loop of sha256_transform(): words of four bytes, the last one first in `m`.
unfoldable pub load_words : ℕ → List ℕ → List ℕ → Option (List ℕ)
load_words zero bytes m = some m
load_words (suc left) (b0 ∷ b1 ∷ b2 ∷ b3 ∷ bytes) m =
    load_words left bytes
      (bit_or (bit_or (b0 * 2 ^ 24 % 2 ^ 32) (b1 * 2 ^ 16)) (bit_or (b2 * 2 ^ 8) b3) ∷ m)
load_words (suc left) _ m = none

-- The second loop: `m[i - 2]` is the second word of `m`, and so on.
unfoldable pub extend_words : ℕ → List ℕ → Option (List ℕ)
extend_words zero m = some m
extend_words (suc left)
      (m1 ∷ m2 ∷ m3 ∷ m4 ∷ m5 ∷ m6 ∷ m7 ∷ m8 ∷ m9 ∷ m10 ∷ m11 ∷ m12 ∷ m13 ∷ m14 ∷ m15 ∷ m16 ∷ m) =
    extend_words left (
      (sig1 m2 + m7 + sig0 m15 + m16) % 2 ^ 32
      ∷ m1
      ∷ m2
      ∷ m3
      ∷ m4
      ∷ m5
      ∷ m6
      ∷ m7
      ∷ m8
      ∷ m9
      ∷ m10
      ∷ m11
      ∷ m12
      ∷ m13
      ∷ m14
      ∷ m15
      ∷ m16
      ∷ m)
extend_words (suc left) _ = none

abbrev pub reverse_onto : List ℕ → List ℕ → List ℕ
reverse_onto [] ys = ys
reverse_onto (x ∷ xs) ys = reverse_onto xs (x ∷ ys)

-- The body of the third loop.
unfoldable pub round : ℕ → ℕ → Words → Words
round k m w =
    let t1 = (w.h + ep1 w.e + choose w.e w.f w.g + k + m) % 2 ^ 32 in
    let t2 = (ep0 w.a + majority w.a w.b w.c) % 2 ^ 32 in
    record {
      a = (t1 + t2) % 2 ^ 32;
      b = w.a;
      c = w.b;
      d = w.c;
      e = (w.d + t1) % 2 ^ 32;
      f = w.e;
      g = w.f;
      h = w.g;
    }

-- The third loop.
unfoldable pub run_rounds : List ℕ → List ℕ → Words → Option Words
unfolding round
run_rounds [] ms w = some w
run_rounds (k ∷ ks) [] w = none
run_rounds (k ∷ ks) (m ∷ ms) w = run_rounds ks ms (round k m w)

abbrev pub add_words : Words → Words → Words
add_words s w = record {
  a = (s.a + w.a) % 2 ^ 32;
  b = (s.b + w.b) % 2 ^ 32;
  c = (s.c + w.c) % 2 ^ 32;
  d = (s.d + w.d) % 2 ^ 32;
  e = (s.e + w.e) % 2 ^ 32;
  f = (s.f + w.f) % 2 ^ 32;
  g = (s.g + w.g) % 2 ^ 32;
  h = (s.h + w.h) % 2 ^ 32;
}

-- sha256_transform() on the words of the context; `none` is an access outside an array.
unfoldable pub sha256_transform : List ℕ → Words → Option Words
unfolding load_words extend_words run_rounds
sha256_transform block s = Option.map (add_words s) (
    option_bind (option_bind (load_words 16 block []) (extend_words 48))
      (λ m. run_rounds round_constants (reverse_onto m []) s))

-- sha256_init(); what `data` holds is indeterminate, here the argument.
abbrev pub sha256_init : List ℕ → Sha256Ctx
sha256_init uninit = record {
  block = uninit;
  datalen = 0;
  bitlen = 0;
  state = record {
    a = 0x6a09e667;
    b = 0xbb67ae85;
    c = 0x3c6ef372;
    d = 0xa54ff53a;
    e = 0x510e527f;
    f = 0x9b05688c;
    g = 0x1f83d9ab;
    h = 0x5be0cd19;
  };
}

-- The transform of a full block in sha256_update().
unfoldable pub flush : Sha256Ctx → Option Sha256Ctx
unfolding sha256_transform
flush ctx =
    if ctx.datalen == 64
    then Option.map
        (λ s. record ctx { state = s; bitlen = (ctx.bitlen + 512) % 2 ^ 64; datalen = 0 })
        (sha256_transform ctx.block ctx.state)
    else some ctx

-- The body of the loop of sha256_update().
unfoldable pub absorb : ℕ → Sha256Ctx → Option Sha256Ctx
unfolding flush
absorb byte ctx =
    option_bind (store ctx.block ctx.datalen byte)
      (λ block. flush (record ctx { block = block; datalen = (ctx.datalen + 1) % 2 ^ 32 }))

-- sha256_update() on fewer than 2 ^ 32 bytes; its index is a `uint32_t`.
unfoldable pub sha256_update : List ℕ → Sha256Ctx → Option Sha256Ctx
unfolding absorb
sha256_update [] ctx = some ctx
sha256_update (x ∷ xs) ctx = option_bind (absorb x ctx) (sha256_update xs)
