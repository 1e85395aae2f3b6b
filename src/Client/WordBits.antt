-- ===== src/Client/WordBits.antt =====
-- The client program in Languages: the word functions of its SHA-256, CH, MAJ, EP0, EP1, SIG0 and SIG1,
-- bit by bit and as rotations.
use asn.Base.{
  ℕ, zero, suc, ◌+◌, ◌-◌, ◌*◌, ◌/◌, ◌%◌, ◌^◌, ◌≤◌, ◌<◌, ◌≡◌, refl, ap, ◌∙◌, leb, ◌==◌,
  if◌then◌else◌, arith, bit_and, bit_or,
}
use asn.Base.Bits.{bit_and-halves, bit_or-halves, bit_xor-halves, bit_or-add}
use native.Mathlib.Nat.{pow-suc}
use Prim.Native.Nat.{bit_xor, min}
use asn.Client.Sha256.{rot_right, choose, majority, ep0, ep1, sig0, sig1}

-- The bit of the number at the index.
abbrev pub bit : ℕ → ℕ → ℕ
bit zero x = x % 2
bit (suc i) x = bit i (x / 2)

bit-lt : (i x : ℕ) → bit i x < 2
bit-lt zero x = omega arith
bit-lt (suc i) x = bit-lt i (x / 2)

bit-bit_and : (i a b : ℕ) → bit i (bit_and a b) ≡ min (bit i a) (bit i b)
bit-bit_and zero a b = omega (arith, bit_and-halves a b)
bit-bit_and (suc i) a b =
    let half : bit_and a b / 2 ≡ bit_and (a / 2) (b / 2) = omega (arith, bit_and-halves a b) in
    ap (bit i) half ∙ bit-bit_and i (a / 2) (b / 2)

bit-bit_xor : (i a b : ℕ) → bit i (bit_xor a b) ≡ (bit i a + bit i b) % 2
bit-bit_xor zero a b = omega (arith, bit_xor-halves a b)
bit-bit_xor (suc i) a b =
    let half : bit_xor a b / 2 ≡ bit_xor (a / 2) (b / 2) = omega (arith, bit_xor-halves a b) in
    ap (bit i) half ∙ bit-bit_xor i (a / 2) (b / 2)

bit-complement : (w i x : ℕ) → x < 2 ^ w → i < w → bit i (2 ^ w - 1 - x) ≡ 1 - bit i x
bit-complement zero i x small low = absurd (omega arith)
bit-complement (suc w) zero x small low = omega (arith, pow-suc 2 w)
bit-complement (suc w) (suc i) x small low =
    let half : (2 ^ suc w - 1 - x) / 2 ≡ 2 ^ w - 1 - x / 2 = omega (arith, pow-suc 2 w) in
    ap (bit i) half ∙ bit-complement w i (x / 2) (omega (arith, pow-suc 2 w)) (omega arith)

-- CH takes the bit of `y` or `z` as the bit of `x` says.
choose-bit :
    (x y z i : ℕ)
    → x < 2 ^ 32
    → i < 32
    → bit i (choose x y z) ≡ (if bit i x == 1 then bit i y else bit i z)
choose-bit x y z i small low = ground (
  arith,
  bit-bit_xor i (bit_and x y) (bit_and (2 ^ 32 - 1 - x) z),
  bit-bit_and i x y,
  bit-bit_and i (2 ^ 32 - 1 - x) z,
  bit-complement 32 i x small low,
  bit-lt i x,
  bit-lt i y,
  bit-lt i z,
)

-- MAJ takes the bit that two of the three have.
majority-bit :
    (x y z i : ℕ) → bit i (majority x y z) ≡ (if leb 2 (bit i x + bit i y + bit i z) then 1 else 0)
majority-bit x y z i = ground (
  arith,
  bit-bit_xor i (bit_xor (bit_and x y) (bit_and x z)) (bit_and y z),
  bit-bit_xor i (bit_and x y) (bit_and x z),
  bit-bit_and i x y,
  bit-bit_and i x z,
  bit-bit_and i y z,
  bit-lt i x,
  bit-lt i y,
  bit-lt i z,
)

bit_or_comm : (n a b : ℕ) → a ≤ n → b ≤ n → bit_or a b ≡ bit_or b a
bit_or_comm zero zero zero h k = refl
bit_or_comm zero (suc a) b h k = absurd (omega arith)
bit_or_comm zero zero (suc b) h k = absurd (omega arith)
bit_or_comm (suc n) a b h k = omega (
  arith,
  bit_or-halves a b,
  bit_or-halves b a,
  bit_or_comm n (a / 2) (b / 2) (omega arith) (omega arith),
)

-- The number with its low `b` bits moved to the top of a word of 32 bits.
abbrev pub rotated : ℕ → ℕ → ℕ
rotated b x = x / 2 ^ b + x % 2 ^ b * 2 ^ (32 - b)

-- The two parts of ROTRIGHT do not meet.
joined_parts :
    (x b k : ℕ)
    → k ≡ 32 - b
    → x * 2 ^ k % 2 ^ 32 ≡ x % 2 ^ b * 2 ^ k
    → x / 2 ^ b < 2 ^ k
    → rot_right x b ≡ rotated b x
joined_parts x b k e top low =
    let high : ℕ = x * 2 ^ k % 2 ^ 32 in
    let sum : bit_or (x / 2 ^ b) high ≡ x / 2 ^ b + x % 2 ^ b * 2 ^ k =
      bit_or_comm (x / 2 ^ b + high) (x / 2 ^ b) high (omega arith) (omega arith)
      ∙ ap (λ h. bit_or h (x / 2 ^ b)) top
      ∙ bit_or-add k (x % 2 ^ b) (x / 2 ^ b) low
      ∙ omega arith in
    rw e at sum

module _ (x : ℕ) (small : x < 2 ^ 32) where
  -- The rotations that the functions use.
  rot_right-rotated_ten :
      (rot_right x 2 ≡ rotated 2 x)
      × (rot_right x 13 ≡ rotated 13 x)
      × (rot_right x 22 ≡ rotated 22 x)
      × (rot_right x 6 ≡ rotated 6 x)
      × (rot_right x 11 ≡ rotated 11 x)
      × (rot_right x 25 ≡ rotated 25 x)
      × (rot_right x 7 ≡ rotated 7 x)
      × (rot_right x 18 ≡ rotated 18 x)
      × (rot_right x 17 ≡ rotated 17 x)
      × (rot_right x 19 ≡ rotated 19 x)
  rot_right-rotated_ten = (
    joined_parts x 2 30 refl (omega arith) (omega arith),
    joined_parts x 13 19 refl (omega arith) (omega arith),
    joined_parts x 22 10 refl (omega arith) (omega arith),
    joined_parts x 6 26 refl (omega arith) (omega arith),
    joined_parts x 11 21 refl (omega arith) (omega arith),
    joined_parts x 25 7 refl (omega arith) (omega arith),
    joined_parts x 7 25 refl (omega arith) (omega arith),
    joined_parts x 18 14 refl (omega arith) (omega arith),
    joined_parts x 17 15 refl (omega arith) (omega arith),
    joined_parts x 19 13 refl (omega arith) (omega arith),
  )

-- The parity of three bits.
abbrev pub parity : ℕ → ℕ → ℕ → ℕ → ℕ
parity i u v w = (bit i u + bit i v + bit i w) % 2

bit-xor_three :
    (i u v w u' v' w' : ℕ)
    → u ≡ u'
    → v ≡ v'
    → w ≡ w'
    → bit i (bit_xor (bit_xor u v) w) ≡ parity i u' v' w'
bit-xor_three i u v w u' v' w' e f g =
    let sum : bit i (bit_xor (bit_xor u v) w) ≡ parity i u v w =
      omega (arith, bit-bit_xor i (bit_xor u v) w, bit-bit_xor i u v) in
    sum ∙ ap (λ t. parity i t v w) e ∙ ap (λ t. parity i u' t w) f ∙ ap (λ t. parity i u' v' t) g

-- The word functions of the digest, at each bit of 32-bit words: CH takes the bit of `y` where that of `x`
-- is set and the bit of `z` where it is not, MAJ takes the bit that two of the three have at least,
-- and EP0, EP1, SIG0 and SIG1 are the parities of the word moved by their three distances: rotated, the
-- last one of SIG0 and SIG1 shifted. CH and the last four are of words below 2 ^ 32, and the index is
-- below 32.
pub word_functions-bit :
    (x y z i : ℕ)
    → x < 2 ^ 32
    → i < 32
    → (bit i (choose x y z) ≡ (if bit i x == 1 then bit i y else bit i z))
      × (bit i (majority x y z) ≡ (if leb 2 (bit i x + bit i y + bit i z) then 1 else 0))
      × (bit i (ep0 x) ≡ parity i (rotated 2 x) (rotated 13 x) (rotated 22 x))
      × (bit i (ep1 x) ≡ parity i (rotated 6 x) (rotated 11 x) (rotated 25 x))
      × (bit i (sig0 x) ≡ parity i (rotated 7 x) (rotated 18 x) (x / 2 ^ 3))
      × (bit i (sig1 x) ≡ parity i (rotated 17 x) (rotated 19 x) (x / 2 ^ 10))
word_functions-bit x y z i small low =
    let (r2, r13, r22, r6, r11, r25, r7, r18, r17, r19) = rot_right-rotated_ten x small in
    (
      choose-bit x y z i small low,
      majority-bit x y z i,
      bit-xor_three i (rot_right x 2) (rot_right x 13) (rot_right x 22) _ _ _ r2 r13 r22,
      bit-xor_three i (rot_right x 6) (rot_right x 11) (rot_right x 25) _ _ _ r6 r11 r25,
      bit-xor_three i (rot_right x 7) (rot_right x 18) (x / 2 ^ 3) _ _ _ r7 r18 refl,
      bit-xor_three i (rot_right x 17) (rot_right x 19) (x / 2 ^ 10) _ _ _ r17 r19 refl,
    )
