-- ===== src/Base/Bits.antt =====
-- `&` with a low mask and `|` of disjoint fields, as arithmetic.
use Prim.Native.Nat.{
  ℕ, zero, suc, ◌+◌, ◌-◌, ◌*◌, ◌/◌, ◌%◌, ◌^◌, ◌≤◌, ◌<◌, min, max, bit_and, bit_or, bit_xor,
}
use Prim.Native.Nat.{digits, differ, bit_and-bitwise, bit_or-bitwise, bit_xor-bitwise}
use mathlib.Core.Path.{◌≡◌, refl, ap}
use mathlib.Core.Bool.{Bool, true, ◌&&◌}
use native.Mathlib.Nat.{pow-suc, one-le-pow}
use native.Mathlib.Omega.{arith}
use asn.Base.Tests.{◌==◌, ==→eq}

-- The native operations stand for a recursion on the binary digits of the first number, with that
-- number as fuel; any fuel above it gives the same digits.
digits_fuel :
    (z : ℕ → ℕ) (op : ℕ → ℕ → ℕ) (n m a b : ℕ)
    → a ≤ n
    → a ≤ m
    → digits z op n a b ≡ digits z op m a b
digits_fuel z op zero zero a b p q = refl
digits_fuel z op (suc n) zero zero b p q = refl
digits_fuel z op (suc n) zero (suc a) b p q = absurd (omega arith)
digits_fuel z op zero (suc m) zero b p q = refl
digits_fuel z op zero (suc m) (suc a) b p q = absurd (omega arith)
digits_fuel z op (suc n) (suc m) zero b p q = refl
digits_fuel z op (suc n) (suc m) (suc a) b p q =
    rw (digits_fuel z op n m (suc a / 2) (b / 2) (omega arith) (omega arith))

lowest_digit :
    (z : ℕ → ℕ) (op : ℕ → ℕ → ℕ) (a b : ℕ)
    → digits z op a (suc a / 2) (b / 2) ≡ digits z op (suc a / 2) (suc a / 2) (b / 2)
lowest_digit z op a b =
    digits_fuel z op a (suc a / 2) (suc a / 2) (b / 2) (omega arith) (omega arith)

pub bit_and-halves : (a b : ℕ) → bit_and a b ≡ 2 * bit_and (a / 2) (b / 2) + min (a % 2) (b % 2)
bit_and-halves zero b = simp bit_and-bitwise (omega arith)
bit_and-halves (suc a) b = simp bit_and-bitwise (omega (arith, lowest_digit (λ y. 0) min a b))

pub bit_or-halves : (a b : ℕ) → bit_or a b ≡ 2 * bit_or (a / 2) (b / 2) + max (a % 2) (b % 2)
bit_or-halves zero b = simp bit_or-bitwise (omega arith)
bit_or-halves (suc a) b = simp bit_or-bitwise (omega (arith, lowest_digit (λ y. y) max a b))

differ-eq : (p q : ℕ) → p < 2 → q < 2 → differ p q ≡ (p + q) % 2
differ-eq zero q h k = omega arith
differ-eq (suc zero) zero h k = refl
differ-eq (suc zero) (suc zero) h k = refl
differ-eq (suc zero) (suc (suc q)) h k = absurd (omega arith)
differ-eq (suc (suc p)) q h k = absurd (omega arith)

pub bit_xor-halves : (a b : ℕ) → bit_xor a b ≡ 2 * bit_xor (a / 2) (b / 2) + (a % 2 + b % 2) % 2
bit_xor-halves zero b = simp bit_xor-bitwise (omega arith)
bit_xor-halves (suc a) b = simp bit_xor-bitwise (
    omega (
      arith,
      lowest_digit (λ y. y) differ a b,
      differ-eq (suc a % 2) (b % 2) (omega arith) (omega arith),
    ))

bit_and-zero : (n a : ℕ) → a ≤ n → bit_and a 0 ≡ 0
bit_and-zero n zero h = refl
bit_and-zero zero (suc a) h = absurd (omega arith)
bit_and-zero (suc n) (suc a) h =
    omega (arith, bit_and-halves (suc a) 0, bit_and-zero n (suc a / 2) (omega arith))

bit_or-zero : (n a : ℕ) → a ≤ n → bit_or a 0 ≡ a
bit_or-zero n zero h = refl
bit_or-zero zero (suc a) h = absurd (omega arith)
bit_or-zero (suc n) (suc a) h =
    omega (arith, bit_or-halves (suc a) 0, bit_or-zero n (suc a / 2) (omega arith))

twice-pow : (q k : ℕ) → q * 2 ^ suc k ≡ 2 * (q * 2 ^ k)
twice-pow q k = omega (arith, ap (λ (t : ℕ). q * t) (pow-suc 2 k))

-- `(q << k) | r` is a sum where `r` fits `k` bits.
pub bit_or-add : (k q r : ℕ) → r < 2 ^ k → bit_or (q * 2 ^ k) r ≡ q * 2 ^ k + r
bit_or-add zero q r h = ground (arith, bit_or-zero q q)
bit_or-add (suc k) q r h = ground (
  arith,
  twice-pow q k,
  bit_or-halves (q * 2 ^ suc k) r,
  bit_or-add k q (r / 2) (omega (arith, pow-suc 2 k)),
)

bit_and-add : (k q r : ℕ) → r < 2 ^ k → bit_and (q * 2 ^ k + r) (2 ^ k - 1) ≡ r
bit_and-add zero q r h = ground (arith, bit_and-zero (q * 2 ^ 0 + r) (q * 2 ^ 0 + r))
bit_and-add (suc k) q r h = ground (
  arith,
  twice-pow q k,
  pow-suc 2 k,
  bit_and-halves (q * 2 ^ suc k + r) (2 ^ suc k - 1),
  bit_and-add k q (r / 2) (omega (arith, pow-suc 2 k)),
)

-- `a & (2 ^ k - 1)` keeps the low `k` bits.
pub bit_and-mod : (k a : ℕ) → bit_and a (2 ^ k - 1) ≡ a % 2 ^ k
bit_and-mod k a = ground (arith, one-le-pow k 2, bit_and-add k (a / 2 ^ k) (a % 2 ^ k))

-- A single bit of a byte, by evaluation at every byte.
holds_below : ℕ → (ℕ → Bool) → Bool
holds_below zero p = true
holds_below (suc n) p = p n && holds_below n p

holds_below-lt : (n : ℕ) (p : ℕ → Bool) (x : ℕ) → holds_below n p ≡ true → x < n → p x ≡ true
unfolding holds_below
holds_below-lt zero p x h l = absurd (omega arith)
holds_below-lt (suc n) p x h l = ground (arith, holds_below-lt n p x)

pub bit_and_top : (b : ℕ) → b < 256 → bit_and b 0x80 ≡ b / 128 * 128
unfolding holds_below
bit_and_top b h = ==→eq _ _ (holds_below-lt 256 (λ x. bit_and x 0x80 == x / 128 * 128) b refl h)

pub bit_and_constructed : (b : ℕ) → b < 256 → bit_and b 0x20 ≡ b / 32 % 2 * 32
unfolding holds_below
bit_and_constructed b h =
    ==→eq _ _ (holds_below-lt 256 (λ x. bit_and x 0x20 == x / 32 % 2 * 32) b refl h)

pub bit_or_top : (b : ℕ) → b < 128 → bit_or 0x80 b ≡ 128 + b
bit_or_top b h = bit_or-add 7 1 b h
