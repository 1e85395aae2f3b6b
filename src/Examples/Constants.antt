-- ===== src/Examples/Constants.antt =====
-- The word functions and the constants of the digest: these are the first 32 bits behind the point of
-- the cube roots of the first 64 primes, and of the square roots of the first 8.
use asn.Base.{
  ℕ, ◌+◌, ◌*◌, ◌/◌, ◌^◌, ◌≡◌, refl, Bool, true, false, ◌&&◌, ◌||◌, List, [], ◌∷◌, leb, ltb, ◌==◌,
  if◌then◌else◌, arith,
}
use asn.Client.Sha256.{Words, round_constants, sha256_init, choose, majority, ep0, ep1, sig0, sig1}
use asn.Client.WordBits.{bit, rotated, parity, word_functions-bit}

abbrev primes : List ℕ
primes =
    2 ∷ 3 ∷ 5 ∷ 7 ∷ 11 ∷ 13 ∷ 17 ∷ 19 ∷ 23 ∷ 29 ∷ 31 ∷ 37 ∷ 41 ∷ 43 ∷ 47 ∷ 53 ∷ 59 ∷ 61 ∷ 67 ∷ 71
    ∷ 73 ∷ 79 ∷ 83 ∷ 89 ∷ 97 ∷ 101 ∷ 103 ∷ 107 ∷ 109 ∷ 113 ∷ 127 ∷ 131 ∷ 137 ∷ 139 ∷ 149 ∷ 151 ∷ 157
    ∷ 163 ∷ 167 ∷ 173 ∷ 179 ∷ 181 ∷ 191 ∷ 193 ∷ 197 ∷ 199 ∷ 211 ∷ 223 ∷ 227 ∷ 229 ∷ 233 ∷ 239 ∷ 241
    ∷ 251 ∷ 257 ∷ 263 ∷ 269 ∷ 271 ∷ 277 ∷ 281 ∷ 283 ∷ 293 ∷ 307 ∷ 311 ∷ []

-- `r` over 2 ^ 32 is the `n`th root of `p`, cut behind 32 bits.
abbrev is_root : ℕ → ℕ → ℕ → Bool
is_root n p r = leb (r ^ n) (p * 2 ^ (32 * n)) && ltb (p * 2 ^ (32 * n)) ((r + 1) ^ n)

-- With one of the whole parts.
abbrev some_root : List ℕ → ℕ → ℕ → ℕ → Bool
some_root [] n p c = false
some_root (w ∷ ws) n p c = is_root n p (w * 2 ^ 32 + c) || some_root ws n p c

abbrev all_roots : ℕ → List ℕ → List ℕ → Bool
all_roots n ps [] = true
all_roots n [] (c ∷ cs) = false
all_roots n (p ∷ ps) (c ∷ cs) = some_root (1 ∷ 2 ∷ 3 ∷ 4 ∷ 5 ∷ 6 ∷ []) n p c && all_roots n ps cs

round_constants_roots : all_roots 3 primes round_constants ≡ true
round_constants_roots = refl

abbrev words : Words → List ℕ
words s = s.a ∷ s.b ∷ s.c ∷ s.d ∷ s.e ∷ s.f ∷ s.g ∷ s.h ∷ []

initial_words_roots : all_roots 2 primes (words (sha256_init []).state) ≡ true
initial_words_roots = refl

word_functions-bit_example :
    (bit 3 (choose 12 10 6) ≡ (if bit 3 12 == 1 then bit 3 10 else bit 3 6))
    × (bit 3 (majority 12 10 6) ≡ (if leb 2 (bit 3 12 + bit 3 10 + bit 3 6) then 1 else 0))
    × (bit 3 (ep0 12) ≡ parity 3 (rotated 2 12) (rotated 13 12) (rotated 22 12))
    × (bit 3 (ep1 12) ≡ parity 3 (rotated 6 12) (rotated 11 12) (rotated 25 12))
    × (bit 3 (sig0 12) ≡ parity 3 (rotated 7 12) (rotated 18 12) (12 / 2 ^ 3))
    × (bit 3 (sig1 12) ≡ parity 3 (rotated 17 12) (rotated 19 12) (12 / 2 ^ 10))
word_functions-bit_example = word_functions-bit 12 10 6 3 (omega arith) (omega arith)
