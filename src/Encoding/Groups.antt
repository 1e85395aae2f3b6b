-- ===== src/Encoding/Groups.antt =====
-- The groups of seven bits that asn1_encode_identifier() and asn1_serialize_oid() write.
use asn.Base.{
  ℕ, zero, suc, ◌+◌, ◌*◌, ◌/◌, ◌%◌, ◌^◌, ◌≤◌, ◌<◌, ◌≡◌, List, [], ◌∷◌, arith, ltb, Bool-cases, inl,
  inr, bit_and, bit_or,
}
use asn.Base.Bits.{bit_and-mod, bit_or_top, bit_or-add}
use asn.Encoding.{fill_groups, base128_octets}
use asn.Parser.Header.{push_group}
use native.Mathlib.Nat.{pow-suc}

-- A group with the top bit set, and the last group.
abbrev pub inner : ℕ → ℕ
inner t = bit_or 0x80 (bit_and t 0x7F)

pub inner_lem : (t : ℕ) → inner t ≡ 128 + t % 128
inner_lem t = rw (bit_and-mod 7 t) (bit_or_top (t % 128) (omega arith))

pub push_group_lem : (v x : ℕ) → v * 128 + x % 128 < 2 ^ 32 → push_group v x ≡ v * 128 + x % 128
push_group_lem v x fits =
    let whole : v * 2 ^ 7 % 2 ^ 32 ≡ v * 2 ^ 7 = omega arith in
    rw (whole, bit_and-mod 7 x) (bit_or-add 7 v (x % 128) (omega arith))

-- A reader of the groups: `R j v xs` says that with `j` rounds left and the value `v` it reads `xs`.
-- It reads what is written if it reads the last group, and each group before others that it reads.
module _ (R : ℕ → ℕ → List ℕ → Type 0)
    (step : (j t : ℕ) (written : List ℕ)
      → t < 2 ^ 32
      → R j t written
      → R (suc j) (t / 2 ^ 7) (inner t ∷ written)) where
  -- With `k` bytes written and room for `rounds` more, five rounds of reading are enough.
  fill_groups-fold :
      (rounds k t : ℕ) (written : List ℕ)
      → k + rounds ≤ 5
      → t < 128 ^ rounds
      → t < 2 ^ 32
      → ((j : ℕ) → k ≤ j → R j t written)
      → R 5 0 (fill_groups rounds t written)
  unfolding fill_groups
  fill_groups-fold zero k t written room h small rest =
      let none_left : t ≡ 0 = omega arith in rw none_left at (rest 5 (omega arith))
  fill_groups-fold (suc n) k t written room h small rest = elim (Bool-cases (ltb 0 t)) [
    | inl more ↦ rw more (
        fill_groups-fold n (suc k) (t / 2 ^ 7) (inner t ∷ written) (omega arith)
          (omega (arith, pow-suc 128 n)) (omega arith) next)
    | inr last ↦
        let none_left : t ≡ 0 = ground arith in rw last (rw none_left at (rest 5 (omega arith)))
  ]
    where
      next : (j : ℕ) → suc k ≤ j → R j (t / 2 ^ 7) (inner t ∷ written)
      next zero few = absurd (omega arith)
      next (suc j) few = step j t written small (rest j (omega arith))

  pub base128_octets-fold :
      (t : ℕ)
      → t < 2 ^ 32
      → ((j : ℕ) → R (suc j) (t / 2 ^ 7) (bit_and t 0x7F ∷ []))
      → R 5 0 (base128_octets t)
  unfolding base128_octets
  base128_octets-fold t small last =
      fill_groups-fold 4 1 (t / 2 ^ 7) (bit_and t 0x7F ∷ []) (omega arith) (omega arith)
        (omega arith) first
    where
      first : (j : ℕ) → 1 ≤ j → R j (t / 2 ^ 7) (bit_and t 0x7F ∷ [])
      first zero few = absurd (omega arith)
      first (suc j) few = last j
