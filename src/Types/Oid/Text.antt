-- ===== src/Types/Oid/Text.antt =====
-- asn1_types.c: asn1_oid_to_string(), over snprintf() of the standard library.
use asn.Base.{
  ℕ, zero, suc, ◌+◌, ◌-◌, ◌/◌, ◌%◌, Bool, true, false, Option, none, some, List, [], ◌∷◌, ◌++◌,
  length, take, copy_to, ltb, leb, ◌==◌, if◌then◌else◌, add_size, sub_size,
}

-- The digits of "%u" for a number of at most `suc k` digits, as characters.
unfoldable pub digits_of : ℕ → ℕ → List ℕ
digits_of zero n = (48 + n % 10) ∷ []
digits_of (suc k) n =
    let front = digits_of k (n / 10) in
    if ltb n 10 then (48 + n) ∷ [] else front ++ ((48 + n % 10) ∷ [])

-- "%u" for a uint32_t
unfoldable pub decimal : ℕ → List ℕ
unfolding digits_of
decimal c = digits_of 9 c

-- snprintf() of a text at an index of the array with `room` characters: the text is cut, and a zero
-- stands behind it. It returns the length of the whole text.
unfoldable pub snprintf : List ℕ → List ℕ → ℕ → ℕ → Option (List ℕ)
snprintf text buffer at room =
    if room == 0 then some buffer else copy_to buffer at (take (room - 1) text ++ (0 ∷ []))

-- "%u", or ".%u" from the second component on
abbrev pub component_text : Bool → ℕ → List ℕ
component_text first c = if first then decimal c else (46 ∷ decimal c)

-- The loop of asn1_oid_to_string(): the array and `written`; `none` is a write outside the array.
unfoldable pub to_string_loop : Bool → List ℕ → List ℕ → ℕ → ℕ → Option (List ℕ × ℕ)
to_string_loop first [] buffer written size = some (buffer, written)
to_string_loop first (c ∷ cs) buffer written size =
    let text = component_text first c in
    let written' = add_size written (length text) in
    elim (snprintf text buffer written (sub_size size written)) [
      | none ↦ none
      | some buffer' ↦
          let rest = to_string_loop false cs buffer' written' size in
          if leb size written' then some (buffer', written') else rest
    ]

-- asn1_oid_to_string()
unfoldable pub oid_to_string : List ℕ → List ℕ → ℕ → Option (List ℕ × ℕ)
unfolding to_string_loop snprintf decimal
oid_to_string [] buffer size =
    if ltb 0 size
    then elim (copy_to buffer 0 (0 ∷ [])) [ none ↦ none | some b ↦ some (b, 0) ]
    else some (buffer, 0)
oid_to_string (c ∷ cs) buffer size = to_string_loop true (c ∷ cs) buffer 0 size
