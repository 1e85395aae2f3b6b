-- ===== src/SelfTest/Status.antt =====
-- The program main.c: when its exit status is 0.
use asn.Base.{
  ℕ, zero, suc, ◌+◌, ◌≡◌, refl, ap, sym, ◌∙◌, Bool, true, false, Bool-cases, Option-cases, inl, inr,
  none, some, List, [], ◌∷◌, length, ◌==◌, ==→eq, eq→==, arith, ◌↔◌, ◌⊎◌, Outcome, done, failed,
  fault, out_of_fuel,
}
use asn.Error.{Error, Op}
use asn.Parser.Header.{der}
use asn.Parser.Node.{Node, ParseResult, parse_result_init, asn1_parse}
use asn.Iterator.{root_node}
use asn.Serializer.{Serializer, serializer_init}
use asn.SelfTest.{
  AlgorithmIdentifier, original, same_flag, compare_components, verify, status_decoded,
  status_parsed, status_encoded, test_roundtrip, main_status,
}

-- Once a component differs, the flag stays false.
compare_components_lost : (xs ys : List ℕ) → compare_components false xs ys ≡ false
unfolding compare_components
compare_components_lost [] ys = refl
compare_components_lost (x ∷ xs) [] = refl
compare_components_lost (x ∷ xs) (y ∷ ys) = elim (Bool-cases (x == y)) [
  | inl e ↦ rw e (compare_components_lost xs ys)
  | inr e ↦ rw e (compare_components_lost xs ys)
]

eq-compare_components :
    (xs ys : List ℕ) → length xs ≡ length ys → compare_components true xs ys ≡ true → xs ≡ ys
unfolding compare_components
eq-compare_components [] [] e h = refl
eq-compare_components [] (y ∷ ys) e h = absurd (omega (arith, e))
eq-compare_components (x ∷ xs) [] e h = absurd (omega (arith, e))
eq-compare_components (x ∷ xs) (y ∷ ys) e h = elim (Bool-cases (x == y)) [
  | inl s ↦
      let first : x ≡ y = ==→eq x y s in
      let rest : xs ≡ ys = eq-compare_components xs ys (omega (arith, e)) (rw s at h) in
      rw (first, rest)
  | inr s ↦ let never : false ≡ true = sym (compare_components_lost xs ys) ∙ (rw s at h) in cc
]

compare_components_refl : (xs : List ℕ) → compare_components true xs xs ≡ true
unfolding compare_components
compare_components_refl [] = refl
compare_components_refl (x ∷ xs) = rw (eq→== x x refl, compare_components_refl xs)

eq-same_flag : (a b : Bool) → same_flag a b ≡ true → a ≡ b
eq-same_flag true true h = refl
eq-same_flag true false h = cc
eq-same_flag false true h = cc
eq-same_flag false false h = refl

same_flag_refl : (a : Bool) → same_flag a a ≡ true
same_flag_refl true = refl
same_flag_refl false = refl

-- The same identifier, and parameters in both or in neither.
abbrev pub IsSame : AlgorithmIdentifier → AlgorithmIdentifier → Type 0
IsSame a b = (a.algorithm ≡ b.algorithm) × (a.has_parameters ≡ b.has_parameters)

verify-IsSame : (a b : AlgorithmIdentifier) → verify a b ≡ true → IsSame a b
unfolding verify
verify-IsSame a b h = elim (Bool-cases (same_flag a.has_parameters b.has_parameters)) [
  | inr f ↦ let never : false ≡ true = rw (verify, f) at h in cc
  | inl f ↦ elim (Bool-cases (length a.algorithm == length b.algorithm)) [
    | inr e ↦ let never : false ≡ true = rw (verify, f, e) at h in cc
    | inl e ↦
        let same : compare_components true a.algorithm b.algorithm ≡ true =
          rw (verify, f, e) at h in
        (
          eq-compare_components a.algorithm b.algorithm (==→eq _ _ e) same,
          eq-same_flag a.has_parameters b.has_parameters f,
        )
  ]
]

IsSame-verify : (a b : AlgorithmIdentifier) → IsSame a b → verify a b ≡ true
unfolding verify
IsSame-verify a b (same, flag) = rw (
  verify,
  ← same,
  ← flag,
  same_flag_refl a.has_parameters,
  eq→== (length a.algorithm) (length a.algorithm) refl,
  compare_components_refl a.algorithm,
)

-- The status 1 is not 0.
failing : {A : Type 0} {n : ℕ} → some (suc n) ≡ some zero → A
failing {n = n} h = let e : suc n ≡ zero = cc in absurd (omega (arith, e))

module _ (encode : AlgorithmIdentifier → Op Serializer (Unit {0}))
    (decode : Node → ParseResult → Outcome Error (Unit {0}) AlgorithmIdentifier) where
  -- Each call of the library and of the generated code succeeds, and the decoder gives back the
  -- identifier and the flag of the original.
  pub record IsRoundTrip (buffer : List ℕ) (nodes : List Node) : Type 0 where
    pub serializer : Serializer
    pub result : ParseResult
    pub root : Node
    pub decoded : AlgorithmIdentifier
    pub encodes : encode original (serializer_init buffer 512) ≡ done tt serializer
    pub parses :
        asn1_parse (some serializer.buffer) serializer.length der false (parse_result_init nodes 64)
        ≡ done tt result
    pub has_root : root_node result ≡ some root
    pub decodes : decode root result ≡ done decoded tt
    pub same : IsSame original decoded

  status_decoded-zero :
      (r : Outcome Error (Unit {0}) AlgorithmIdentifier)
      → status_decoded r ≡ some 0
      → (d : AlgorithmIdentifier) × (r ≡ done d tt) × IsSame original d
  unfolding status_decoded
  status_decoded-zero (done d s) h = elim (Bool-cases (verify original d)) [
    | inl e ↦ (d, refl, verify-IsSame original d e)
    | inr e ↦ failing (rw (status_decoded, e) at h)
  ]
  status_decoded-zero (failed e s) h = failing h
  status_decoded-zero fault h = cc
  status_decoded-zero out_of_fuel h = cc

  status_parsed-zero :
      (r : Outcome Error ParseResult (Unit {0}))
      → status_parsed encode decode r ≡ some 0
      → (t : ParseResult) × (root : Node) × (d : AlgorithmIdentifier) × (r ≡ done tt t)
        × (root_node t ≡ some root)
        × (decode root t ≡ done d tt)
        × IsSame original d
  unfolding status_parsed
  status_parsed-zero (done a t) h = elim (Option-cases (root_node t)) [
    | inl e ↦ failing (rw (status_parsed, e) at h)
    | inr (root, e) ↦
        let (d, ran, same) = status_decoded-zero (decode root t) (rw (status_parsed, e) at h) in
        (t, root, d, refl, e, ran, same)
  ]
  status_parsed-zero (failed e t) h = failing h
  status_parsed-zero fault h = cc
  status_parsed-zero out_of_fuel h = cc

  status_encoded-zero :
      (buffer : List ℕ) (nodes : List Node) (r : Outcome Error Serializer (Unit {0}))
      → encode original (serializer_init buffer 512) ≡ r
      → status_encoded encode decode nodes r ≡ some 0
      → IsRoundTrip buffer nodes
  unfolding status_encoded
  status_encoded-zero buffer nodes (done a s) ran h =
      let (t, root, d, parses, has_root, decodes, same) =
        status_parsed-zero
          (asn1_parse (some s.buffer) s.length der false (parse_result_init nodes 64)) h in
      record {
        serializer = s;
        result = t;
        root = root;
        decoded = d;
        encodes = ran;
        parses = parses;
        has_root = has_root;
        decodes = decodes;
        same = same;
      }
  status_encoded-zero buffer nodes (failed e s) ran h = failing h
  status_encoded-zero buffer nodes fault ran h = cc
  status_encoded-zero buffer nodes out_of_fuel ran h = cc

  IsRoundTrip-status :
      (buffer : List ℕ) (nodes : List Node)
      → IsRoundTrip buffer nodes
      → test_roundtrip encode decode buffer nodes ≡ some 0
  unfolding test_roundtrip status_encoded status_parsed status_decoded
  IsRoundTrip-status buffer nodes h = rw (
    test_roundtrip,
    h.encodes,
    status_encoded,
    h.parses,
    status_parsed,
    h.has_root,
    h.decodes,
    status_decoded,
    IsSame-verify original h.decoded h.same,
  )

  -- The program exits with 0 exactly where the encoder, asn1_parse() under DER and the decoder succeed
  -- one on what the other left, and what comes back has the components of the original in their
  -- order, and parameters as it has. In each other case where the calls return, it does not exit with 0.
  pub main_status-IsRoundTrip :
      (buffer : List ℕ) (nodes : List Node)
      → (main_status encode decode buffer nodes ≡ some 0) ↔ IsRoundTrip buffer nodes
  unfolding main_status test_roundtrip
  main_status-IsRoundTrip buffer nodes = (
    λ h. from_test (Option-cases (test_roundtrip encode decode buffer nodes)) h,
    λ h. rw (main_status, IsRoundTrip-status buffer nodes h),
  )
    where
      from_test :
          (test_roundtrip encode decode buffer nodes ≡ none)
            ⊎ ((n : ℕ) × (test_roundtrip encode decode buffer nodes ≡ some n))
          → main_status encode decode buffer nodes ≡ some 0
          → IsRoundTrip buffer nodes
      from_test (inl e) h =
          let nothing : main_status encode decode buffer nodes ≡ none = rw (main_status, e) in cc
      from_test (inr (n, e)) h =
          let same : some (0 + n) ≡ some 0 = rw (main_status, e) at h in
          let sum : 0 + n ≡ zero = cc in
          let zero_failed : n ≡ 0 = omega (arith, sum) in
          status_encoded-zero buffer nodes (encode original (serializer_init buffer 512)) refl
            (e ∙ ap some zero_failed)
