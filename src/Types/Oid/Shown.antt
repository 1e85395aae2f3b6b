-- ===== src/Types/Oid/Shown.antt =====
-- asn1_types.c: what asn1_oid_to_string() leaves in the caller's array, whether the text fits or not.
use asn.Base.{
  ℕ, zero, suc, ◌+◌, ◌-◌, ◌/◌, ◌%◌, ◌^◌, ◌≤◌, ◌<◌, ◌≡◌, refl, ap, sym, ◌∙◌, Bool, true, false,
  Option, some, List, [], ◌∷◌, ◌++◌, append_assoc, append-nil, length, length-append,
  length-take-le, take-all, take, splice, take-splice, length-splice, ltb, leb, le→leb, lt→ltb,
  ◌==◌, if◌then◌else◌, arith, add_size, sub_size, Bool-cases, inl, inr,
}
use asn.Types.Oid.Text.{digits_of, decimal, snprintf, component_text, to_string_loop, oid_to_string}

-- The components in decimal with points between them.
abbrev dotted_tail : List ℕ → List ℕ
dotted_tail [] = []
dotted_tail (c ∷ cs) = 46 ∷ (decimal c ++ dotted_tail cs)

abbrev pub dotted : List ℕ → List ℕ
dotted [] = []
dotted (c ∷ cs) = decimal c ++ dotted_tail cs

-- The text stands at the start of the array, cut to `size` with its zero, and the number returned is its
-- length where it is not cut, and at least `size` where it is.
pub record Shows (text : List ℕ) (size : ℕ) (r : Option (List ℕ × ℕ)) : Type 0 where
  pub array : List ℕ
  pub count : ℕ
  pub given : r ≡ some (array, count)
  pub shown : take (length (take (size - 1) text) + 1) array ≡ take (size - 1) text ++ (0 ∷ [])
  pub whole : length text < size → count ≡ length text
  pub cut : size ≤ length text → size ≤ count

length-digits_of : (k n : ℕ) → length (digits_of k n) ≤ suc k
unfolding digits_of
length-digits_of zero n = omega arith
length-digits_of (suc k) n =
    let front = digits_of k (n / 10) in
    elim (Bool-cases (ltb n 10)) [
      | inl short ↦ rw short (omega arith)
      | inr long ↦
          rw long
            (omega (arith, length-append front ((48 + n % 10) ∷ []), length-digits_of k (n / 10)))
    ]

take-behind :
    (n : ℕ) (xs ys : List ℕ) → length xs ≤ n → take n (xs ++ ys) ≡ xs ++ take (n - length xs) ys
take-behind n [] ys h = ap (λ k. take k ys) {x = n} {y = n - 0} (omega arith)
take-behind zero (x ∷ xs) ys h = absurd (omega arith)
take-behind (suc n) (x ∷ xs) ys h =
    ap (λ l. x ∷ l)
      (take-behind n xs ys (omega arith)
        ∙ ap (λ k. xs ++ take k ys) {x = n - length xs} {y = suc n - suc (length xs)} (omega arith))

take-front : (n : ℕ) (xs ys : List ℕ) → n ≤ length xs → take n (xs ++ ys) ≡ take n xs
take-front zero xs ys h = refl
take-front (suc n) [] ys h = absurd (omega arith)
take-front (suc n) (x ∷ xs) ys h = ap (λ l. x ∷ l) (take-front n xs ys (omega arith))

-- What a call of snprintf() behind the text `p` prints, and the array that it leaves.
abbrev part : (p text : List ℕ) → ℕ → List ℕ
part p text size = take (size - 1 - length p) text

printed : (p text buffer : List ℕ) → ℕ → List ℕ
printed p text buffer size = splice buffer (length p) (part p text size ++ (0 ∷ []))

module _ (p text buffer : List ℕ) (size : ℕ) (free : length p < size) (there : size ≤ length buffer)
    (small : size < 2 ^ 63) (kept : take (length p) buffer ≡ p) where
  snprintf-printed :
      snprintf text buffer (length p) (sub_size size (length p)) ≡ some (printed p text buffer size)
  unfolding snprintf printed
  snprintf-printed =
      let room : sub_size size (length p) ≡ size - length p = omega arith in
      let some_room : (size - length p == 0) ≡ false = ground arith in
      let cut : size - length p - 1 ≡ size - 1 - length p = omega arith in
      let fits : length p + length (part p text size ++ (0 ∷ [])) ≤ length buffer = omega (
        arith,
        length-append (part p text size) (0 ∷ []),
        length-take-le (size - 1 - length p) text,
      ) in
      rw (room, some_room, cut, le→leb _ _ fits)

  length-printed : length (printed p text buffer size) ≡ length buffer
  unfolding printed
  length-printed = length-splice buffer (length p) (part p text size ++ (0 ∷ []))

  take-printed :
      take (length (p ++ part p text size) + 1) (printed p text buffer size)
      ≡ (p ++ part p text size) ++ (0 ∷ [])
  unfolding printed
  take-printed =
      let few = length-take-le (size - 1 - length p) text in
      let one = length-append (part p text size) (0 ∷ []) in
      take-splice buffer (length p) (part p text size ++ (0 ∷ []))
        (length (p ++ part p text size) + 1)
        (omega (arith, length-append p (part p text size), one))
        (omega (arith, length-append p (part p text size), few))
      ∙ ap (λ l. l ++ (part p text size ++ (0 ∷ []))) kept
      ∙ sym (append_assoc p (part p text size) (0 ∷ []))

dotted_rest : Bool → List ℕ → List ℕ
dotted_rest first cs = if first then dotted cs else dotted_tail cs

length-component_text : (first : Bool) (c : ℕ) → length (component_text first c) ≤ 11
unfolding decimal
length-component_text true c = omega (arith, length-digits_of 9 c)
length-component_text false c = omega (arith, length-digits_of 9 c)

dotted_rest-cons :
    (first : Bool) (c : ℕ) (cs : List ℕ)
    → dotted_rest first (c ∷ cs) ≡ component_text first c ++ dotted_tail cs
unfolding dotted_rest
dotted_rest-cons true c cs = refl
dotted_rest-cons false c cs = refl

-- The text is cut in the component that is printed.
cut-Shows :
    (p text tail buffer : List ℕ) (size : ℕ)
    → length p < size
    → size ≤ length buffer
    → size < 2 ^ 63
    → take (length p) buffer ≡ p
    → size ≤ length p + length text
    → Shows (p ++ (text ++ tail)) size (some (printed p text buffer size, length p + length text))
cut-Shows p text tail buffer size free there small kept full =
    let same : take (size - 1) (p ++ (text ++ tail)) ≡ p ++ part p text size =
      take-behind (size - 1) p (text ++ tail) (omega arith)
      ∙ ap (λ l. p ++ l) (take-front (size - 1 - length p) text tail (omega arith)) in
    record {
      array = printed p text buffer size;
      count = length p + length text;
      given = refl;
      shown = rw same (take-printed p text buffer size free there small kept);
      whole = λ h. absurd (omega (arith, length-append p (text ++ tail), length-append text tail));
      cut = λ h. full;
    }

end-Shows :
    (p buffer : List ℕ) (size : ℕ)
    → length p < size
    → take (length p + 1) buffer ≡ p ++ (0 ∷ [])
    → Shows p size (some (buffer, length p))
end-Shows p buffer size free ended =
    let all : take (size - 1) p ≡ p = take-all (size - 1) p (omega arith) in
    record {
      array = buffer;
      count = length p;
      given = refl;
      shown = rw all ended;
      whole = λ _. refl;
      cut = λ h. h;
    }

take-shorter :
    (p q xs : List ℕ) (n : ℕ) → length p ≤ n → take n xs ≡ p ++ q → take (length p) xs ≡ p
take-shorter [] q xs n few h = refl
take-shorter (x ∷ p) q xs zero few h = absurd (omega arith)
take-shorter (x ∷ p) q [] (suc n) few h = cc
take-shorter (x ∷ p) q (y ∷ ys) (suc n) few h =
    let first : y ≡ x = cc in
    let rest : take n ys ≡ p ++ q = cc in rw (first, take-shorter p q ys n (omega arith) rest)

-- The loop with the text `p` written, at a component or at the end, where its zero stands behind it.
to_string_loop-Shows :
    (first : Bool) (cs p buffer : List ℕ) (size : ℕ)
    → length p < size
    → size ≤ length buffer
    → size < 2 ^ 63
    → take (length p) buffer ≡ p
    → (cs ≡ [] → take (length p + 1) buffer ≡ p ++ (0 ∷ []))
    → Shows (p ++ dotted_rest first cs) size (to_string_loop first cs buffer (length p) size)
unfolding to_string_loop dotted_rest
to_string_loop-Shows true [] p buffer size free there small kept ended =
    rw append-nil (end-Shows p buffer size free (ended refl))
to_string_loop-Shows false [] p buffer size free there small kept ended =
    rw append-nil (end-Shows p buffer size free (ended refl))
to_string_loop-Shows first (c ∷ cs) p buffer size free there small kept ended =
    let text = component_text first c in
    let sum : add_size (length p) (length text) ≡ length p + length text =
      omega (arith, length-component_text first c) in
    rw
      (
        dotted_rest-cons first c cs,
        to_string_loop,
        snprintf-printed p text buffer size free there small kept,
        sum,
      )
      (elim (Bool-cases (leb size (length p + length text))) [
        | inl full ↦
            rw full
              (cut-Shows p text (dotted_tail cs) buffer size free there small kept (ground arith))
        | inr fits ↦
            let room : length p + length text < size = ground arith in
            let all : part p text size ≡ text = take-all (size - 1 - length p) text (omega arith) in
            let whole : length (p ++ text) ≡ length p + length text = length-append p text in
            let after : take (length (p ++ text) + 1) (printed p text buffer size)
                ≡ (p ++ text) ++ (0 ∷ []) =
              rw all at (take-printed p text buffer size free there small kept) in
            rw (fits, ← whole, ← append_assoc p text (dotted_tail cs))
              (to_string_loop-Shows false cs (p ++ text) (printed p text buffer size) size
                (omega (arith, whole))
                (omega (arith, length-printed p text buffer size free there small kept)) small
                (take-shorter (p ++ text) (0 ∷ []) (printed p text buffer size)
                  (length (p ++ text) + 1) (omega arith) after)
                (λ _. after))
      ])

-- asn1_oid_to_string() returns for every identifier, without a write outside the array. It leaves the
-- components in decimal with points between them, cut to the size with a zero behind them, and returns
-- the length of the text where it fits, and a number from the size on where it is cut. The size is not
-- 0, is below 2 ^ 63 and lies within the array.
pub oid_to_string-Shows :
    (oid buffer : List ℕ) (size : ℕ)
    → 0 < size
    → size ≤ length buffer
    → size < 2 ^ 63
    → Shows (dotted oid) size (oid_to_string oid buffer size)
unfolding oid_to_string dotted_rest
oid_to_string-Shows [] buffer size some_room there small =
    rw (lt→ltb 0 size some_room, le→leb 1 (length buffer) (omega arith))
      (end-Shows [] (splice buffer 0 (0 ∷ [])) size some_room
        (take-splice buffer 0 (0 ∷ []) 1 refl (omega arith)))
oid_to_string-Shows (c ∷ cs) buffer size some_room there small =
    to_string_loop-Shows true (c ∷ cs) [] buffer size some_room there small refl (λ e. cc)
