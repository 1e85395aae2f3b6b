-- ===== src/Buffer/Reads.antt =====
-- What the reader has before it, and operations that read a known run of bytes.
use asn.Base.{
  ℕ, ◌+◌, ◌≤◌, ◌<◌, ◌≡◌, refl, sym, ap, ◌∙◌, true, some, List, [], ◌∷◌, ◌++◌, append_assoc,
  append-nil, length, length-append, get_elem?-drop, drop, drop-add, drop-append, size_mod,
  add_size, arith, done, bind, lt→leb, le→ltb,
}
use asn.Error.{Op, ErrorCode}
use asn.Base.{String}
use asn.Buffer.{Buffer, read_byte, need_byte, peek_byte, skip, read_bytes, buffer_remaining}

-- The reader `b` stands before the bytes `xs`, which end the input; the input is within the
-- address space.
pub record IsBefore (b : Buffer) (xs : List ℕ) : Type 0 where
  pub whole : b.length ≡ length b.input
  pub small : b.length < size_mod
  pub rest : drop b.offset b.input ≡ xs
  pub left : b.offset + length xs ≡ b.length

abbrev pub advance : Buffer → ℕ → Buffer
advance b n = record b { offset = b.offset + n }

pub advance-advance : (b : Buffer) (n m k : ℕ) → k ≡ n + m → advance (advance b n) m ≡ advance b k
advance-advance b n m k h = ap (λ o. record b { offset = o }) (omega arith)

pub IsBefore-advance :
    (b : Buffer) (xs ys : List ℕ) → IsBefore b (xs ++ ys) → IsBefore (advance b (length xs)) ys
IsBefore-advance b xs ys h = record {
  whole = h.whole;
  small = h.small;
  rest =
      sym (drop-add b.offset (length xs) (b.offset + length xs) b.input refl)
      ∙ ap (drop (length xs)) h.rest
      ∙ drop-append xs ys;
  left = omega (arith, length-append xs ys, h.left);
}

pub IsBefore-init :
    (xs : List ℕ)
    → length xs < size_mod
    → IsBefore (record { input = xs; length = length xs; offset = 0 }) xs
IsBefore-init xs h = record { whole = refl; small = h; rest = refl; left = omega arith }

-- `m` reads `xs` off any input that begins with it, and returns `a`.
abbrev pub Reads : {A : Type 0} → Op Buffer A → List ℕ → A → Type 0
Reads m xs a =
    (b : Buffer) (ys : List ℕ) → IsBefore b (xs ++ ys) → m b ≡ done a (advance b (length xs))

pub Reads-return : {A : Type 0} (a : A) → Reads (λ b. done a b) [] a
Reads-return a b ys h = ap (λ o. done a (record b { offset = o })) (omega arith)

pub Reads-bind :
    {A B : Type 0} {m : Op Buffer A} (xs : List ℕ) (a : A) (f : A → Op Buffer B) (ys : List ℕ)
    {c : B}
    → Reads m xs a
    → Reads (f a) ys c
    → Reads (λ b. bind (m b) f) (xs ++ ys) c
Reads-bind xs a f ys {c = c} hm hf b zs h =
    ap (λ r. bind r f) (hm b (ys ++ zs) h')
    ∙ hf (advance b (length xs)) zs (IsBefore-advance b xs (ys ++ zs) h')
    ∙ ap (done c) (advance-advance b (length xs) (length ys) _ (length-append xs ys))
  where
    h' : IsBefore b (xs ++ (ys ++ zs))
    h' = rw (← append_assoc xs ys zs) h

-- Where the rest of the operation reads nothing.
pub Reads-last :
    {A B : Type 0} {m : Op Buffer A} (xs : List ℕ) (a : A) (f : A → Op Buffer B) {c : B}
    → Reads m xs a
    → Reads (f a) [] c
    → Reads (λ b. bind (m b) f) xs c
Reads-last xs a f {c} hm hf = rw (append-nil xs) at (Reads-bind xs a f [] {c = c} hm hf)

pub read_byte-Reads : (x : ℕ) → Reads read_byte (x ∷ []) (some x)
unfolding read_byte
read_byte-Reads x b ys h =
    let inside : b.offset < b.length = omega (arith, h.left) in
    let step : add_size b.offset 1 ≡ b.offset + 1 = omega (arith, h.small) in
    rw (lt→leb b.length b.offset inside, get_elem?-drop b.input b.offset h.rest, step)

pub need_byte-Reads : (c : ErrorCode) (m : String) (x : ℕ) → Reads (need_byte c m) (x ∷ []) x
unfolding need_byte
need_byte-Reads c m x b ys h = rw (read_byte-Reads x b ys h)

pub peek_byte-IsBefore :
    (b : Buffer) (x : ℕ) (xs : List ℕ) → IsBefore b (x ∷ xs) → peek_byte b ≡ done (some x) b
unfolding peek_byte
peek_byte-IsBefore b x xs h =
    let inside : b.offset < b.length = omega (arith, h.left) in
    rw (lt→leb b.length b.offset inside, get_elem?-drop b.input b.offset h.rest)

pub read_bytes-IsBefore :
    (b : Buffer) (xs ys : List ℕ)
    → IsBefore b (xs ++ ys)
    → read_bytes (length xs) b ≡ done (some (xs ++ ys)) (advance b (length xs))
unfolding read_bytes
read_bytes-IsBefore b xs ys h =
    let fits : b.offset + length xs ≤ b.length = omega (arith, h.left, length-append xs ys) in
    let step : add_size b.offset (length xs) ≡ b.offset + length xs = omega (arith, h.small) in
    rw (step, le→ltb b.length (b.offset + length xs) fits, h.rest)

pub skip-IsBefore :
    (b : Buffer) (xs ys : List ℕ)
    → IsBefore b (xs ++ ys)
    → skip (length xs) b ≡ done true (advance b (length xs))
unfolding skip
skip-IsBefore b xs ys h =
    let fits : b.offset + length xs ≤ b.length = omega (arith, h.left, length-append xs ys) in
    let step : add_size b.offset (length xs) ≡ b.offset + length xs = omega (arith, h.small) in
    rw (step, le→ltb b.length (b.offset + length xs) fits)

pub remaining-IsBefore : (b : Buffer) (xs : List ℕ) → IsBefore b xs → buffer_remaining b ≡ length xs
remaining-IsBefore b xs h = omega (arith, h.left, h.small)
