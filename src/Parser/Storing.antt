-- ===== src/Parser/Storing.antt =====
-- asn1_parser.c: what the steps of parse_node() add to the array of nodes. They return on every
-- input, and no access leaves an array.
use asn.Base.{
  ℕ, zero, suc, ◌+◌, ◌%◌, size_mod, sub_size, ◌≤◌, ◌<◌, ◌≡◌, refl, ap, sym, ◌∙◌, some, List, [],
  ◌∷◌, ◌++◌, append_assoc, append-nil, length, length-append, take, modify, store-splice,
  take-splice, length-splice, leb, arith, Outcome, Returns-mono, done, failed, fault, out_of_fuel,
  Returns, returned, raised, Bool-cases, inl, inr, length-take,
}
use asn.Error.{Error, Op}
use asn.Buffer.{Buffer}
use asn.Parser.Node.{
  Node, ParseState, ParseResult, into_buf, on_buf, on_result, add_node, finish_node,
}
use asn.Parser.Safety.{IsReadable, Reading}

-- The lengths that the caller gave are those of the arrays, and the count fits.
pub record IsSound (s : ParseState) : Type 0 where
  pub readable : s.buf.length ≤ length s.buf.input
  pub writable : s.result.capacity ≤ length s.result.nodes
  pub filled : s.result.count ≤ s.result.capacity

-- The nodes that are stored.
abbrev pub stored : ParseResult → List Node
stored r = take r.count r.nodes

-- `t` follows `s` with more nodes stored, as `P` says, behind those of `s`.
pub record Stores (P : List Node → Type 0) (s t : ParseState) : Type 0 where
  pub sound : IsSound t
  pub same_capacity : t.result.capacity ≡ s.result.capacity
  pub added : List Node
  pub behind : stored t.result ≡ stored s.result ++ added
  pub grown : t.result.count ≡ s.result.count + length added
  pub shape : P added

abbrev pub Storing : {A : Type 0} → (List Node → Type 0) → Op ParseState A → Type 0
Storing P m = (s : ParseState) → IsSound s → Returns (λ _ t. Stores P s t) IsSound (m s)

abbrev pub IsNone : List Node → Type 0
IsNone ns = ns ≡ []

pub Stores-trans :
    {P Q R : List Node → Type 0} {s t u : ParseState}
    → ((ns ms : List Node) → P ns → Q ms → R (ns ++ ms))
    → Stores P s t
    → Stores Q t u
    → Stores R s u
Stores-trans {s = s} k f g = record {
  sound = g.sound;
  same_capacity = g.same_capacity ∙ f.same_capacity;
  added = f.added ++ g.added;
  behind =
      g.behind ∙ ap (λ l. l ++ g.added) f.behind ∙ append_assoc (stored s.result) f.added g.added;
  grown = omega (arith, f.grown, g.grown, length-append f.added g.added);
  shape = k f.added g.added f.shape g.shape;
}

pub Stores-mono :
    {P Q : List Node → Type 0} {s t : ParseState}
    → ((ns : List Node) → P ns → Q ns)
    → Stores P s t
    → Stores Q s t
Stores-mono k f = record {
  sound = f.sound;
  same_capacity = f.same_capacity;
  added = f.added;
  behind = f.behind;
  grown = f.grown;
  shape = k f.added f.shape;
}

-- Behind a step that adds nothing.
pub Stores-later :
    {P : List Node → Type 0} {s t u : ParseState} → Stores IsNone s t → Stores P t u → Stores P s u
Stores-later {P = P} f g = Stores-trans shift f g
  where
    shift : (ns ms : List Node) → ns ≡ [] → P ms → P (ns ++ ms)
    shift ns ms e p = rw e p

-- An operation on the reader, with what it says of its result.
pub Stores-on_buf :
    {A : Type 0} {P : A → Buffer → Type 0} (m : Op Buffer A) (s : ParseState)
    → IsSound s
    → Returns (λ a c. IsReadable c × P a c) IsReadable (m s.buf)
    → Returns (λ a t. Stores IsNone s t × P a t.buf) IsSound (on_buf m s)
Stores-on_buf {A} {P} m s h = go (m s.buf)
  where
    go :
        (r : Outcome Error Buffer A)
        → Returns (λ a c. IsReadable c × P a c) IsReadable r
        → Returns (λ a t. Stores IsNone s t × P a t.buf) IsSound (into_buf s r)
    go (done a b) (returned (p, q)) = returned (
      record {
        sound = record { readable = p; writable = h.writable; filled = h.filled };
        same_capacity = refl;
        added = [];
        behind = sym (append-nil _);
        grown = omega arith;
        shape = refl;
      },
      q,
    )
    go (failed e b) (raised p) =
        raised (record { readable = p; writable = h.writable; filled = h.filled })
    go fault p = elim p [ ]
    go out_of_fuel p = elim p [ ]

pub Storing-on_buf : {A : Type 0} (m : Op Buffer A) → Reading m → Storing IsNone (on_buf m)
Storing-on_buf m hm s h =
    Returns-mono (λ a t (f, _). f)
      (Stores-on_buf {P = λ _ _. Unit {0}} m s h
        (Returns-mono (λ a c k. (k, tt)) (hm s.buf h.readable)))

pub Stores-add_node :
    (n : Node) (s : ParseState)
    → IsSound s
    → Returns
        (λ _ t. Stores (λ ns. ns ≡ n ∷ []) s t × (t.buf ≡ s.buf))
        IsSound
        (on_result (add_node n) s)
unfolding add_node
Stores-add_node n s h = elim (Bool-cases (leb s.result.capacity s.result.count)) [
  | inl full ↦ rw full (raised h)
  | inr free ↦
      let below : s.result.count < length s.result.nodes = ground arith in
      rw (free, store-splice s.result.nodes s.result.count n below)
        (returned (
          record {
            sound = ground (arith, length-splice s.result.nodes s.result.count (n ∷ []));
            same_capacity = refl;
            added = n ∷ [];
            behind =
                take-splice s.result.nodes s.result.count (n ∷ []) (s.result.count + 1) refl
                  (omega (arith, below));
            grown = omega arith;
            shape = refl;
          },
          refl,
        ))
]

pub Storing-add_node : (n : Node) → Storing (λ ns. ns ≡ n ∷ []) (on_result (add_node n))
Storing-add_node n s h = Returns-mono (λ _ _ (f, _). f) (Stores-add_node n s h)

-- A cell of the array changed in place, behind the cells of `front`.
modify-take :
    (xs : List Node) (n : ℕ) (front : List Node) (v : Node) (ms : List Node) (i : ℕ)
    (f : Node → Node)
    → take n xs ≡ front ++ (v ∷ ms)
    → i ≡ length front
    → (ys : List Node) × (modify xs i f ≡ some ys)
      × (length ys ≡ length xs)
      × (take n ys ≡ front ++ (f v ∷ ms))
modify-take xs zero [] v ms i f h e = cc
modify-take xs zero (x ∷ front) v ms i f h e = cc
modify-take [] (suc n) [] v ms i f h e = cc
modify-take [] (suc n) (x ∷ front) v ms i f h e = cc
modify-take (x ∷ xs) (suc n) [] v ms zero f h e =
    let first : x ≡ v = cc in
    let rest : take n xs ≡ ms = cc in (f x ∷ xs, refl, refl, rw (first, rest))
modify-take (x ∷ xs) (suc n) [] v ms (suc i) f h e = absurd (omega arith)
modify-take (x ∷ xs) (suc n) (y ∷ front) v ms zero f h e = absurd (omega arith)
modify-take (x ∷ xs) (suc n) (y ∷ front) v ms (suc i) f h e =
    let first : x ≡ y = cc in
    let rest : take n xs ≡ front ++ (v ∷ ms) = cc in
    let (ys, e1, e2, e3) = modify-take xs n front v ms i f rest (omega arith) in
    (x ∷ ys, rw e1, omega (arith, e2), rw (first, e3))

-- finish_node() on the node that the step before added.
pub finish_node-Stores :
    {P Q : List Node → Type 0} (n : Node) (start_offset : ℕ) (s t u : ParseState)
    → IsSound s
    → ((ms : List Node)
        → P ms
        → Q (
            record n {
              subtree_size = suc (length ms) % size_mod;
              encoded_length = sub_size u.buf.offset start_offset;
            }
            ∷ ms))
    → Stores (λ ns. ns ≡ n ∷ []) s t
    → Stores P t u
    → Returns
        (λ _ v. Stores Q s v × (v.buf ≡ u.buf))
        IsSound
        (finish_node s.result.count start_offset u)
unfolding finish_node
finish_node-Stores n start_offset s t u h k f g =
    let index = s.result.count in
    let change : Node → Node = λ m. record m {
      subtree_size = sub_size u.result.count index;
      encoded_length = sub_size u.buf.offset start_offset;
    } in
    let whole : stored u.result ≡ stored s.result ++ (n ∷ g.added) =
      g.behind
      ∙ ap (λ l. l ++ g.added) (f.behind ∙ ap (λ l. stored s.result ++ l) f.shape)
      ∙ append_assoc (stored s.result) (n ∷ []) g.added in
    let (ys, ran, len, kept) =
      modify-take u.result.nodes u.result.count (stored s.result) n g.added index change whole
        (sym (length-take index s.result.nodes (omega arith))) in
    let one : length f.added ≡ 1 = ap length f.shape in
    let size : sub_size u.result.count index ≡ suc (length g.added) % size_mod =
      omega (arith, f.grown, g.grown, one) in
    let last : change n ≡ record n {
      subtree_size = suc (length g.added) % size_mod;
      encoded_length = sub_size u.buf.offset start_offset;
    } =
      ap (λ k. record n { subtree_size = k; encoded_length = sub_size u.buf.offset start_offset })
        size in
    rw ran (
      returned (
        record {
          sound = omega (arith, len, g.sound.readable, g.sound.writable, g.sound.filled);
          same_capacity = g.same_capacity ∙ f.same_capacity;
          added = change n ∷ g.added;
          behind = kept;
          grown = omega (arith, f.grown, g.grown, one);
          shape = rw last (k g.added g.shape);
        },
        refl,
      ))
