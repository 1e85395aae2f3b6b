-- ===== src/Parser/Content.antt =====
-- asn1_parser.c: parse_node() below its depth test reads a value of the grammar.
use asn.Base.{
  ℕ, suc, ◌+◌, ◌%◌, ◌^◌, ◌≤◌, ◌<◌, ◌≡◌, refl, ap, sym, ◌∙◌, Bool, true, false, not, ◌&&◌, none,
  some, List, [], ◌∷◌, ◌++◌, length, drop, arith, sub_size, size_mod, Returns, Returns-bind,
  Returns-mono, Returns-with, raised, Returns-if_op,
}
use asn.Error.{Op}
use asn.Identifier.{Identifier}
use asn.Buffer.{Buffer, Pointer, read_bytes}
use asn.Parser.Header.{EncodingRules, Length, definite, indefinite, parse_identifier, parse_length}
use asn.Parser.HeaderSound.{TakesTag, TakesLength, parse_identifier-Takes, parse_length-Takes}
use asn.Parser.Node.{
  Node, ParseState, Header, max_depth, parse_primitive, parse_constructed, parse_content, parse_tlv,
  constructed_node, primitive_node, is_indefinite,
}
use asn.Parser.Safety.{read_bytes-Reading, parse_identifier-Reading, parse_length-Reading}
use asn.Parser.Canonical.{Takes, Takes-append}
use asn.Parser.Grammar.{
  IsHeader, IsValue, flat_value, nested_value, open_value, flat_node, nested_node,
}
use asn.Parser.Storing.{
  IsSound, Stores, Stores-mono, Stores-later, Stores-on_buf, Stores-add_node, finish_node-Stores,
}
use asn.Parser.Yields.{IsArray, Takes-IsArray, Takes-offset, Means, read_bytes-Takes}
use asn.Parser.Meaning.{YieldingOne, MeansOne, IsContent}
use asn.Parser.Rows.{parse_children-Yields}

-- The header of a value that begins at `b`, with the reader behind it.
record Begins (rules : EncodingRules) (depth : ℕ) (h : Header) (b u : Buffer) : Type 0 where
  start : h.start_offset ≡ b.offset
  pointer : h.start_ptr ≡ drop b.offset b.input
  level : h.depth ≡ depth
  headed :
      IsArray b
      → (head : List ℕ) × Takes b head u × IsHeader rules head h.identifier h.constructed h.length

-- What stands between two readers, whose difference is its length.
taken_length :
    {b c : Buffer} (xs : List ℕ) → IsArray b → Takes b xs c → sub_size c.offset b.offset ≡ length xs
taken_length xs a took =
    omega (arith, a.short, took.inside a.inside, Takes-offset took, ap (λ c. c.length) took.end_at)

primitive_node-flat :
    {rules : EncodingRules} {depth : ℕ} {b u c : Buffer} (h : Header) (n : ℕ) (ptr : Pointer)
    (head xs : List ℕ)
    → Begins rules depth h b u
    → IsArray b
    → Takes b head u
    → Takes u xs c
    → length xs ≡ n
    → ptr ≡ drop u.offset u.input
    → primitive_node h ptr n (sub_size c.offset h.start_offset)
      ≡ flat_node h.identifier depth (head ++ xs) xs (drop c.offset c.input)
primitive_node-flat {b = b} {c = c} h n ptr head xs begun a took took' size at_content =
    let whole : Takes b (head ++ xs) c = Takes-append head xs took took' in
    let first : h.start_ptr ≡ (head ++ xs) ++ drop c.offset c.input = begun.pointer ∙ whole.bytes in
    let bytes : sub_size c.offset h.start_offset ≡ length (head ++ xs) =
      ap (sub_size c.offset) begun.start ∙ taken_length (head ++ xs) a whole in
    let content : ptr ≡ xs ++ drop c.offset c.input = at_content ∙ took'.bytes in
    rw (first, bytes, content, begun.level, sym size)

constructed_node-nested :
    {rules : EncodingRules} {depth : ℕ} {b u c : Buffer} (h : Header) (xs : List ℕ)
    (below : List Node)
    → Begins rules depth h b u
    → IsArray b
    → Takes b xs c
    → record (constructed_node h) {
      subtree_size = suc (length below) % size_mod;
      encoded_length = sub_size c.offset h.start_offset;
    }
      ≡ nested_node h.identifier depth xs (drop c.offset c.input) below
constructed_node-nested {c = c} h xs below begun a took =
    let first : h.start_ptr ≡ xs ++ drop c.offset c.input = begun.pointer ∙ took.bytes in
    let bytes : sub_size c.offset h.start_offset ≡ length xs =
      ap (sub_size c.offset) begun.start ∙ taken_length xs a took in
    rw (first, bytes, begun.level)

module _ (rules : EncodingRules) (depth : ℕ) (low : depth ≤ max_depth) where
  Means-flat :
      {b u c : Buffer} (h : Header) (n : ℕ) (ptr : Pointer) (ns : List Node)
      → Begins rules depth h b u
      → h.constructed ≡ false
      → h.length ≡ definite n
      → (IsArray u × (n < 2 ^ 63)
          → (xs : List ℕ) × Takes u xs c × (length xs ≡ n) × (ptr ≡ drop u.offset u.input))
      → ns ≡ primitive_node h ptr n (sub_size c.offset h.start_offset) ∷ []
      → MeansOne (IsValue rules depth) b c ns
  Means-flat {c = c} h n ptr ns begun flat len f one = (
    rw one (omega arith),
    λ a fits.
        let (head, took, header) = begun.headed a in
        let (few, _) = rw one at fits in
        let (xs, took', size, at_content) = f (Takes-IsArray a took, few) in
        (
          head ++ xs,
          Takes-append head xs took took',
          flat_value head xs h.identifier low (headed head xs flat len size header) refl (
              one
              ∙ ap (λ m. m ∷ [])
                  (primitive_node-flat h n ptr head xs begun a took took' size at_content)),
        ),
  )
    where
      headed :
          {id : Identifier} {k : Bool} {l : Length} {n : ℕ} (head xs : List ℕ)
          → k ≡ false
          → l ≡ definite n
          → length xs ≡ n
          → IsHeader rules head id k l
          → IsHeader rules head id false (definite (length xs))
      headed head xs e f g header = rw g (rw (e, f) at header)

  -- A constructed value, from the header and the content.
  IsValue-below :
      {xs rest : List ℕ} (head content : List ℕ) (id : Identifier) (len : Length)
      (below : List Node)
      → IsHeader rules head id true len
      → IsContent rules (depth + 1) len content rest below
      → xs ≡ head ++ content
      → IsValue rules depth xs rest (nested_node id depth xs rest below ∷ below)
  IsValue-below head content id (definite n) below header (size, row) e =
      nested_value head content id below low (rw size header) row e refl
  IsValue-below head content id indefinite below header (ys, f, row) e =
      open_value head ys id below low header row (e ∙ ap (λ l. head ++ l) f) refl

  Means-nested :
      {b u c : Buffer} (h : Header) (below : List Node)
      → Begins rules depth h b u
      → h.constructed ≡ true
      → Means (IsContent rules (depth + 1) h.length) u c below
      → MeansOne (IsValue rules depth) b c (
          record (constructed_node h) {
            subtree_size = suc (length below) % size_mod;
            encoded_length = sub_size c.offset h.start_offset;
          }
          ∷ below)
  Means-nested {c = c} h below begun nested f = (
    omega arith,
    λ a (_, fits).
        let (head, took, header) = begun.headed a in
        let (content, took', inner) = f (Takes-IsArray a took) fits in
        let whole = Takes-append head content took took' in
        (
          head ++ content,
          whole,
          rw (constructed_node-nested h (head ++ content) below begun a whole) (
              IsValue-below head content h.identifier h.length below (rw nested at header) inner
                refl),
        ),
  )

  -- `s` is the state behind the header, and `b` where the value begins.
  parse_primitive-Yields :
      (h : Header) (b : Buffer) (n : ℕ) (s : ParseState)
      → Begins rules depth h b s.buf
      → h.constructed ≡ false
      → h.length ≡ definite n
      → IsSound s
      → Returns
          (λ _ t. Stores (MeansOne (IsValue rules depth) b t.buf) s t)
          IsSound
          (parse_primitive h (definite n) s)
  unfolding parse_primitive
  parse_primitive-Yields h b n s begun flat len k =
      Returns-bind
        (Stores-on_buf
          {P = λ p c.
            IsArray s.buf × (n < 2 ^ 63)
            → (ptr : Pointer) → p ≡ some ptr
            → (xs : List ℕ) × Takes s.buf xs c
              × (length xs ≡ n)
              × (ptr ≡ drop s.buf.offset s.buf.input)}
          (read_bytes n) s k
          (Returns-with (read_bytes-Reading n s.buf k.readable)
            (λ (a, few). read_bytes-Takes s.buf n a few)))
        (elim [
          | none ↦ λ t (g, f). raised g.sound
          | some ptr ↦ λ t (g, f).
              Returns-mono
                (λ _ u (g', same). Stores-later g (
                  Stores-mono
                    (λ ns one.
                      rw same (Means-flat h n ptr ns begun flat len (λ l. f l ptr refl) one))
                    g'))
                (Stores-add_node (primitive_node h ptr n (sub_size t.buf.offset h.start_offset)) t
                  g.sound)
        ])

  module _ (child : Op ParseState (Unit {0}))
      (one_more : YieldingOne (IsValue rules (depth + 1)) child) where
    parse_constructed-Yields :
        (h : Header) (b : Buffer) (s : ParseState)
        → Begins rules depth h b s.buf
        → h.constructed ≡ true
        → IsSound s
        → Returns
            (λ _ t. Stores (MeansOne (IsValue rules depth) b t.buf) s t)
            IsSound
            (parse_constructed child h s)
    unfolding parse_constructed
    parse_constructed-Yields h b s begun nested k =
        Returns-bind (Stores-add_node (constructed_node h) s k) λ _ t (g, same).
          Returns-bind (parse_children-Yields child rules (depth + 1) one_more h.length t g.sound)
            λ _ u g'.
              Returns-mono (λ _ v (g'', same'). rw (← same') at g'')
                (finish_node-Stores {Q = MeansOne (IsValue rules depth) b u.buf}
                  (constructed_node h) h.start_offset s t u k
                  (λ ms row. Means-nested h ms begun nested (rw same at row)) g g')

    parse_content-Yields :
        (h : Header) (b : Buffer) (s : ParseState)
        → Begins rules depth h b s.buf
        → IsSound s
        → Returns
            (λ _ t. Stores (MeansOne (IsValue rules depth) b t.buf) s t)
            IsSound
            (parse_content child h s)
    unfolding parse_content parse_primitive
    parse_content-Yields h b s begun k =
        Returns-if_op (is_indefinite h.length && not h.constructed) _ _ s (λ _. raised k)
          λ _.
            Returns-if_op h.constructed _ _ s
              (λ nested. parse_constructed-Yields h b s begun nested k)
              (λ flat. of_length h.length flat refl)
      where
        of_length :
            (l : Length)
            → h.constructed ≡ false
            → h.length ≡ l
            → Returns
                (λ _ t. Stores (MeansOne (IsValue rules depth) b t.buf) s t)
                IsSound
                (parse_primitive h l s)
        of_length (definite n) flat len = parse_primitive-Yields h b n s begun flat len k
        of_length indefinite flat len = raised k

    pub parse_tlv-Yields : YieldingOne (IsValue rules depth) (parse_tlv child rules depth)
    unfolding parse_tlv
    parse_tlv-Yields s k =
        Returns-bind
          (Stores-on_buf {P = λ i c. IsArray s.buf → TakesTag [] s.buf i c} parse_identifier s k (
            Returns-with (parse_identifier-Reading s.buf k.readable)
              (λ a. parse_identifier-Takes s.buf a.over)))
          λ (identifier, composite) t (g, f).
            Returns-bind
              (Stores-on_buf {P = λ l c. IsArray t.buf → TakesLength rules [] t.buf l c}
                (parse_length rules) t g.sound
                (Returns-with (parse_length-Reading rules t.buf g.sound.readable)
                  (λ a. parse_length-Takes rules t.buf a.over)))
              λ len u (g', f').
                Returns-mono (λ _ v g''. Stores-later g (Stores-later g' g''))
                  (parse_content-Yields _ s.buf u
                    (record {
                      start = refl;
                      pointer = refl;
                      level = refl;
                      headed = λ a.
                          let (xs, took, tag) = f a in
                          let (ys, took', size) = f' (Takes-IsArray a took) in
                          (
                            xs ++ ys,
                            Takes-append xs ys took took',
                            record {
                              tag_bytes = xs;
                              length_bytes = ys;
                              parts = refl;
                              tag = tag;
                              size = size;
                            },
                          );
                    })
                    g'.sound)
