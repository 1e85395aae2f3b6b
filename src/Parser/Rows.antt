-- ===== src/Parser/Rows.antt =====
-- asn1_parser.c: the loops of parse_node() read rows of values.
use asn.Base.{
  ℕ, zero, suc, ◌-◌, ◌≤◌, ◌<◌, ◌≡◌, refl, sym, ◌∙◌, true, false, List, [], ◌∷◌, append-nil, drop,
  ltb, leb, ◌==◌, ==→eq, arith, add_size, ◌>>◌, return, Returns, Returns-bind, Returns-mono,
  Returns-with, returned, raised, Returns-if,
}
use asn.Error.{Op}
use asn.Buffer.{Buffer, buffer_remaining, skip}
use asn.Parser.Header.{EncodingRules, Length, definite, indefinite}
use asn.Parser.Node.{
  Node, ParseState, on_buf, rounds, definite_loop, indefinite_loop, check_end, at_end_marker,
  parse_definite_children, parse_indefinite_children, parse_children,
}
use asn.Parser.Safety.{at_end_marker-Keeps, skip-Reading}
use asn.Parser.Canonical.{Takes}
use asn.Parser.Grammar.{IsValue, IsValues, is_end_marker}
use asn.Parser.Storing.{
  IsSound, Stores, IsNone, Stores-trans, Stores-mono, Stores-later, Stores-on_buf,
}
use asn.Parser.Yields.{IsArray, Means, at_end_marker-Marks, skip-Takes}
use asn.Parser.Meaning.{
  Yields, YieldsOne, YieldingOne, IsMarked, IsContent, Means-front, Means-front-IsMarked,
  Means-none, Means-marker, Means-exact,
}

Yields-none : {s : ParseState} {P : List Node → Type 0} → IsSound s → P [] → Stores P s s
Yields-none h p = record {
  sound = h;
  same_capacity = refl;
  added = [];
  behind = sym (append-nil _);
  grown = omega arith;
  shape = p;
}

-- A step whose start has the reader of another.
from :
    (V : List ℕ → List ℕ → List Node → Type 0) (b : Buffer) {s u : ParseState}
    → b ≡ s.buf
    → Stores (Means V b u.buf) s u
    → Yields V s u
from V b same g = rw same at g

-- The child is parse_node() one level down.
module _ (child : Op ParseState (Unit {0})) (rules : EncodingRules) (depth : ℕ)
    (one_more : YieldingOne (IsValue rules depth) child) where
  -- A value takes a free cell.
  fewer :
      {fuel : ℕ} {s t : ParseState}
      → YieldsOne (IsValue rules depth) s t
      → s.result.capacity - s.result.count < suc fuel
      → t.result.capacity - t.result.count < fuel
  fewer g few =
      let (pos, _) = g.shape in omega (arith, pos, g.grown, g.same_capacity, g.sound.filled)

  definite_loop-Yields :
      (fuel end_offset : ℕ) (s : ParseState)
      → IsSound s
      → s.result.capacity - s.result.count < fuel
      → Returns
          (λ _ t. Yields (IsValues rules false depth) s t)
          IsSound
          (definite_loop child fuel end_offset s)
  unfolding definite_loop
  definite_loop-Yields zero end_offset s h few = absurd (omega arith)
  definite_loop-Yields (suc fuel) end_offset s h few =
      Returns-if (ltb s.buf.offset end_offset)
        (λ _. Returns-bind (one_more s h) λ _ t g.
          Returns-mono (λ _ u g'. Stores-trans (Means-front rules depth) g g')
            (definite_loop-Yields fuel end_offset t g.sound (fewer g few)))
        (λ _. returned (Yields-none h (Means-none rules depth s.buf)))

  skip_marker :
      (s : ParseState)
      → IsSound s
      → 2 ≤ buffer_remaining s.buf
      → (IsArray s.buf → is_end_marker (drop s.buf.offset s.buf.input) ≡ true)
      → Returns (λ _ t. Yields (IsMarked rules depth) s t) IsSound (on_buf (do skip 2; return tt) s)
  skip_marker s h left marked =
      Returns-mono (λ _ t (g, took). Stores-mono (λ ns e. rw e (Means-marker rules depth took)) g)
        (Stores-on_buf {P = λ _ c. IsArray s.buf → Takes s.buf (0 ∷ 0 ∷ []) c}
          (do skip 2; return tt) s h
          (Returns-bind
            (Returns-with (skip-Reading 2 s.buf h.readable)
              (λ a. skip-Takes s.buf a left (marked a)))
            (λ _ c k. returned k)))

  -- What at_end_marker() says, where it changes nothing.
  marker_of :
      (s : ParseState)
      → IsSound s
      → 2 ≤ buffer_remaining s.buf
      → Returns
          (λ marker t.
            Stores IsNone s t
            × ((t.buf ≡ s.buf)
                × (IsArray s.buf → marker ≡ is_end_marker (drop s.buf.offset s.buf.input))))
          IsSound
          (on_buf at_end_marker s)
  marker_of s h left =
      Stores-on_buf
        {P = λ marker c.
          (c ≡ s.buf) × (IsArray s.buf → marker ≡ is_end_marker (drop s.buf.offset s.buf.input))}
        at_end_marker s h
        (Returns-mono (λ marker c (e, k). (rw e h.readable, (e, λ a. let (_, m) = k a in m)))
          (Returns-with (at_end_marker-Keeps s.buf h.readable)
            (λ a. at_end_marker-Marks s.buf a left)))

  indefinite_loop-Yields :
      (fuel : ℕ) (s : ParseState)
      → IsSound s
      → s.result.capacity - s.result.count < fuel
      → Returns (λ _ t. Yields (IsMarked rules depth) s t) IsSound (indefinite_loop child fuel s)
  unfolding indefinite_loop
  indefinite_loop-Yields zero s h few = absurd (omega arith)
  indefinite_loop-Yields (suc fuel) s h few =
      Returns-if (leb 2 (buffer_remaining s.buf))
        (λ left. Returns-bind (marker_of s h (ground arith)) λ marker t (g, (same, marked)).
          Returns-if marker
            (λ e.
              Returns-mono (λ _ u g'. from (IsMarked rules depth) t.buf same (Stores-later g g'))
                (skip_marker t g.sound (rw same (ground arith))
                  (λ a. rw same (sym (marked (rw same at a)) ∙ e))))
            (λ e. Returns-bind (one_more t g.sound) λ _ u g'.
              Returns-mono
                (λ _ v g''. from (IsMarked rules depth) t.buf same (
                  Stores-later g (
                    Stores-trans
                      (λ ns ms.
                        Means-front-IsMarked rules depth ns ms
                          (λ a. rw same (sym (marked (rw same at a)) ∙ e)))
                      g' g'')))
                (indefinite_loop-Yields fuel u g'.sound
                  (fewer g' (omega (arith, g.grown, g.same_capacity))))))
        (λ _. raised h)

  check_end-Ends :
      (end_offset : ℕ) (s : ParseState)
      → IsSound s
      → Returns
          (λ _ t. Stores IsNone s t × ((t.buf ≡ s.buf) × (s.buf.offset ≡ end_offset)))
          IsSound
          (on_buf (check_end end_offset) s)
  unfolding check_end
  check_end-Ends end_offset s h =
      Stores-on_buf {P = λ _ c. (c ≡ s.buf) × (s.buf.offset ≡ end_offset)} (check_end end_offset) s
        h
        (Returns-if (s.buf.offset == end_offset) (λ e. returned (h.readable, (refl, ==→eq _ _ e)))
          (λ _. raised h.readable))

  pub parse_children-Yields :
      (len : Length) (s : ParseState)
      → IsSound s
      → Returns (λ _ t. Yields (IsContent rules depth len) s t) IsSound (parse_children child len s)
  unfolding parse_children parse_definite_children parse_indefinite_children
  parse_children-Yields (definite n) s h =
      Returns-if (ltb (buffer_remaining s.buf) n) (λ _. raised h)
        λ few.
          Returns-bind (definite_loop-Yields (rounds s) (add_size s.buf.offset n) s h (omega arith))
            λ _ t g.
              Returns-mono
                (λ _ u (g', (same, ended_at)).
                  Stores-trans
                    (λ ns ms row (nothing : ms ≡ []).
                      rw (nothing, append-nil)
                        (Means-exact rules depth n ns (ground arith) ended_at same row))
                    g g')
                (check_end-Ends (add_size s.buf.offset n) t g.sound)
  parse_children-Yields indefinite s h = indefinite_loop-Yields (rounds s) s h (omega arith)
