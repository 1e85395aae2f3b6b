-- ===== src/Parser/SafeRows.antt =====
-- asn1_parser.c: the loops of parse_node() store nodes that point into the input.
use asn.Base.{
  ℕ, zero, suc, ◌-◌, ◌≤◌, ◌<◌, ◌≡◌, refl, sym, List, [], ◌++◌, append-nil, length, ltb, leb, ◌==◌,
  arith, add_size, ◌>>◌, return, Returns, Returns-bind, Returns-mono, returned, raised, Returns-if,
}
use asn.Error.{Op}
use asn.Buffer.{Buffer, buffer_remaining, skip}
use asn.Parser.Header.{Length, definite, indefinite}
use asn.Parser.Node.{
  Node, ParseState, rounds, definite_loop, indefinite_loop, at_end_marker, check_end,
  check_trailing, parse_definite_children, parse_indefinite_children, parse_children,
}
use asn.Parser.Safety.{at_end_marker-Keeps}
use asn.Parser.Storing.{IsSound, Stores, Stores-trans, Stores-mono, Stores-on_buf}
use asn.Parser.Moves.{
  Moves, Moving, Moving-Safe, Moves-Safe, Safe, Safe-none, Safe-append, skip-Moving,
}

-- A value takes a cell.
abbrev pub SafeOne : Buffer → Buffer → List Node → Type 0
SafeOne b c ns = (1 ≤ length ns) × Safe b c ns

abbrev pub Safely : Op ParseState (Unit {0}) → Type 0
Safely m =
    (s : ParseState) → IsSound s → Returns (λ _ t. Stores (Safe s.buf t.buf) s t) IsSound (m s)

abbrev pub SafelyOne : Op ParseState (Unit {0}) → Type 0
SafelyOne m =
    (s : ParseState) → IsSound s → Returns (λ _ t. Stores (SafeOne s.buf t.buf) s t) IsSound (m s)

pub Stores-Safe :
    {b c d : Buffer} {s t u : ParseState}
    → Stores (Safe b c) s t
    → Stores (Safe c d) t u
    → Stores (Safe b d) s u
Stores-Safe f g = Stores-trans Safe-append f g

pub one_before :
    {b c d : Buffer} (ns ms : List Node) → SafeOne b c ns → Safe c d ms → Safe b d (ns ++ ms)
one_before ns ms (_, f) g = Safe-append ns ms f g

Safe-self : (s : ParseState) → IsSound s → Stores (Safe s.buf s.buf) s s
Safe-self s h = record {
  sound = h;
  same_capacity = refl;
  added = [];
  behind = sym (append-nil _);
  grown = omega arith;
  shape = Safe-none s.buf;
}

check_end-Moving : (end_offset : ℕ) → Moving (check_end end_offset)
unfolding check_end
check_end-Moving end_offset b h =
    Returns-if (b.offset == end_offset) (λ _. returned (h, λ a. (a, refl))) (λ _. raised h)

pub check_trailing-Moving : Moving check_trailing
unfolding check_trailing
check_trailing-Moving b h =
    Returns-if (ltb 0 (buffer_remaining b)) (λ _. raised h) (λ _. returned (h, λ a. (a, refl)))

at_end_marker-Moving : Moving at_end_marker
at_end_marker-Moving b h =
    Returns-mono (λ _ c e. (rw e h, λ a. (rw e a, rw e refl))) (at_end_marker-Keeps b h)

skip_two-Moving : Moving (do skip 2; return tt)
skip_two-Moving b h = Returns-bind (skip-Moving 2 b h) (λ _ c k. returned k)

-- The child is parse_node() one level down.
module _ (child : Op ParseState (Unit {0})) (one_more : SafelyOne child) where
  -- A value takes a free cell.
  fewer :
      {b c : Buffer} {fuel : ℕ} {s t : ParseState}
      → Stores (SafeOne b c) s t
      → s.result.capacity - s.result.count < suc fuel
      → t.result.capacity - t.result.count < fuel
  fewer g few =
      let (pos, _) = g.shape in omega (arith, pos, g.grown, g.same_capacity, g.sound.filled)

  definite_loop-Safe :
      (fuel end_offset : ℕ) (s : ParseState)
      → IsSound s
      → s.result.capacity - s.result.count < fuel
      → Returns
          (λ _ t. Stores (Safe s.buf t.buf) s t)
          IsSound
          (definite_loop child fuel end_offset s)
  unfolding definite_loop
  definite_loop-Safe zero end_offset s h few = absurd (omega arith)
  definite_loop-Safe (suc fuel) end_offset s h few =
      Returns-if (ltb s.buf.offset end_offset)
        (λ _. Returns-bind (one_more s h) λ _ t g.
          Returns-mono (λ _ u g'. Stores-trans one_before g g')
            (definite_loop-Safe fuel end_offset t g.sound (fewer g few)))
        (λ _. returned (Safe-self s h))

  indefinite_loop-Safe :
      (fuel : ℕ) (s : ParseState)
      → IsSound s
      → s.result.capacity - s.result.count < fuel
      → Returns (λ _ t. Stores (Safe s.buf t.buf) s t) IsSound (indefinite_loop child fuel s)
  unfolding indefinite_loop
  indefinite_loop-Safe zero s h few = absurd (omega arith)
  indefinite_loop-Safe (suc fuel) s h few =
      Returns-if (leb 2 (buffer_remaining s.buf))
        (λ _.
          Returns-bind
            (Stores-on_buf {P = λ _ c. Moves s.buf c} at_end_marker s h
              (at_end_marker-Moving s.buf h.readable))
            λ marker t (g, moves).
              let stay : Stores (Safe s.buf t.buf) s t =
                Stores-mono (λ ns e. rw e (Moves-Safe moves)) g in
              Returns-if marker
                (λ _.
                  Returns-mono (λ _ u g'. Stores-Safe stay g')
                    (Moving-Safe (do skip 2; return tt) skip_two-Moving t g.sound))
                (λ _. Returns-bind (one_more t g.sound) λ _ u g'.
                  Returns-mono (λ _ v g''. Stores-Safe stay (Stores-trans one_before g' g''))
                    (indefinite_loop-Safe fuel u g'.sound
                      (fewer g' (omega (arith, few, g.grown, g.same_capacity, nothing g.shape))))))
        (λ _. raised h)
    where
      nothing : {ns : List Node} → ns ≡ [] → length ns ≡ 0
      nothing e = rw e refl

  pub parse_children-Safe : (len : Length) → Safely (parse_children child len)
  unfolding parse_children parse_definite_children parse_indefinite_children
  parse_children-Safe (definite n) s h =
      Returns-if (ltb (buffer_remaining s.buf) n) (λ _. raised h)
        λ _.
          Returns-bind (definite_loop-Safe (rounds s) (add_size s.buf.offset n) s h (omega arith))
            λ _ t g.
              Returns-mono (λ _ u g'. Stores-Safe g g')
                (Moving-Safe _ (check_end-Moving (add_size s.buf.offset n)) t g.sound)
  parse_children-Safe indefinite s h = indefinite_loop-Safe (rounds s) s h (omega arith)
