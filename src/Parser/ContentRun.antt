-- ===== src/Parser/ContentRun.antt =====
-- parse_node() on the content of a constructed value: the loops at a marker and before a value.
use asn.Base.{
  ℕ, suc, ◌+◌, ◌≤◌, ◌<◌, ◌≡◌, ap, ◌∙◌, Bool, true, false, List, [], ◌∷◌, ◌++◌, append_assoc, length,
  length-append, arith, le→leb, size_mod, done, splice, All, IsByte,
}
use asn.Error.{Op}
use asn.Identifier.{Identifier}
use asn.Buffer.Reads.{IsBefore, IsBefore-advance, remaining-IsBefore, skip-IsBefore, advance}
use asn.Parser.Header.{EncodingRules, Length, definite, indefinite}
use asn.Parser.Node.{
  Node, ParseState, rounds, definite_loop, indefinite_loop, parse_children,
  parse_indefinite_children, parse_tlv,
}
use asn.Parser.HeaderRun.{HasRoom, after}
use asn.Parser.Yields.{at_end_marker-eq}
use asn.Parser.ValueRun.{opened, HasRoom-opened, parse_tlv-nested}
use asn.Parser.RoundTrip.{after_nothing, parse_children-definite}
use asn.Parser.Grammar.{
  IsTag, one_byte, grouped, IsHeader, IsValue, flat_value, nested_value, open_value, is_end_marker,
  nested_node,
}

IsHeader-pos :
    {rules : EncodingRules} {xs : List ℕ} {id : Identifier} {k : Bool} {l : Length} (ys : List ℕ)
    → IsHeader rules xs id k l
    → 0 < length (xs ++ ys)
IsHeader-pos {xs = xs} ys h =
    let front : 0 < length h.tag_bytes = of_tag h.tag in
    let whole : length xs ≡ length h.tag_bytes + length h.length_bytes =
      ap length h.parts ∙ length-append h.tag_bytes h.length_bytes in
    omega (arith, front, whole, length-append xs ys)
  where
    of_tag : {ts : List ℕ} {i : Identifier} {b : Bool} → IsTag ts i b → 0 < length ts
    of_tag (one_byte b low e f g) = rw e (omega arith)
    of_tag (grouped b gs y all tops last few e f large g) = rw e (omega arith)

pub two_left : (xs rest : List ℕ) → 2 ≤ length (xs ++ (0 ∷ 0 ∷ rest))
two_left xs rest = omega (arith, length-append xs (0 ∷ (0 ∷ rest)))

-- A value has a byte and a node.
pub IsValue-pos :
    {rules : EncodingRules} {depth : ℕ} {xs rest : List ℕ} {ns : List Node}
    → IsValue rules depth xs rest ns
    → (0 < length xs) × (0 < length ns)
IsValue-pos (flat_value head content id low header e f) =
    (rw e (IsHeader-pos content header), rw f (omega arith))
IsValue-pos (nested_value head content id below low header row e f) =
    (rw e (IsHeader-pos content header), rw f (omega arith))
IsValue-pos (open_value head content id below low header row e f) =
    (rw e (IsHeader-pos (content ++ (0 ∷ 0 ∷ [])) header), rw f (omega arith))

nothing_added :
    (s : ParseState)
    → s.result ≡ record s.result {
      nodes = splice s.result.nodes s.result.count [];
      count = s.result.count + 0;
    }
nothing_added s = ap (λ t. t.result) (after_nothing s)

module _ (child : Op ParseState (Unit {0})) where
  -- The loop at the marker.
  pub indefinite_loop_end :
      (f fuel : ℕ) (s : ParseState) (rest : List ℕ)
      → fuel ≡ suc f
      → IsBefore s.buf (0 ∷ 0 ∷ rest)
      → indefinite_loop child fuel s ≡ done tt (after s 2 [])
  unfolding indefinite_loop
  indefinite_loop_end f fuel s rest e h =
      let inside : s.buf.offset + 2 ≤ s.buf.length = omega (arith, h.left) in
      rw
        (
          e,
          remaining-IsBefore s.buf (0 ∷ 0 ∷ rest) h,
          le→leb 2 (length (0 ∷ (0 ∷ rest))) (omega arith),
          at_end_marker-eq s.buf 0 0 rest h.small inside h.rest,
          skip-IsBefore s.buf (0 ∷ 0 ∷ []) rest h,
        )
        (ap (λ r. done tt (record { buf = advance s.buf 2; result = r })) (nothing_added s))

  pub indefinite_loop_step :
      (f fuel : ℕ) (ws : List ℕ) (s t : ParseState)
      → fuel ≡ suc f
      → 2 ≤ length ws
      → IsBefore s.buf ws
      → is_end_marker ws ≡ false
      → child s ≡ done tt t
      → indefinite_loop child fuel s ≡ indefinite_loop child f t
  unfolding indefinite_loop
  indefinite_loop_step f fuel [] s t e two h unmarked ran = absurd (omega arith)
  indefinite_loop_step f fuel (x ∷ []) s t e two h unmarked ran = absurd (omega arith)
  indefinite_loop_step f fuel (x ∷ (y ∷ zs)) s t e two h unmarked ran =
      let inside : s.buf.offset + 2 ≤ s.buf.length = omega (arith, h.left) in
      rw (
        e,
        remaining-IsBefore s.buf (x ∷ y ∷ zs) h,
        le→leb 2 (length (x ∷ (y ∷ zs))) (omega arith),
        at_end_marker-eq s.buf x y zs h.small inside h.rest,
        unmarked,
        ran,
      )

module _ (child : Op ParseState (Unit {0})) (rules : EncodingRules) (depth : ℕ) (s : ParseState)
    (head : List ℕ) (id : Identifier) (below : List Node) (bytes : All IsByte head)
    (room : HasRoom s (suc (length below))) where
  pub nested_run :
      (content rest : List ℕ)
      → IsHeader rules head id true (definite (length content))
      → IsBefore s.buf (head ++ (content ++ rest))
      → ((t : ParseState)
          → IsBefore t.buf (content ++ rest)
          → HasRoom t (length below)
          → definite_loop child (rounds t) (t.buf.offset + length content) t
            ≡ done tt (after t (length content) below))
      → parse_tlv child rules depth s
        ≡ done tt (
            after s
              (length (head ++ content))
              (nested_node id depth (head ++ content) rest below ∷ below))
  nested_run content rest header h loop =
      let l = definite (length content) in
      let s' = opened child rules depth s head id l in
      let h' = IsBefore-advance s.buf head (content ++ rest) h in
      let room' = HasRoom-opened child rules depth s head id l (length below) room in
      let short : length content < size_mod = omega (
        arith,
        h.left,
        h.small,
        length-append head (content ++ rest),
        length-append content rest,
      ) in
      parse_tlv-nested child rules depth s head id l content rest below header short bytes h room
        (parse_children-definite child content rest s' below h' (loop s' h' room'))

  pub open_run :
      (content rest : List ℕ)
      → IsHeader rules head id true indefinite
      → IsBefore s.buf (head ++ ((content ++ (0 ∷ 0 ∷ [])) ++ rest))
      → ((t : ParseState)
          → IsBefore t.buf (content ++ (0 ∷ 0 ∷ rest))
          → HasRoom t (length below)
          → indefinite_loop child (rounds t) t
            ≡ done tt (after t (length (content ++ (0 ∷ 0 ∷ []))) below))
      → parse_tlv child rules depth s
        ≡ done tt (
            after s
              (length (head ++ (content ++ (0 ∷ 0 ∷ []))))
              (nested_node id depth (head ++ (content ++ (0 ∷ 0 ∷ []))) rest below ∷ below))
  unfolding parse_children parse_indefinite_children
  open_run content rest header h loop =
      let s' = opened child rules depth s head id indefinite in
      let h' = IsBefore-advance s.buf head ((content ++ (0 ∷ 0 ∷ [])) ++ rest) h in
      let room' = HasRoom-opened child rules depth s head id indefinite (length below) room in
      parse_tlv-nested child rules depth s head id indefinite (content ++ (0 ∷ 0 ∷ [])) rest below
        header tt bytes h room (loop s' (rw (append_assoc content (0 ∷ 0 ∷ []) rest) at h') room')
