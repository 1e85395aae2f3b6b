-- ===== src/Parser/Complete.antt =====
-- asn1_parser.c: asn1_parse() accepts every value of the grammar for which there is room.
use asn.Base.{
  All-split, ℕ, zero, suc, ◌+◌, ◌-◌, ◌<◌, ◌≡◌, refl, ap, ◌∙◌, true, false, some, List, [], ◌∷◌,
  ◌++◌, append_assoc, append-nil, length, length-append, arith, le→ltb, ne→==, size_mod, done,
  splice, All, IsByte,
}
use asn.Buffer.{Pointer, buffer_init}
use asn.Buffer.Reads.{IsBefore, IsBefore-advance, IsBefore-init, remaining-IsBefore}
use asn.Parser.Header.{EncodingRules}
use asn.Parser.Node.{
  Node, ParseResult, ParseState, rounds, max_depth, definite_loop, indefinite_loop, parse_node,
  check_trailing, asn1_parse,
}
use asn.Parser.HeaderRun.{HasRoom, after}
use asn.Parser.ValueRun.{parse_tlv-flat}
use asn.Parser.RoundTrip.{
  after-after, after_nothing, HasRoom-after, definite_loop_end, definite_loop_step, CanHold,
}
use asn.Parser.Grammar.{IsValue, IsValues, flat_value, nested_value, open_value, ended, more}
use asn.Parser.ContentRun.{
  two_left, IsValue-pos, indefinite_loop_end, indefinite_loop_step, nested_run, open_run,
}

mutual
  unfolding parse_node

  parse_node-value :
      {rules : EncodingRules} {depth : ℕ} {xs rest : List ℕ} {ns : List Node} (levels : ℕ)
      (s : ParseState)
      → IsValue rules depth xs rest ns
      → max_depth < levels + depth
      → All IsByte xs
      → IsBefore s.buf (xs ++ rest)
      → HasRoom s (length ns)
      → parse_node levels rules depth s ≡ done tt (after s (length xs) ns)
  parse_node-value zero s (flat_value head content id low header e f) deep bytes h room =
      absurd (omega arith)
  parse_node-value zero s (nested_value head content id below low header row e f) deep bytes h
        room =
      absurd (omega arith)
  parse_node-value zero s (open_value head content id below low header row e f) deep bytes h room =
      absurd (omega arith)
  parse_node-value {rules} {depth} {rest = rest} (suc levels) s
        (flat_value head content id low header e f) deep bytes h room =
      let (front, _) = All-split IsByte head content (rw e at bytes) in
      rw (le→ltb max_depth depth low, f, e)
        (parse_tlv-flat (parse_node levels rules (depth + 1)) rules depth s head id content rest
          header front (rw (e, append_assoc head content rest) at h) (rw f at room))
  parse_node-value {rules} {depth} {rest = rest} (suc levels) s
        (nested_value head content id below low header row e f) deep bytes h room =
      let (front, back) = All-split IsByte head content (rw e at bytes) in
      rw (le→ltb max_depth depth low, f, e)
        (nested_run (parse_node levels rules (depth + 1)) rules depth s head id below front
          (rw f at room) content rest header (rw (e, append_assoc head content rest) at h)
          (λ t h' room'.
            definite_loop-values levels t (rounds t) (t.buf.offset + length content) row
              (omega arith) back h' room' (omega (arith, room'.below)) refl))
  parse_node-value {rules} {depth} {rest = rest} (suc levels) s
        (open_value head content id below low header row e f) deep bytes h room =
      let (front, back) = All-split IsByte head (content ++ (0 ∷ 0 ∷ [])) (rw e at bytes) in
      rw (le→ltb max_depth depth low, f, e)
        (open_run (parse_node levels rules (depth + 1)) rules depth s head id below front
          (rw f at room) content rest header
          (rw (e, append_assoc head (content ++ (0 ∷ 0 ∷ [])) rest) at h)
          (λ t h' room'.
            indefinite_loop-values levels t (rounds t) row (omega arith)
              (All-split IsByte content (0 ∷ 0 ∷ []) back).0 h' room' (omega (arith, room'.below))))

  definite_loop-values :
      {rules : EncodingRules} {depth : ℕ} {xs rest : List ℕ} {ns : List Node} (levels : ℕ)
      (s : ParseState) (fuel end_offset : ℕ)
      → IsValues rules false depth xs rest ns
      → max_depth < levels + depth
      → All IsByte xs
      → IsBefore s.buf (xs ++ rest)
      → HasRoom s (length ns)
      → length ns < fuel
      → end_offset ≡ s.buf.offset + length xs
      → definite_loop (parse_node levels rules depth) fuel end_offset s
        ≡ done tt (after s (length xs) ns)
  definite_loop-values {rules} {depth} levels s fuel end_offset ended deep bytes h room many end =
      definite_loop_end (parse_node levels rules depth) (fuel - 1) fuel end_offset s (omega arith)
        (omega arith)
      ∙ ap (done tt) (after_nothing s)
  definite_loop-values {rules} {depth} {rest = rest} levels s fuel end_offset
        (more xs ys ns ms unmarked value row e f) deep bytes h room many end =
      let child = parse_node levels rules depth in
      let (front, back) = All-split IsByte xs ys (rw e at bytes) in
      let h' : IsBefore s.buf (xs ++ (ys ++ rest)) = rw (e, append_assoc xs ys rest) at h in
      let (bytes_pos, nodes_pos) = IsValue-pos value in
      let s' : ParseState = after s (length xs) ns in
      let lens = length-append xs ys in
      let count = length-append ns ms in
      let room' : HasRoom s (length ns + length ms) = rw (f, count) at room in
      rw (e, f)
        (definite_loop_step child (fuel - 1) fuel end_offset s s' (omega arith)
            (omega (arith, end, ap length e, lens, bytes_pos))
            (parse_node-value levels s value deep front h' (omega arith))
          ∙ definite_loop-values levels s' (fuel - 1) end_offset row deep back
              (IsBefore-advance s.buf xs (ys ++ rest) h')
              (HasRoom-after s (length xs) (length ms) ns room')
              (omega (arith, many, ap length f, count, nodes_pos))
              (omega (arith, end, ap length e, lens))
          ∙ ap (done tt) (after-after s (length xs) (length ys) _ ns ms lens))

  indefinite_loop-values :
      {rules : EncodingRules} {depth : ℕ} {xs rest : List ℕ} {ns : List Node} (levels : ℕ)
      (s : ParseState) (fuel : ℕ)
      → IsValues rules true depth xs (0 ∷ 0 ∷ rest) ns
      → max_depth < levels + depth
      → All IsByte xs
      → IsBefore s.buf (xs ++ (0 ∷ 0 ∷ rest))
      → HasRoom s (length ns)
      → length ns < fuel
      → indefinite_loop (parse_node levels rules depth) fuel s
        ≡ done tt (after s (length (xs ++ (0 ∷ 0 ∷ []))) ns)
  indefinite_loop-values {rules} {depth} {rest = rest} levels s fuel ended deep bytes h room many =
      indefinite_loop_end (parse_node levels rules depth) (fuel - 1) fuel s rest (omega arith) h
  indefinite_loop-values {rules} {depth} {xs = zs} {rest} levels s fuel
        (more xs ys ns ms unmarked value row e f) deep bytes h room many =
      let child = parse_node levels rules depth in
      let marker : List ℕ = 0 ∷ 0 ∷ [] in
      let (front, back) = All-split IsByte xs ys (rw e at bytes) in
      let h' : IsBefore s.buf (xs ++ (ys ++ (0 ∷ 0 ∷ rest))) =
        rw (e, append_assoc xs ys (0 ∷ 0 ∷ rest)) at h in
      let (bytes_pos, nodes_pos) = IsValue-pos value in
      let s' : ParseState = after s (length xs) ns in
      let count = length-append ns ms in
      let room' : HasRoom s (length ns + length ms) = rw (f, count) at room in
      let lens : length ((xs ++ ys) ++ marker) ≡ length xs + length (ys ++ marker) =
        ap length (append_assoc xs ys marker) ∙ length-append xs (ys ++ marker) in
      rw (e, f)
        (indefinite_loop_step child (fuel - 1) fuel (zs ++ (0 ∷ 0 ∷ rest)) s s' (omega arith)
            (two_left zs rest) h (unmarked refl)
            (parse_node-value levels s value deep front h' (omega arith))
          ∙ indefinite_loop-values levels s' (fuel - 1) row deep back
              (IsBefore-advance s.buf xs (ys ++ (0 ∷ 0 ∷ rest)) h')
              (HasRoom-after s (length xs) (length ms) ns room')
              (omega (arith, many, ap length f, count, nodes_pos))
          ∙ ap (done tt) (after-after s (length xs) (length (ys ++ marker)) _ ns ms lens))

module _ (d : Pointer) (rules : EncodingRules) (r : ParseResult) (ns : List Node)
    (value : IsValue rules 1 d [] ns) (fits : length d < size_mod) (bytes : All IsByte d)
    (holds : CanHold r (length ns)) where
  abbrev start : ParseState
  start = record { buf = buffer_init d (length d); result = record r { count = 0 } }

  start-IsBefore : IsBefore start.buf (d ++ [])
  start-IsBefore = rw (append-nil d) (IsBefore-init d fits)

  -- asn1_parse() accepts every value of the grammar of its rules that is the whole input, and stores the
  -- nodes of the value from the first cell of the array on, with the other cells as they were. The
  -- input is shorter than 2 ^ 64 bytes and the array can hold the nodes.
  pub asn1_parse-value :
      asn1_parse (some d) (length d) rules false r
      ≡ done tt (record r { nodes = splice r.nodes 0 ns; count = length ns })
  unfolding asn1_parse check_trailing
  asn1_parse-value =
      let (pos, _) = IsValue-pos value in
      let root =
        parse_node-value max_depth start value (omega arith) bytes start-IsBefore (omega arith) in
      let none_left = remaining-IsBefore _ [] (IsBefore-advance start.buf d [] start-IsBefore) in
      rw (ne→== (length d) 0 (omega (arith, pos)), root, none_left)
        (ap (λ n. done tt (record r { nodes = splice r.nodes 0 ns; count = n })) {x = 0 + length ns}
          {y = length ns} (omega arith))
