-- ===== src/Client/Split.antt =====
-- The client program in Languages, main(): the body of an answer, and of the client's own request, is
-- what stands behind the first empty line.
use asn.Base.{
  ℕ, ◌+◌, ◌≤◌, ◌<◌, ◌≡◌, refl, ap, sym, ◌∙◌, Bool, false, ◌&&◌, Option, some, List, [], ◌∷◌, ◌++◌,
  append_assoc, length, length-append, drop, drop-append, ◌==◌, lt→ltb, ◌^◌, length-take-le,
  get_elem?-lt, if◌then◌else◌, sub_size, arith, Outcome, done, failed, fault, out_of_fuel, Returns,
  returned, raised,
}
use asn.Error.{Error}
use asn.Parser.Header.{der}
use asn.Parser.Node.{Node, ParseResult, parse_result_init, asn1_parse}
use asn.Parser.Shape.{IsSubtree, IsSubtree-pos}
use asn.Parser.Storing.{stored}
use asn.Parser.Totality.{IsFitting, asn1_parse-IsSubtree}
use asn.Iterator.{root_node}
use asn.Client.Answer.{
  delimiter, begins_with, strstr, Report, report_decoded, report_parsed, read_body, find_body,
  read_response, no_memory, refused,
}

-- The lines before an empty line: no zero, and no empty line ends within them.
abbrev pub IsHead : List ℕ → Type 0
IsHead [] = Unit
IsHead (x ∷ xs) = (0 < x) × (begins_with delimiter (x ∷ (xs ++ delimiter)) ≡ false) × IsHead xs

-- A text that is no longer than the first part is found in it.
begins_with-append :
    (text xs ys : List ℕ)
    → length text ≤ length xs
    → begins_with text (xs ++ ys) ≡ begins_with text xs
begins_with-append [] xs ys h = refl
begins_with-append (t ∷ ts) [] ys h = absurd (omega arith)
begins_with-append (t ∷ ts) (x ∷ xs) ys h =
    ap (λ b. t == x && b) (begins_with-append ts xs ys (omega arith))

pub strstr-delimiter :
    (head rest : List ℕ)
    → IsHead head
    → strstr delimiter (head ++ (delimiter ++ rest)) ≡ some (some (length head))
unfolding strstr
strstr-delimiter [] rest h = refl
strstr-delimiter (x ∷ xs) rest (some_byte, unmatched, h) =
    let size : 4 ≤ length (x ∷ (xs ++ delimiter)) = omega (arith, length-append xs delimiter) in
    let whole : xs ++ (delimiter ++ rest) ≡ (xs ++ delimiter) ++ rest =
      sym (append_assoc xs delimiter rest) in
    let later : begins_with delimiter (x ∷ (xs ++ (delimiter ++ rest))) ≡ false =
      ap (λ l. begins_with delimiter (x ∷ l)) whole
      ∙ begins_with-append delimiter (x ∷ (xs ++ delimiter)) rest size
      ∙ unmatched in
    let no_end : (x == 0) ≡ false = ground arith in rw (later, no_end, strstr-delimiter xs rest h)

module _ (decode : Option Node → ParseResult → Outcome Error (Unit {0}) (Unit {0}))
    (allocated : Bool) where
  find_body-eq :
      (nodes : List Node) (head body behind : List ℕ) (n : ℕ)
      → IsHead head
      → 1 ≤ length body
      → n ≡ length head + 4 + length body
      → n < 2 ^ 31
      → find_body decode allocated nodes (head ++ (delimiter ++ (body ++ behind))) n
        ≡ report_parsed decode allocated (
            asn1_parse
              (some (body ++ behind))
              (length body)
              der
              false
              (parse_result_init nodes 512))
  unfolding find_body read_body
  find_body-eq nodes head body behind n h some_bytes whole small =
      let size : sub_size n (length head + 4) ≡ length body = omega (arith, whole, small) in
      let start : length (head ++ delimiter) ≡ length head + 4 = length-append head delimiter in
      let rest : drop (length head + 4) (head ++ (delimiter ++ (body ++ behind))) ≡ body ++ behind =
        ap (λ k. drop k (head ++ (delimiter ++ (body ++ behind)))) (sym start)
        ∙ ap (drop (length (head ++ delimiter)))
            (sym (append_assoc head delimiter (body ++ behind)))
        ∙ drop-append (head ++ delimiter) (body ++ behind) in
      rw (
        find_body,
        strstr-delimiter head (body ++ behind) h,
        read_body,
        size,
        rest,
        lt→ltb 0 (length body) (omega (arith, some_bytes)),
      )

  -- What main() reports of the outcome of asn1_parse(): its error, or what the decoder gives for the
  -- root of what it stored.
  abbrev pub IsAnswer : Outcome Error ParseResult (Unit {0}) → Option Report → Type 0
  IsAnswer (failed e t) report = report ≡ some (refused e)
  IsAnswer (done a t) report =
      (root : Node) × (root_node t ≡ some root)
      × IsSubtree 1 (stored t)
      × (report ≡ (if allocated then report_decoded (decode (some root) t) else some no_memory))
  IsAnswer fault report = ⊥
  IsAnswer out_of_fuel report = ⊥

  report_parsed-IsAnswer :
      {r : Outcome Error ParseResult (Unit {0})}
      → Returns (λ _ t. IsFitting t × IsSubtree 1 (stored t)) IsFitting r
      → IsAnswer r (report_parsed decode allocated r)
  unfolding root_node
  report_parsed-IsAnswer (raised h) = refl
  report_parsed-IsAnswer (returned {s = t} (fits, tree)) =
      let size = length-take-le t.count t.nodes in
      let some_nodes : 0 < t.count = omega (arith, IsSubtree-pos tree, size) in
      let (root, first) = get_elem?-lt t.nodes 0 (omega (arith, fits.filled, fits.writable)) in
      let found : root_node t ≡ some root = rw (lt→ltb 0 t.count some_nodes) first in
      (root, found, tree, rw found refl)

  -- Where the server answers with a head, an empty line and a body, main() gives asn1_parse() under DER
  -- a pointer to the first byte of the body and the number of bytes of the body, whatever the array
  -- holds behind what was received, and asn1_parse() returns. Where it fails, main() reports its
  -- error; where it succeeds, the nodes are one subtree, its root is there, and main() calls the decoder
  -- with it and reports what it gives, or that calloc() gave no memory. The decoder need not return. The
  -- head has no zero byte and no empty line before its end, the body is not empty, the number of bytes
  -- is that of an int, and the array of nodes has 512 cells.
  pub read_response-IsAnswer :
      (nodes : List Node) (head body behind : List ℕ)
      → IsHead head
      → 1 ≤ length body
      → length head + 4 + length body < 2 ^ 31
      → 512 ≤ length nodes
      → IsAnswer
          (asn1_parse (some (body ++ behind)) (length body) der false (parse_result_init nodes 512))
          (read_response decode allocated nodes
            (head ++ (delimiter ++ (body ++ behind)))
            (some (length head + 4 + length body)))
  unfolding read_response
  read_response-IsAnswer nodes head body behind h some_bytes small cells =
      let n = length head + 4 + length body in
      let found = find_body-eq nodes head body behind n h some_bytes refl small in
      rw (lt→ltb 0 n (omega arith), found)
        (report_parsed-IsAnswer (
          asn1_parse-IsSubtree (some (body ++ behind)) (length body) der false
            (parse_result_init nodes 512) (λ d e. readable e)
            (record { writable = cells; filled = omega arith })))
    where
      readable : {d : List ℕ} → some (body ++ behind) ≡ some d → length body ≤ length d
      readable {d} e =
          let same : body ++ behind ≡ d = cc in
          omega (arith, length-append body behind, ap length same)
