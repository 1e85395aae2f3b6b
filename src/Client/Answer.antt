-- ===== src/Client/Answer.antt =====
-- The client program in Languages, main(): the answer of the server, from recv() on. The decoder of the
-- message is generated code outside the repository, and a parameter here; what is printed of a
-- decoded message is left out.
use asn.Base.{
  ℕ, suc, ◌+◌, Bool, true, false, ◌&&◌, Option, none, some, List, [], ◌∷◌, drop, ltb, ◌==◌,
  if◌then◌else◌, sub_size, Outcome, done, failed, fault, out_of_fuel,
}
use mathlib.Core.Option
use asn.Error.{Error}
use asn.Parser.Header.{der}
use asn.Parser.Node.{Node, ParseResult, parse_result_init, asn1_parse}
use asn.Iterator.{root_node}

-- "\r\n\r\n"
abbrev pub delimiter : List ℕ
delimiter = 13 ∷ 10 ∷ 13 ∷ 10 ∷ []

abbrev pub begins_with : List ℕ → List ℕ → Bool
begins_with [] ys = true
begins_with (x ∷ xs) [] = false
begins_with (x ∷ xs) (y ∷ ys) = x == y && begins_with xs ys

-- strstr(): the index of the text in the array before the first zero, `some none` for NULL; `none`
-- where the search leaves the array.
unfoldable pub strstr : List ℕ → List ℕ → Option (Option ℕ)
strstr text [] = none
strstr text (y ∷ ys) =
    let rest = Option.map (Option.map suc) (strstr text ys) in
    if begins_with text (y ∷ ys) then some (some 0) else (if y == 0 then some none else rest)

-- What main() reports of the answer.
pub data Report : Type 0 where
  receive_failed closed no_delimiter no_body no_memory : Report
  refused undecoded : Error → Report
  decoded : Report

abbrev pub report_decoded : Outcome Error (Unit {0}) (Unit {0}) → Option Report
report_decoded (done a s) = some decoded
report_decoded (failed e s) = some (undecoded e)
report_decoded fault = none
report_decoded out_of_fuel = none

-- `allocated` says whether calloc() gives memory.
module _ (decode : Option Node → ParseResult → Outcome Error (Unit {0}) (Unit {0}))
    (allocated : Bool) where
  abbrev pub report_parsed : Outcome Error ParseResult (Unit {0}) → Option Report
  report_parsed (done a t) =
      if allocated then report_decoded (decode (root_node t) t) else some no_memory
  report_parsed (failed e t) = some (refused e)
  report_parsed fault = none
  report_parsed out_of_fuel = none

  -- "Parse ASN.1": `nodes` is the uninitialised array.
  unfoldable pub read_body : List Node → List ℕ → ℕ → Option Report
  read_body nodes body body_len =
      if ltb 0 body_len
      then report_parsed (asn1_parse (some body) body_len der false (parse_result_init nodes 512))
      else some no_body

  -- "Find body start"; the difference of the lengths is unsigned.
  unfoldable pub find_body : List Node → List ℕ → ℕ → Option Report
  unfolding strstr read_body
  find_body nodes resp n = elim (strstr delimiter resp) [
    | none ↦ none
    | some none ↦ some no_delimiter
    | some (some i) ↦ read_body nodes (drop (i + 4) resp) (sub_size n (i + 4))
  ]

  -- "Read Response": what recv() returns, `none` for a negative number.
  unfoldable pub read_response : List Node → List ℕ → Option ℕ → Option Report
  unfolding find_body
  read_response nodes resp none = some receive_failed
  read_response nodes resp (some n) = if ltb 0 n then find_body nodes resp n else some closed
