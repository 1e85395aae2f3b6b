-- ===== src/Client/Exchange.antt =====
-- The client program in Languages, main(), from "Final Encode" on: the request over a socket. The
-- network is a parameter, which says what each call gives. What send() returns is only printed, so
-- that bytes that it did not take are not sent again.
use asn.Base.{
  ℕ, Bool, not, Option, none, some, List, [], ◌∷◌, ◌++◌, take, if◌then◌else◌, Outcome, done, failed,
  fault, out_of_fuel,
}
use mathlib.Core.Option
use asn.Error.{Error, Op}
use asn.Parser.Node.{Node, ParseResult}
use asn.Serializer.{Serializer, serializer_init}
use asn.Types.Oid.Text.{digits_of}
use asn.Client.Answer.{Report, delimiter, read_response}

-- The calls that the server or the system can see; send() with the bytes that it is given and what it
-- returns, `none` for a negative number.
pub data Action : Type 0 where
  create_socket look_up connect shut_down receive close : Action
  send : List ℕ → Option ℕ → Action

-- What socket(), gethostbyname(), connect(), the two calls of send() and recv() give, and the array
-- behind recv().
pub record Network : Type 0 where
  pub has_socket : Bool
  pub has_host : Bool
  pub connects : Bool
  pub header_sent : Option ℕ
  pub body_sent : Option ℕ
  pub received : Option ℕ
  pub response : List ℕ

-- What main() has done, its exit status, and what it reported of an answer.
pub record Ending : Type 0 where
  pub actions : List Action
  pub status : ℕ
  pub report : Option Report

-- "POST / HTTP/1.0" and "Content-Length: "
abbrev pub post_line : List ℕ
post_line = 80 ∷ 79 ∷ 83 ∷ 84 ∷ 32 ∷ 47 ∷ 32 ∷ 72 ∷ 84 ∷ 84 ∷ 80 ∷ 47 ∷ 49 ∷ 46 ∷ 48 ∷ []

abbrev pub length_field : List ℕ
length_field =
    67 ∷ 111 ∷ 110 ∷ 116 ∷ 101 ∷ 110 ∷ 116 ∷ 45 ∷ 76 ∷ 101 ∷ 110 ∷ 103 ∷ 116 ∷ 104 ∷ 58 ∷ 32 ∷ []

-- The lines of the sprintf(); a `size_t` has at most 20 digits.
unfoldable pub request_lines : ℕ → List ℕ
unfolding digits_of
request_lines len = post_line ++ (13 ∷ 10 ∷ (length_field ++ digits_of 19 len))

-- `header_buf`, up to its zero
abbrev pub request_header : ℕ → List ℕ
request_header len = request_lines len ++ delimiter

-- The end where there is a connection.
abbrev pub answered : Network → List ℕ → ℕ → Report → Ending
answered net message len r = record {
  actions =
      create_socket
      ∷ look_up
      ∷ connect
      ∷ send (request_header len) net.header_sent
      ∷ send message net.body_sent
      ∷ shut_down
      ∷ receive
      ∷ close
      ∷ [];
  status = 0;
  report = some r;
}

module _ (decode : Option Node → ParseResult → Outcome Error (Unit {0}) (Unit {0}))
    (allocated : Bool) (nodes : List Node) (net : Network) where
  -- "Send to Server", with the `len` bytes of the message.
  unfoldable pub talk : List ℕ → ℕ → Option Ending
  unfolding request_lines read_response
  talk message len =
      let report = read_response decode allocated nodes net.response net.received in
      if not net.has_socket
      then some (record { actions = create_socket ∷ []; status = 1; report = none })
      else if not net.has_host
      then some (record { actions = create_socket ∷ look_up ∷ []; status = 1; report = none })
      else if not net.connects
      then some
          (record { actions = create_socket ∷ look_up ∷ connect ∷ []; status = 1; report = none })
      else Option.map (answered net message len) report

  -- "Final Encode": `encode` is the generated encoder on the message.
  unfoldable pub finish : Op Serializer (Unit {0}) → List ℕ → Option Ending
  unfolding talk
  finish encode final_buf = elim (encode (serializer_init final_buf 2048)) [
    | done a s ↦ talk (take s.length s.buffer) s.length
    | failed e s ↦ some (record { actions = []; status = 1; report = none })
    | fault ↦ none
    | out_of_fuel ↦ none
  ]
