-- ===== src/Client/Sent.antt =====
-- The client program in Languages, main(): the request that it sends.
use asn.Base.{
  ℕ, ◌+◌, ◌-◌, ◌*◌, ◌≤◌, ◌≡◌, Bool, true, ◌&&◌, Option, none, some, List, [], ◌∷◌, ◌++◌, length,
  take, drop, All, leb,
}
use asn.Error.{Error}
use asn.Parser.Node.{Node}
use asn.Serializer.{Serializer}
use asn.Tree.{Tree}
use asn.Client.Answer.{delimiter, strstr}
use asn.Client.Exchange.{
  Action, send, create_socket, look_up, connect, shut_down, receive, close, Network, post_line,
  length_field,
}

-- Characters behind the line ends in the order of ASCII.
abbrev IsPlain : List ℕ → Type 0
IsPlain xs = All (λ c. 14 ≤ c) xs

is_plain : List ℕ → Bool
is_plain [] = true
is_plain (x ∷ xs) = leb 14 x && is_plain xs

-- The number that digits stand for.
abbrev pub number_of : ℕ → List ℕ → ℕ
number_of v [] = v
number_of v (c ∷ cs) = number_of (v * 10 + (c - 48)) cs

-- The bytes that the calls of send() took, in a row.
abbrev pub taken : Option ℕ → List ℕ → List ℕ
taken none xs = []
taken (some n) xs = take n xs

abbrev pub bytes_sent : List Action → List ℕ
bytes_sent [] = []
bytes_sent (send xs got ∷ more) = taken got xs ++ bytes_sent more
bytes_sent (create_socket ∷ more) = bytes_sent more
bytes_sent (look_up ∷ more) = bytes_sent more
bytes_sent (connect ∷ more) = bytes_sent more
bytes_sent (shut_down ∷ more) = bytes_sent more
bytes_sent (receive ∷ more) = bytes_sent more
bytes_sent (close ∷ more) = bytes_sent more

-- There is a connection.
pub record IsUp (net : Network) : Type 0 where
  pub has_socket : net.has_socket ≡ true
  pub has_host : net.has_host ≡ true
  pub connects : net.connects ≡ true

-- The characters before the digits of the length.
abbrev pub digits_at : ℕ
digits_at = length post_line + 2 + length length_field

-- What a server reads that looks for the first empty line: the body behind it is the message, and the
-- digits before it are the length of the message.
pub record IsRequest (bytes message : List ℕ) : Type 0 where
  pub index : ℕ
  pub found : strstr delimiter bytes ≡ some (some index)
  pub body : drop (index + 4) bytes ≡ message
  pub announced : number_of 0 (drop digits_at (take index bytes)) ≡ length message
