-- ===== src/Examples/Messages.antt =====
-- The protected part of a message whose header and body are written as small trees.
use asn.Base.{
  zero, suc, Option, none, Outcome, done, false, ℕ, ◌≡◌, ◌≤◌, ◌<◌, ◌^◌, refl, some, List, [], ◌∷◌,
  length, take, arith,
}
use asn.Identifier.{id_integer, id_octet_string}
use asn.Error.{Error}
use asn.Parser.Header.{der}
use asn.Parser.Node.{Node, ParseResult, parse_result_init, asn1_parse}
use asn.Client.Request.{csr_bytes, pbm_alg_bytes, parse_csr}
use asn.Examples.Samples.{blank}
use asn.Serializer.{Serializer}
use asn.Serializer.TreeRun.{serialize_tree, serialize_tree-Writes, peak, IsShort}
use asn.Encoding.{encode_length, encode_identifier}
use asn.Tree.{Tree, leaf, encode}
use asn.Client.Digest.{zero_bytes, hmac_sha256}
use asn.Client.Returns.{length-zero_bytes}
use asn.Client.Message.{
  Encodes, buffer_size, protected_part, protected_tree, protection, protection-hmac_sha256,
}

abbrev pub header : Tree
header = leaf id_integer (2 ∷ [])

abbrev body : Tree
body = leaf id_octet_string (7 ∷ 8 ∷ [])

pub leaf-Encodes : (t : Tree) → IsShort t → Encodes (serialize_tree t) t
leaf-Encodes t short s out h room = serialize_tree-Writes t s out h short room

pub header-IsShort : IsShort header
unfolding IsShort
header-IsShort = tt

body-IsShort : IsShort body
unfolding IsShort
body-IsShort = tt

small-peak : peak (protected_tree header body) ≤ buffer_size
unfolding peak encode encode_length encode_identifier
small-peak = omega arith

small-encode : length (encode (protected_tree header body)) < 2 ^ 32
unfolding encode encode_length encode_identifier
small-encode = omega arith

protection-hmac_sha256_example :
    (s : Serializer) × (protected_part
        (serialize_tree header)
        (serialize_tree body)
        9
        (zero_bytes 2048)
      ≡ some s)
    × (take s.length s.buffer ≡ encode (protected_tree header body))
    × (mac : List ℕ) × (hmac_sha256
          (zero_bytes 64)
          (1 ∷ 2 ∷ [])
          (encode (protected_tree header body))
        ≡ some mac)
    × (length mac ≡ 32)
    × (protection
          (serialize_tree header)
          (serialize_tree body)
          9
          (zero_bytes 2048)
          (zero_bytes 64)
          (1 ∷ 2 ∷ [])
        ≡ some (record { bytes = mac; byte_count = 32; unused_bits = 0 }))
protection-hmac_sha256_example =
    protection-hmac_sha256 (serialize_tree header) (serialize_tree body) header body
      (leaf-Encodes header header-IsShort) (leaf-Encodes body body-IsShort) 9 (zero_bytes 2048)
      (zero_bytes 64) (1 ∷ 2 ∷ []) (omega (arith, length-zero_bytes 2048)) small-peak small-encode
      (length-zero_bytes 64) (omega arith)

-- How many nodes a parse stored; none where it failed.
abbrev stored_count : Outcome Error ParseResult (Unit {0}) → Option ℕ
stored_count (done a t) = some t.count
stored_count _ = none

abbrev pub blanks : ℕ → List Node
blanks zero = []
blanks (suc n) = blank ∷ blanks n

csr_parsed : stored_count (parse_csr csr_bytes (blanks 128)) ≡ some 17
unfolding parse_csr
csr_parsed = refl

pbm_alg_parsed :
    stored_count (asn1_parse (some pbm_alg_bytes) 62 der false (parse_result_init (blanks 16) 16))
    ≡ some 9
unfolding asn1_parse
pbm_alg_parsed = refl
