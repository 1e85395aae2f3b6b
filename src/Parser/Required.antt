-- ===== src/Parser/Required.antt =====
-- asn1_parser.c, parse_length(): the count of the octets that a length requires.
use asn.Base.{ℕ, zero, suc, ◌+◌, ◌/◌, ◌^◌, ◌≡◌, arith}
use asn.Encoding.{count_octets, octets_needed}
use asn.Parser.Header.{required_loop}

required_loop-count_octets :
    (rounds n bytes : ℕ) → required_loop rounds n bytes ≡ bytes + count_octets rounds n
unfolding required_loop count_octets
required_loop-count_octets zero n bytes = omega arith
required_loop-count_octets (suc r) n bytes =
    ground (arith, required_loop-count_octets r (n / 2 ^ 8) (bytes + 1))

-- It is the count of asn1_encode_length().
pub required_loop-octets_needed : (n : ℕ) → required_loop 8 n 0 ≡ octets_needed n
required_loop-octets_needed n = omega (arith, required_loop-count_octets 8 n 0)
