-- ===== src/Client/Request.antt =====
-- The client program in Languages, main(): the constants of its request, and the parse of the
-- certificate signing request in hydrate_csr().
use asn.Base.{ℕ, zero, suc, Option, some, false, List, [], ◌∷◌, length, Outcome}
use asn.Error.{Error}
use asn.Parser.Header.{der}
use asn.Parser.Node.{Node, ParseResult, parse_result_init, asn1_parse}
use asn.Client.Digest.{derive_key}

-- `password`, "0000"
abbrev pub password : List ℕ
password = 48 ∷ 48 ∷ 48 ∷ 48 ∷ []

-- `for (int i = 0; i < 16; i++) salt[i] = i;`
abbrev pub salt_from : ℕ → ℕ → List ℕ
salt_from zero i = []
salt_from (suc left) i = i ∷ salt_from left (suc i)

abbrev pub iterations : ℕ
iterations = 10000

-- "PBM Config": the key, where `block` is the array of a fresh digest context.
unfoldable pub pbm_key : List ℕ → Option (List ℕ)
unfolding derive_key
pbm_key block = derive_key block password (salt_from 16 0) iterations

-- The AlgorithmIdentifier of the protection, in DER.
abbrev pub pbm_alg_bytes : List ℕ
pbm_alg_bytes =
    0x30 ∷ 0x3c ∷ 0x6 ∷ 0x9 ∷ 0x2a ∷ 0x86 ∷ 0x48 ∷ 0x86 ∷ 0xf6 ∷ 0x7d ∷ 0x7 ∷ 0x42 ∷ 0xd ∷ 0x30
    ∷ 0x2f ∷ 0x4 ∷ 0x10 ∷ 0x0 ∷ 0x1 ∷ 0x2 ∷ 0x3 ∷ 0x4 ∷ 0x5 ∷ 0x6 ∷ 0x7 ∷ 0x8 ∷ 0x9 ∷ 0xa ∷ 0xb
    ∷ 0xc ∷ 0xd ∷ 0xe ∷ 0xf ∷ 0x30 ∷ 0xb ∷ 0x6 ∷ 0x9 ∷ 0x60 ∷ 0x86 ∷ 0x48 ∷ 0x1 ∷ 0x65 ∷ 0x3 ∷ 0x4
    ∷ 0x2 ∷ 0x1 ∷ 0x2 ∷ 0x2 ∷ 0x27 ∷ 0x10 ∷ 0x30 ∷ 0xa ∷ 0x6 ∷ 0x8 ∷ 0x2a ∷ 0x86 ∷ 0x48 ∷ 0x86
    ∷ 0xf7 ∷ 0xd ∷ 0x2 ∷ 0x9 ∷ []

-- The certificate signing request, in DER.
abbrev pub csr_bytes : List ℕ
csr_bytes =
    0x30 ∷ 0x82 ∷ 0x1 ∷ 0xb ∷ 0x30 ∷ 0x81 ∷ 0x93 ∷ 0x2 ∷ 0x1 ∷ 0x0 ∷ 0x30 ∷ 0x14 ∷ 0x31 ∷ 0x12
    ∷ 0x30 ∷ 0x10 ∷ 0x6 ∷ 0x3 ∷ 0x55 ∷ 0x4 ∷ 0x3 ∷ 0xc ∷ 0x9 ∷ 0x72 ∷ 0x6f ∷ 0x62 ∷ 0x6f ∷ 0x74
    ∷ 0x5f ∷ 0x63 ∷ 0x39 ∷ 0x39 ∷ 0x30 ∷ 0x76 ∷ 0x30 ∷ 0x10 ∷ 0x6 ∷ 0x7 ∷ 0x2a ∷ 0x86 ∷ 0x48 ∷ 0xce
    ∷ 0x3d ∷ 0x2 ∷ 0x1 ∷ 0x6 ∷ 0x5 ∷ 0x2b ∷ 0x81 ∷ 0x4 ∷ 0x0 ∷ 0x22 ∷ 0x3 ∷ 0x62 ∷ 0x0 ∷ 0x4 ∷ 0x4
    ∷ 0x64 ∷ 0x45 ∷ 0x58 ∷ 0x18 ∷ 0xed ∷ 0x2f ∷ 0xdd ∷ 0xe4 ∷ 0x84 ∷ 0x54 ∷ 0x10 ∷ 0x7 ∷ 0xd8 ∷ 0xd0
    ∷ 0x78 ∷ 0x1d ∷ 0x43 ∷ 0x16 ∷ 0x37 ∷ 0xa ∷ 0x6b ∷ 0x77 ∷ 0x3c ∷ 0x67 ∷ 0x3a ∷ 0x17 ∷ 0x8e ∷ 0xe5
    ∷ 0x37 ∷ 0xc6 ∷ 0x92 ∷ 0xd6 ∷ 0x99 ∷ 0x82 ∷ 0x92 ∷ 0x68 ∷ 0x9a ∷ 0x1 ∷ 0x44 ∷ 0xee ∷ 0xea ∷ 0x24
    ∷ 0x5a ∷ 0x3e ∷ 0x5a ∷ 0xc0 ∷ 0x42 ∷ 0xf6 ∷ 0x37 ∷ 0x7d ∷ 0xa2 ∷ 0x73 ∷ 0x3d ∷ 0x8b ∷ 0x8e
    ∷ 0xcf ∷ 0x6a ∷ 0x3c ∷ 0xe8 ∷ 0x6b ∷ 0xbf ∷ 0x21 ∷ 0x4b ∷ 0x9 ∷ 0x36 ∷ 0x8e ∷ 0xdd ∷ 0xe4 ∷ 0xf
    ∷ 0xcc ∷ 0xb7 ∷ 0xf0 ∷ 0x55 ∷ 0x20 ∷ 0xaf ∷ 0xde ∷ 0xb7 ∷ 0xd5 ∷ 0xa1 ∷ 0x2b ∷ 0xdd ∷ 0xf8
    ∷ 0x95 ∷ 0xa8 ∷ 0xc0 ∷ 0x6b ∷ 0xac ∷ 0x45 ∷ 0x82 ∷ 0x6f ∷ 0xc1 ∷ 0x9a ∷ 0x24 ∷ 0xb0 ∷ 0xa2
    ∷ 0xa0 ∷ 0x0 ∷ 0x30 ∷ 0xa ∷ 0x6 ∷ 0x8 ∷ 0x2a ∷ 0x86 ∷ 0x48 ∷ 0xce ∷ 0x3d ∷ 0x4 ∷ 0x3 ∷ 0x2 ∷ 0x3
    ∷ 0x67 ∷ 0x0 ∷ 0x30 ∷ 0x64 ∷ 0x2 ∷ 0x30 ∷ 0x22 ∷ 0x30 ∷ 0x92 ∷ 0xd2 ∷ 0x80 ∷ 0xda ∷ 0x4a ∷ 0x43
    ∷ 0x4 ∷ 0x2 ∷ 0xf2 ∷ 0x93 ∷ 0x8d ∷ 0xcf ∷ 0x22 ∷ 0x6a ∷ 0xb0 ∷ 0x96 ∷ 0xd6 ∷ 0xff ∷ 0xd9 ∷ 0x3f
    ∷ 0xbf ∷ 0x85 ∷ 0xc7 ∷ 0x94 ∷ 0x92 ∷ 0xe8 ∷ 0xde ∷ 0xed ∷ 0x1e ∷ 0x56 ∷ 0x3a ∷ 0x94 ∷ 0x3b
    ∷ 0x50 ∷ 0x8e ∷ 0x3a ∷ 0x2d ∷ 0xe0 ∷ 0xd1 ∷ 0x8d ∷ 0x73 ∷ 0x89 ∷ 0x18 ∷ 0x59 ∷ 0x98 ∷ 0xdc ∷ 0x2
    ∷ 0x30 ∷ 0x4d ∷ 0xdf ∷ 0x80 ∷ 0x6d ∷ 0xd4 ∷ 0x79 ∷ 0x5d ∷ 0xbb ∷ 0xa2 ∷ 0xf6 ∷ 0xd9 ∷ 0x5c
    ∷ 0xa3 ∷ 0x3f ∷ 0xeb ∷ 0x90 ∷ 0xa5 ∷ 0xd8 ∷ 0xe7 ∷ 0x71 ∷ 0xa5 ∷ 0xbc ∷ 0x89 ∷ 0x44 ∷ 0x16
    ∷ 0xab ∷ 0x48 ∷ 0x13 ∷ 0xca ∷ 0x8d ∷ 0x4 ∷ 0xce ∷ 0xe9 ∷ 0xc5 ∷ 0xdc ∷ 0xfe ∷ 0x79 ∷ 0xf1 ∷ 0x89
    ∷ 0x89 ∷ 0xec ∷ 0x8f ∷ 0xfc ∷ 0x94 ∷ 0x7 ∷ 0x11 ∷ 0xeb ∷ 0x56 ∷ []

-- The call of asn1_parse() in hydrate_csr(), where `nodes` is what its array of 128 nodes holds.
unfoldable pub parse_csr : List ℕ → List Node → Outcome Error ParseResult (Unit {0})
unfolding asn1_parse
parse_csr csr nodes = asn1_parse (some csr) (length csr) der false (parse_result_init nodes 128)
