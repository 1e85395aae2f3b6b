-- ===== src/Client/Message.antt =====
-- The client program in Languages, main(): the ProtectedPart of a message and its MAC. The encoders of
-- the header and the body are generated code outside the repository, and parameters here.
use asn.Base.{
  ℕ, ◌+◌, ◌^◌, ◌≤◌, ◌<◌, ◌≡◌, ◌∙◌, true, Option, none, some, List, [], ◌++◌, append_assoc,
  append-nil, length, length-append, take, arith, Outcome, done, failed, fault, out_of_fuel, ◌>>◌,
  bind-eq-done,
}
use mathlib.Core.Option
use asn.Error.{Error, Op}
use asn.Identifier.{id_sequence}
use asn.Encoding.{encode_identifier, encode_length}
use asn.Serializer.{Serializer, serializer_init, constructed_begin, constructed_end}
use asn.Serializer.Writes.{Holds}
use asn.Serializer.Constructed.{length-written}
use asn.Serializer.TreeRun.{Writes, peak, peak_all, constructed-Writes}
use asn.RoundTrip.{serializer_init-Holds}
use asn.Tree.{Tree, branch, cons, nil, encode, encode_all}
use asn.Types.BitString.{BitString}
use asn.Client.Sha256.{option_bind}
use asn.Client.Digest.{hmac_sha256}
use asn.Client.Keys.{hmac_sha256-Gives}

-- A call whose error is ignored; `none` is an access outside an array.
abbrev pub left_by : Outcome Error Serializer (Unit {0}) → Option Serializer
left_by (done a s) = some s
left_by (failed e s) = some s
left_by fault = none
left_by out_of_fuel = none

-- `sizeof(buffer)`
abbrev pub buffer_size : ℕ
buffer_size = 2048

module _ (encode_header encode_body : Op Serializer (Unit {0})) where
  -- The calls behind asn1_serialize_constructed_begin().
  unfoldable pub write_parts : ℕ → Serializer → Option Serializer
  write_parts marker s =
      option_bind (left_by (encode_header s))
        (λ t. option_bind (left_by (encode_body t)) (λ u. left_by (constructed_end marker u)))

  -- "Serialized ProtectedPart": `marker` is indeterminate where the first call fails, here `uninit`.
  unfoldable pub protected_part : ℕ → List ℕ → Option Serializer
  unfolding write_parts
  protected_part uninit buffer =
      elim (constructed_begin id_sequence (serializer_init buffer buffer_size)) [
        | done marker s ↦ write_parts marker s
        | failed e s ↦ write_parts uninit s
        | fault ↦ none
        | out_of_fuel ↦ none
      ]

  -- "Calculate MAC": the protection of the message; `block` is the array of a fresh digest context.
  unfoldable pub protection : ℕ → List ℕ → List ℕ → List ℕ → Option BitString
  unfolding protected_part
  protection uninit buffer block key = option_bind (protected_part uninit buffer) (λ s.
      Option.map (λ mac. record { bytes = mac; byte_count = 32; unused_bits = 0 })
        (hmac_sha256 block key (take s.length s.buffer)))

-- The calls succeed one after the other.
protected_part-done :
    (encode_header encode_body : Op Serializer (Unit {0})) (uninit marker : ℕ) (buffer : List ℕ)
    (t u v w : Serializer)
    → constructed_begin id_sequence (serializer_init buffer buffer_size) ≡ done marker t
    → encode_header t ≡ done tt u
    → encode_body u ≡ done tt v
    → constructed_end marker v ≡ done tt w
    → protected_part encode_header encode_body uninit buffer ≡ some w
unfolding protected_part
protected_part-done encode_header encode_body uninit marker buffer t u v w begun first second
      ended =
    rw (protected_part, begun, write_parts, first, second, ended)

-- An encoder writes the DER encoding of a tree where there is room for it.
abbrev pub Encodes : Op Serializer (Unit {0}) → Tree → Type 0
Encodes m t =
    (s : Serializer) (out : List ℕ)
    → Holds s out
    → s.length + peak t ≤ s.capacity
    → Writes m s out (encode t)

-- The header and the body in a sequence.
abbrev pub protected_tree : Tree → Tree → Tree
protected_tree header body = branch id_sequence (cons header (cons body nil))

module _ (encode_header encode_body : Op Serializer (Unit {0})) (header body : Tree)
    (writes_header : Encodes encode_header header) (writes_body : Encodes encode_body body) where
  both-Writes :
      (s : Serializer) (out : List ℕ)
      → Holds s out
      → s.length + peak_all (cons header (cons body nil)) ≤ s.capacity
      → Writes (encode_header >> encode_body) s out (encode_all (cons header (cons body nil)))
  unfolding peak encode
  both-Writes s out h room =
      let (t, ran, h1, cap) = writes_header s out h (omega arith) in
      let end : t.length ≡ s.length + length (encode header) = omega (
        arith,
        length-written s out h,
        length-written t (out ++ encode header) h1,
        length-append out (encode header),
      ) in
      let (u, ran', h2, cap') = writes_body t (out ++ encode header) h1 (omega arith) in
      (
        u,
        rw ran ran',
        rw (append-nil (encode body), ← append_assoc out (encode header) (encode body)) h2,
        cap' ∙ cap,
      )

  content-le :
      length (encode_all (cons header (cons body nil)))
      ≤ length (encode (protected_tree header body))
  unfolding encode
  content-le =
      let content = encode_all (cons header (cons body nil)) in
      omega (
        arith,
        length-append (encode_identifier id_sequence true)
            (encode_length (length content) ++ content),
        length-append (encode_length (length content)) content,
      )

  protected_part-encode :
      (uninit : ℕ) (buffer : List ℕ)
      → buffer_size ≤ length buffer
      → peak (protected_tree header body) ≤ buffer_size
      → length (encode_all (cons header (cons body nil))) < 2 ^ 32
      → (s : Serializer) × (protected_part encode_header encode_body uninit buffer ≡ some s)
        × (take s.length s.buffer ≡ encode (protected_tree header body))
  unfolding protected_part peak encode
  protected_part-encode uninit buffer inside room short =
      let parts = encode_header >> encode_body in
      let content = encode_all (cons header (cons body nil)) in
      let s0 = serializer_init buffer buffer_size in
      let (u, ran, h, _) =
        constructed-Writes id_sequence parts content (peak_all (cons header (cons body nil))) s0 []
          (serializer_init-Holds buffer buffer_size inside (omega arith)) short
          (omega (arith, room)) both-Writes in
      let (marker, t, begun, rest) =
        bind-eq-done (constructed_begin id_sequence s0) (λ marker. parts >> constructed_end marker)
          ran in
      let (_, v, both, ended) = bind-eq-done (parts t) (λ _. constructed_end marker) rest in
      let (_, w, first, second) = bind-eq-done (encode_header t) (λ _. encode_body) both in
      (
        u,
        protected_part-done encode_header encode_body uninit marker buffer t w v u begun first
            second ended,
        h.written,
      )

  -- The ProtectedPart that main() writes is the DER encoding of a sequence of the header and the body,
  -- and the protection is the HMAC-SHA256 of exactly these bytes under the key, 32 bytes with no unused
  -- bits, whatever an indeterminate marker and the fresh block of the digest hold. The encoders write the
  -- encodings of two trees wherever there is room, the sequence fits the 2048 bytes of the buffer, the
  -- array has as many, the block 64, and the key is shorter than 2 ^ 32 bytes.
  pub protection-hmac_sha256 :
      (uninit : ℕ) (buffer block key : List ℕ)
      → buffer_size ≤ length buffer
      → peak (protected_tree header body) ≤ buffer_size
      → length (encode (protected_tree header body)) < 2 ^ 32
      → length block ≡ 64
      → length key < 2 ^ 32
      → (s : Serializer) × (protected_part encode_header encode_body uninit buffer ≡ some s)
        × (take s.length s.buffer ≡ encode (protected_tree header body))
        × (mac : List ℕ) × (hmac_sha256 block key (encode (protected_tree header body)) ≡ some mac)
        × (length mac ≡ 32)
        × (protection encode_header encode_body uninit buffer block key
            ≡ some (record { bytes = mac; byte_count = 32; unused_bits = 0 }))
  unfolding protection
  protection-hmac_sha256 uninit buffer block key inside room short fresh small =
      let (s, ran, written) =
        protected_part-encode uninit buffer inside room (omega (arith, content-le, short)) in
      let (mac, made, size) =
        hmac_sha256-Gives block key (encode (protected_tree header body)) fresh small short in
      (s, ran, written, mac, made, size, rw (protection, ran, written, made))
