-- ===== src/Client/Keys.antt =====
-- The client program in Languages: hmac_sha256(), and sha256_update() in parts.
use asn.Base.{
  ◌^◌, ℕ, ◌≤◌, ◌<◌, ◌≡◌, refl, ap, sym, ◌∙◌, Option, none, some, List, [], ◌∷◌, ◌++◌, length,
  append-nil, ltb, arith,
}
use asn.Client.Sha256.{Sha256Ctx, option_bind, sha256_init, sha256_update, absorb}
use asn.Client.Digest.{sha256_parts, zero_bytes, hmac_with, hmac_sha256, xor_pad, digest}
use asn.Client.Returns.{
  Gives, Gives-bind, Gives-map, Gives-if, IsOpen, sha256_parts-Gives, copy_to-Gives,
}

option_bind_assoc :
    {A B C : Type 0} (o : Option A) (f : A → Option B) (g : B → Option C)
    → option_bind (option_bind o f) g ≡ option_bind o (λ a. option_bind (f a) g)
option_bind_assoc none f g = refl
option_bind_assoc (some a) f g = refl

update-append :
    (xs ys : List ℕ) (ctx : Sha256Ctx)
    → option_bind (sha256_update xs ctx) (sha256_update ys) ≡ sha256_update (xs ++ ys) ctx
unfolding sha256_update
update-append [] ys ctx = refl
update-append (x ∷ xs) ys ctx =
    option_bind_assoc (absorb x ctx) (sha256_update xs) (sha256_update ys)
    ∙ ap (option_bind (absorb x ctx)) (λ i c. update-append xs ys c i)

abbrev pub joined : List (List ℕ) → List ℕ
joined [] = []
joined (p ∷ ps) = p ++ joined ps

sha256_parts-joined :
    (p : List ℕ) (ps : List (List ℕ)) (ctx : Sha256Ctx)
    → sha256_parts (p ∷ ps) ctx ≡ sha256_parts ((p ++ joined ps) ∷ []) ctx
unfolding sha256_parts
sha256_parts-joined p [] ctx = rw append-nil
sha256_parts-joined p (q ∷ ps) ctx =
    ap (option_bind (sha256_update p ctx)) (λ i c. sha256_parts-joined q ps c i)
    ∙ sym
        (option_bind_assoc (sha256_update p ctx) (sha256_update (q ++ joined ps)) (sha256_parts []))
    ∙ ap (λ o. option_bind o (sha256_parts [])) (update-append p (q ++ joined ps) ctx)

init-IsOpen : (uninit : List ℕ) → length uninit ≡ 64 → IsOpen (sha256_init uninit)
init-IsOpen uninit h = omega arith

-- A digest is 32 bytes, and it depends only on the bytes of the parts in a row, not on how they are
-- cut into calls of sha256_update(), and neither does the context that is left; no access leaves an
-- array. The block of the context is 64 bytes, and the parts are shorter than 2 ^ 32 bytes together.
pub sha256_parts-digest :
    (p : List ℕ) (ps : List (List ℕ)) (uninit : List ℕ)
    → length uninit ≡ 64
    → length (p ++ joined ps) < 2 ^ 32
    → (bytes : List ℕ) × (ctx : Sha256Ctx) × (sha256_parts (p ∷ ps) (sha256_init uninit)
        ≡ some (bytes, ctx))
      × (sha256_parts ((p ++ joined ps) ∷ []) (sha256_init uninit) ≡ some (bytes, ctx))
      × (length bytes ≡ 32)
sha256_parts-digest p ps uninit h short =
    let ((bytes, ctx), e, (l, _)) =
      sha256_parts-Gives (p ∷ ps) (sha256_init uninit) (init-IsOpen uninit h) in
    (bytes, ctx, e, sym (sha256_parts-joined p ps (sha256_init uninit)) ∙ e, l)

hmac_with-Gives :
    (block key message : List ℕ)
    → length block ≡ 64
    → length key ≤ 64
    → Gives (λ h. length h ≡ 32) (hmac_with block key message)
unfolding hmac_with
hmac_with-Gives block key message h short =
    Gives-bind _ _ (copy_to-Gives (zero_bytes 64) 0 key (omega arith)) (λ padded l.
      Gives-bind _ _
        (sha256_parts-Gives (xor_pad 0x36 padded ∷ message ∷ []) (sha256_init block)
          (init-IsOpen block h))
        (λ (inner, ctx) (l', whole).
          Gives-map digest _
            (sha256_parts-Gives (xor_pad 0x5c padded ∷ inner ∷ []) (sha256_init ctx.block)
              (init-IsOpen ctx.block whole))
            (λ (bytes, ctx') (size, _). size)))

pub hmac_sha256-Gives :
    (uninit key message : List ℕ)
    → length uninit ≡ 64
    → length key < 2 ^ 32
    → length message < 2 ^ 32
    → Gives (λ h. length h ≡ 32) (hmac_sha256 uninit key message)
unfolding hmac_sha256
hmac_sha256-Gives uninit key message h k m =
    Gives-if (ltb 64 (length key)) _ _
      (λ _.
        Gives-bind _ _ (sha256_parts-Gives (key ∷ []) (sha256_init uninit) (init-IsOpen uninit h))
          (λ (short, ctx) (l, whole).
            hmac_with-Gives ctx.block short message whole (omega (arith, l))))
      (λ e. hmac_with-Gives uninit key message h (ground arith))
