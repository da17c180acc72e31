-- ===== src/Crypto/Keys/RoundTrip.antt =====
-- `unwrap_vault_keys` undoes `wrap_vault_keys` (crypto.py).
use password_bonobo.Prelude.{
  ◌<◌, ◌*◌, ◌≡◌, refl, sym, ap, ◌∙◌, List, [], ◌∷◌, ◌++◌, map, length, take, drop, join, All, arith,
  length-append, length-take, length-drop, All-append, All-take, All-drop, take-append-drop,
  take_all, take-append_eq, drop-append_eq, drop-drop,
}
use password_bonobo.Prelude.Bytes.{Bytes, AreBytes}
use password_bonobo.Errors.{ok, ◌>>=◌}
use password_bonobo.Constants.{hmac_bytes, wrapped_key_bytes}
use password_bonobo.Crypto.Interface.{TwofishKey, TwofishBackend, IsBlockCipher}
use password_bonobo.Crypto.Cbc.Laws.{IsBlock}
use password_bonobo.Crypto.Keys.{
  VaultKeys, vault_keys, map_blocks, halves, quarters, destinations, wrap_vault_keys,
  unwrap_vault_keys,
}

-- Two keys of thirty-two bytes.
pub record AreKeys (keys : VaultKeys) : Type 0 where
  pub content_size : length keys.content_key ≡ hmac_bytes
  pub hmac_size : length keys.hmac_key ≡ hmac_bytes
  pub content_bytes : AreBytes keys.content_key
  pub hmac_bytes_are : AreBytes keys.hmac_key

quarters-join :
    (a b c d : Bytes)
    → length a ≡ 16
    → length b ≡ 16
    → length c ≡ 16
    → length d ≡ 16
    → quarters (join (a ∷ b ∷ c ∷ d ∷ [])) ≡ a ∷ b ∷ c ∷ d ∷ []
quarters-join a b c d p q r s =
    let tail : Bytes = c ++ (d ++ []) in
    let one : drop 16 (a ++ (b ++ tail)) ≡ b ++ tail = drop-append_eq 16 a (b ++ tail) p in
    let two : drop 32 (a ++ (b ++ tail)) ≡ tail =
      sym (drop-drop 16 16 (a ++ (b ++ tail))) ∙ ap (drop 16) one ∙ drop-append_eq 16 b tail q in
    let three : drop 48 (a ++ (b ++ tail)) ≡ d ++ [] =
      sym (drop-drop 16 32 (a ++ (b ++ tail)))
      ∙ ap (drop 16) two
      ∙ drop-append_eq 16 c (d ++ []) r in
    let first : take 16 (a ++ (b ++ tail)) ≡ a = take-append_eq 16 a (b ++ tail) p in
    let second : take 16 (drop 16 (a ++ (b ++ tail))) ≡ b =
      ap (take 16) one ∙ take-append_eq 16 b tail q in
    let third : take 16 (drop 32 (a ++ (b ++ tail))) ≡ c =
      ap (take 16) two ∙ take-append_eq 16 c (d ++ []) r in
    let fourth : take 16 (drop 48 (a ++ (b ++ tail))) ≡ d =
      ap (take 16) three ∙ take-append_eq 16 d [] s in
    λ i. first i ∷ second i ∷ third i ∷ fourth i ∷ []

-- The halves of a key are blocks, and make up the key.
first-IsBlock : (key : Bytes) → length key ≡ 32 → AreBytes key → IsBlock (take 16 key)
first-IsBlock key h a = record {
  size = omega (arith, length-take 16 key);
  bytes = All-take (λ b. b < 256) 16 key a;
}

second-IsBlock : (key : Bytes) → length key ≡ 32 → AreBytes key → IsBlock (take 16 (drop 16 key))
second-IsBlock key h a = record {
  size = omega (arith, length-take 16 (drop 16 key), length-drop 16 key);
  bytes = All-take (λ b. b < 256) 16 (drop 16 key) (All-drop (λ b. b < 256) 16 key a);
}

halves_whole : (key : Bytes) → length key ≡ 32 → take 16 key ++ take 16 (drop 16 key) ≡ key
halves_whole key h =
    ap (λ r. take 16 key ++ r) (take_all 16 (drop 16 key) (omega (arith, length-drop 16 key)))
    ∙ take-append-drop 16 key

module _ {k : TwofishKey} {enc : Bytes → Bytes} (cipher : IsBlockCipher k enc) where
  map_blocks-encrypt :
      (bs : List Bytes) → All IsBlock bs → map_blocks k.encrypt_block bs ≡ ok (map enc bs)
  unfolding map_blocks
  map_blocks-encrypt [] h = refl
  map_blocks-encrypt (b ∷ bs) h = rw (
    cipher.encrypts b h.0.bytes h.0.size,
    cipher.length-enc b h.0.bytes h.0.size,
    map_blocks-encrypt bs h.1,
  )

  map_blocks-decrypt :
      (bs : List Bytes) → All IsBlock bs → map_blocks k.decrypt_block (map enc bs) ≡ ok bs
  unfolding map_blocks
  map_blocks-decrypt [] h = refl
  map_blocks-decrypt (b ∷ bs) h =
      rw (cipher.decrypts b h.0.bytes h.0.size, h.0.size, map_blocks-decrypt bs h.1)

join-IsBlock :
    (bs : List Bytes) → All IsBlock bs → (length (join bs) ≡ length bs * 16) × AreBytes (join bs)
join-IsBlock [] h = (refl, tt)
join-IsBlock (b ∷ bs) h =
    let (size, bytes) = join-IsBlock bs h.1 in
    (
      omega (arith, length-append b (join bs), h.0.size, size),
      All-append (λ b. b < 256) b (join bs) h.0.bytes bytes,
    )

-- The wrapped form of two keys.
abbrev pub wrapped_form : (Bytes → Bytes) → VaultKeys → Bytes
wrapped_form enc keys = join (map enc (halves keys.content_key ++ halves keys.hmac_key))

module _ {k : TwofishKey} {enc : Bytes → Bytes} (cipher : IsBlockCipher k enc) where
  enc_blocks : (bs : List Bytes) → All IsBlock bs → All IsBlock (map enc bs)
  enc_blocks [] h = tt
  enc_blocks (b ∷ bs) h = (
    record {
      size = cipher.length-enc b h.0.bytes h.0.size;
      bytes = cipher.enc-AreBytes b h.0.bytes h.0.size;
    },
    enc_blocks bs h.1,
  )

  key_blocks :
      (keys : VaultKeys)
      → AreKeys keys
      → All IsBlock (halves keys.content_key ++ halves keys.hmac_key)
  key_blocks keys a = (
    first-IsBlock keys.content_key a.content_size a.content_bytes,
    (
      second-IsBlock keys.content_key a.content_size a.content_bytes,
      (
        first-IsBlock keys.hmac_key a.hmac_size a.hmac_bytes_are,
        (second-IsBlock keys.hmac_key a.hmac_size a.hmac_bytes_are, tt),
      ),
    ),
  )

  pub wrap-eq-wrapped_form :
      (backend : TwofishBackend) (derived : Bytes) (keys : VaultKeys)
      → backend.key derived ≡ ok k
      → AreKeys keys
      → wrap_vault_keys backend derived keys ≡ ok (wrapped_form enc keys)
  unfolding wrap_vault_keys
  wrap-eq-wrapped_form backend derived keys e a = rw (
    e,
    map_blocks-encrypt cipher (halves keys.content_key ++ halves keys.hmac_key) (key_blocks keys a),
  )

  pub wrapped_form_size :
      (keys : VaultKeys)
      → AreKeys keys
      → (length (wrapped_form enc keys) ≡ wrapped_key_bytes) × AreBytes (wrapped_form enc keys)
  wrapped_form_size keys a =
      let blocks = halves keys.content_key ++ halves keys.hmac_key in
      join-IsBlock (map enc blocks) (enc_blocks blocks (key_blocks keys a))

  unwrap-wrapped_form :
      (backend : TwofishBackend) (derived : Bytes) (keys : VaultKeys)
      → backend.key derived ≡ ok k
      → AreKeys keys
      → unwrap_vault_keys backend derived (wrapped_form enc keys) ≡ ok keys
  unfolding unwrap_vault_keys vault_keys
  unwrap-wrapped_form backend derived keys e a =
      let blocks = halves keys.content_key ++ halves keys.hmac_key in
      let b = enc_blocks blocks (key_blocks keys a) in
      let parts : map_blocks k.decrypt_block (quarters (wrapped_form enc keys)) ≡ ok blocks =
        ap (map_blocks k.decrypt_block) (
          quarters-join (enc (take 16 keys.content_key)) (enc (take 16 (drop 16 keys.content_key)))
            (enc (take 16 keys.hmac_key)) (enc (take 16 (drop 16 keys.hmac_key))) b.0.size
            b.1.0.size b.1.1.0.size b.1.1.1.0.size)
        ∙ map_blocks-decrypt cipher blocks (key_blocks keys a) in
      rw ((wrapped_form_size keys a).0, e)
        (ap (λ m. m >>= λ bs. destinations bs) parts
          ∙ rw (
            halves_whole keys.content_key a.content_size,
            halves_whole keys.hmac_key a.hmac_size,
            a.content_size,
            a.hmac_size,
          ))

-- Keys that are wrapped under a derived key and unwrapped under the same come back; the wrapped
-- form is the four encrypted halves, 64 bytes.
pub unwrap-wrap :
    {k : TwofishKey} {enc : Bytes → Bytes} (backend : TwofishBackend) (derived : Bytes)
    (keys : VaultKeys)
    → IsBlockCipher k enc
    → backend.key derived ≡ ok k
    → AreKeys keys
    → (wrap_vault_keys backend derived keys ≡ ok (wrapped_form enc keys))
      × (length (wrapped_form enc keys) ≡ wrapped_key_bytes)
      × (unwrap_vault_keys backend derived (wrapped_form enc keys) ≡ ok keys)
unwrap-wrap backend derived keys cipher e a = (
  wrap-eq-wrapped_form cipher backend derived keys e a,
  (wrapped_form_size cipher keys a).0,
  unwrap-wrapped_form cipher backend derived keys e a,
)
