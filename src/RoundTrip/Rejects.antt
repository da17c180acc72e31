-- ===== src/RoundTrip/Rejects.antt =====
-- `open_snapshot` of reader.py on vaults it must reject: another passphrase, another HMAC, no version
-- field in front.
use password_bonobo.Prelude.{
  ℕ, Option, none, some, [], ◌∷◌, ap, true, ◌!=◌, ◌+◌, ◌*◌, ◌≡◌, ◌≢◌, ◌≤◌, ◌<◌, false, inl, inr,
  List, ◌++◌, length, join, arith, Bool-cases,
}
use password_bonobo.Prelude.Bytes.{Bytes, bytes_eq, bytes_eq→eq, bytes_eq_refl}
use password_bonobo.Errors.{
  raise, authentication_error, password_check_failed, integrity_error, hmac_mismatch, ok,
  malformed_vault_error, missing_mandatory_field,
}
use password_bonobo.Constants.{ResourceLimits, eof_marker}
use password_bonobo.Crypto.Interface.{
  TwofishKey, TwofishBackend, IsBackend, Digests, AreDigests, RandomSource, IsRandomSource,
}
use password_bonobo.Crypto.Cbc.Laws.{IsBlock}
use password_bonobo.Crypto.Keys.{VaultKeys, stretch_passphrase}
use password_bonobo.Crypto.Keys.RoundTrip.{AreKeys, unwrap-wrap, wrapped_form}
use password_bonobo.Crypto.Keys.Stretch.{stretch_passphrase-size}
use password_bonobo.Snapshots.{snapshot_of}
use password_bonobo.Model.{RawField, VaultDocument}
use password_bonobo.Writer.{Material, write_candidate}
use password_bonobo.Writer.Document.{frames_blocks, write_candidate-eq-candidate_of}
use password_bonobo.Reader.Version.{validate_version_fields}
use password_bonobo.Reader.Fields.Rebuild.{IsSection, marker, field, read_back}
use password_bonobo.Reader.Envelope.Laws.{Layout, HasSizes, file_bytes, read_envelope-file_bytes}
use password_bonobo.Reader.Fields.Document.{decrypt_fields-document}
use password_bonobo.Reader.Open.{open_snapshot, authenticate, publish_authenticated}
use password_bonobo.RoundTrip.{
  CanWrite, IsMaterial, authenticated, authenticate-candidate, some_blocks, ciphertext_part,
  layout_of, layout_sizes, small_file,
}

bytes_eq-neq : (xs ys : Bytes) → xs ≢ ys → bytes_eq xs ys ≡ false
bytes_eq-neq xs ys h = elim (Bool-cases (bytes_eq xs ys)) [
  | inl same ↦ absurd (h (bytes_eq→eq xs ys same))
  | inr differ ↦ differ
]

-- A file with the layout of a vault, within the limits, is rejected for its password check when
-- the key that the passphrase gives has another digest.
pub open_snapshot-wrong_passphrase :
    (backend : TwofishBackend) (digests : Digests) (l : Layout) (blocks : ℕ)
    (limits : ResourceLimits) (issued : ℕ) (passphrase derived : Bytes)
    → HasSizes l blocks
    → 0 < blocks
    → blocks * 16 + 200 ≤ limits.max_encrypted_file_bytes
    → 0 < l.iterations
    → l.iterations ≤ limits.max_iterations
    → stretch_passphrase digests passphrase l.salt l.iterations limits ≡ ok derived
    → digests.sha256 derived ≢ l.password_check
    → open_snapshot backend digests issued (snapshot_of (file_bytes l)) passphrase limits
      ≡ raise (authentication_error password_check_failed)
unfolding open_snapshot authenticate
open_snapshot-wrong_passphrase backend digests l blocks limits issued passphrase derived sizes
      filled small pos within h other =
    rw (
      small_file l limits sizes small,
      read_envelope-file_bytes l blocks sizes limits filled pos within,
      h,
      bytes_eq-neq (digests.sha256 derived) l.password_check other,
    )

-- The layout with another HMAC.
abbrev pub with_hmac : Layout → Bytes → Layout
with_hmac l stored = record {
  salt = l.salt;
  iterations = l.iterations;
  password_check = l.password_check;
  wrapped_keys = l.wrapped_keys;
  iv = l.iv;
  ciphertext = l.ciphertext;
  stored_hmac = stored;
}

with_hmac-HasSizes :
    (l : Layout) (blocks : ℕ) (stored : Bytes)
    → HasSizes l blocks
    → length stored ≡ 32
    → HasSizes (with_hmac l stored) blocks
with_hmac-HasSizes l blocks stored sizes h = record {
  salt = sizes.salt;
  iterations = sizes.iterations;
  password_check = sizes.password_check;
  wrapped_keys = sizes.wrapped_keys;
  iv = sizes.iv;
  ciphertext = sizes.ciphertext;
  stored_hmac = h;
}

-- The type of the first field.
abbrev pub first_type : List RawField → Option ℕ
first_type [] = none
first_type (raw ∷ raws) = some raw.type_code

unversioned :
    (limits : ResourceLimits) (raws : List RawField) (cs : List Bytes)
    → IsSection raws cs
    → first_type raws ≢ some 0
    → validate_version_fields (read_back 0 raws cs) limits
      ≡ raise (malformed_vault_error missing_mandatory_field)
unfolding validate_version_fields
unversioned limits _ _ (marker raw e) h =
    let other : (raw.type_code != 0) ≡ true = ground (arith, e) in rw other
unversioned limits _ _ (field raw c ne s) h =
    let differs : raw.type_code ≢ 0 = λ e. h (ap some e) in
    let other : (raw.type_code != 0) ≡ true = ground (arith, differs) in rw other

module _ (backend : TwofishBackend) {key_of : Bytes → TwofishKey} {enc_of : Bytes → Bytes → Bytes}
    (back : IsBackend backend key_of enc_of) (digests : Digests) (dig : AreDigests digests)
    (random : RandomSource) (src : IsRandomSource random) where
  -- A candidate whose HMAC is replaced by another one of 32 bytes is not opened with the passphrase
  -- it was written for: an integrity error is raised.
  pub open_snapshot-wrong_hmac :
      (limits : ResourceLimits) (document : VaultDocument) (hcs : List Bytes)
      (css : List (List Bytes)) (material : Material) (passphrase : Bytes) (keys : VaultKeys)
      (iv : Bytes) (calls issued : ℕ) (stored : Bytes)
      → CanWrite limits document hcs css
      → IsMaterial digests limits passphrase material
      → AreKeys keys
      → IsBlock iv
      → length stored ≡ 32
      → digests.hmac_sha256 keys.hmac_key (join (hcs ++ join css)) ≢ stored
      → open_snapshot backend digests issued
          (snapshot_of (
            file_bytes (
              with_hmac
                (layout_of backend back digests dig random src document
                  (hcs ++ join css)
                  material
                  keys
                  iv
                  calls)
                stored)))
          passphrase
          limits
        ≡ raise (integrity_error hmac_mismatch)
  unfolding open_snapshot authenticate
  open_snapshot-wrong_hmac limits document hcs css material passphrase keys iv calls issued stored w
        m a v size other =
      let cs = hcs ++ join css in
      let derivation =
        stretch_passphrase-size digests passphrase material.salt material.iterations limits
          material.derived_key m.derived in
      let wrapping =
        unwrap-wrap backend material.derived_key keys (back.ciphers _ derivation.0)
          (back.gives _ derivation.0) a in
      let written =
        layout_of backend back digests dig random src document cs material keys iv calls in
      let l = with_hmac written stored in
      let sizes =
        with_hmac-HasSizes written (frames_blocks cs) stored
          (layout_sizes backend back digests dig random src limits document cs material keys iv
            calls limits.io_chunk_bytes a v derivation.0 derivation.1 m.fits w.contents)
          size in
      rw (
        small_file l limits sizes w.file_size,
        read_envelope-file_bytes l (frames_blocks cs) sizes limits
            (some_blocks document.header_fields hcs (join css) w.header) derivation.2 derivation.3,
        m.derived,
        bytes_eq_refl (digests.sha256 material.derived_key),
        wrapping.2,
        decrypt_fields-document (back.ciphers _ a.content_size) backend digests random src
            (file_bytes l) (eof_marker ++ stored)
            (record {
              salt = material.salt;
              iterations = material.iterations;
              password_check = digests.sha256 material.derived_key;
              wrapped_keys = written.wrapped_keys;
              iv = iv;
              encrypted_offset = 152;
              encrypted_length = frames_blocks cs * 16;
              stored_hmac = stored;
            })
            keys limits calls limits.io_chunk_bytes document hcs css (back.gives _ a.content_size)
            a.content_size a.hmac_size v w.contents w.short w.header w.records w.record_count
            w.field_count (omega arith) (ciphertext_part l sizes),
        bytes_eq-neq (digests.hmac_sha256 keys.hmac_key (join cs)) stored other,
      )

  -- A candidate that is written of a document whose header does not begin with a version field is
  -- authenticated with its passphrase, and not opened: a mandatory field is missing.
  pub open_snapshot-unversioned :
      (limits : ResourceLimits) (document : VaultDocument) (hcs : List Bytes)
      (css : List (List Bytes)) (material : Material) (passphrase : Bytes) (keys : VaultKeys)
      (iv : Bytes) (calls issued : ℕ)
      → CanWrite limits document hcs css
      → IsMaterial digests limits passphrase material
      → AreKeys keys
      → IsBlock iv
      → first_type document.header_fields ≢ some 0
      → (candidate : Bytes) × (write_candidate backend digests random limits document material keys
            iv calls
          ≡ ok candidate)
        × (authenticate backend digests (snapshot_of candidate) passphrase limits
            ≡ ok (authenticated digests enc_of document hcs css material keys iv))
        × (open_snapshot backend digests issued (snapshot_of candidate) passphrase limits
            ≡ raise (malformed_vault_error missing_mandatory_field))
  unfolding open_snapshot publish_authenticated
  open_snapshot-unversioned limits document hcs css material passphrase keys iv calls issued w m a v
        other =
      let cs = hcs ++ join css in
      let derivation =
        stretch_passphrase-size digests passphrase material.salt material.iterations limits
          material.derived_key m.derived in
      let wrapping =
        unwrap-wrap backend material.derived_key keys (back.ciphers _ derivation.0)
          (back.gives _ derivation.0) a in
      let l = layout_of backend back digests dig random src document cs material keys iv calls in
      let sizes =
        layout_sizes backend back digests dig random src limits document cs material keys iv calls
          limits.io_chunk_bytes a v derivation.0 derivation.1 m.fits w.contents in
      let opens =
        authenticate-candidate backend back digests dig random src limits document hcs css material
          passphrase keys iv calls w m a v in
      (
        file_bytes l,
        write_candidate-eq-candidate_of random src backend digests limits document cs material keys
            (wrapped_form (enc_of material.derived_key) keys) iv calls
            (back.ciphers _ a.content_size) (back.gives _ a.content_size) wrapping.0 a.content_size
            a.hmac_size v m.fits w.contents,
        opens,
        rw (
          small_file l limits sizes w.file_size,
          opens,
          unversioned limits document.header_fields hcs w.header other,
        ),
      )
