-- ===== src/RoundTrip.antt =====
-- The writer's candidate (writer.py) under the reader (reader.py): what was written is opened.
pub mod Rejects
pub mod Reopened
use password_bonobo.RoundTrip.Reopened.{IsAccepted, IsReopened, hardened, build-IsReopened}
use password_bonobo.Prelude.{
  ℕ, ◌+◌, ◌*◌, ◌≡◌, ◌≤◌, ◌<◌, refl, sym, ap, ap₂, ◌∙◌, Bool-cases, inl, inr, Option, none, some,
  leb, ◌&&◌, if◌then◌else◌, map, [], ◌∷◌, false, List, ◌++◌, append_assoc, length, drop, ltb, join,
  arith, drop-append_eq,
}
use password_bonobo.Prelude.Bytes.{Bytes, bytes_eq_refl}
use password_bonobo.Errors.{ok}
use password_bonobo.Constants.{
  FormatVersion, minimum_iterations, ResourceLimits, hmac_bytes, salt_bytes, eof_marker,
}
use password_bonobo.Crypto.Interface.{
  TwofishKey, TwofishBackend, IsBackend, Digests, AreDigests, RandomSource, IsRandomSource,
}
use password_bonobo.Crypto.Cbc.Laws.{IsBlock}
use password_bonobo.Crypto.Cbc.Chain.{chain, length-chain}
use password_bonobo.Crypto.Keys.{VaultKeys, stretch_passphrase}
use password_bonobo.Crypto.Keys.RoundTrip.{AreKeys, wrapped_form, unwrap-wrap}
use password_bonobo.Crypto.Keys.Stretch.{
  stretch_passphrase-size, digest_power, stretch_passphrase-eq-digest_power,
}
use password_bonobo.Snapshots.{snapshot_of, size}
use password_bonobo.Payloads.{FieldPayload, inline}
use password_bonobo.Model.{RawField, RawRecord, PreservationWarning, VaultDocument, iter_fields}
use password_bonobo.Reader.Envelope.{Envelope}
use password_bonobo.Reader.Builder.{BuilderField, build, raw_field, raw_records}
use password_bonobo.Reader.Version.{validate_version_fields}
use password_bonobo.Reader.Validation.{Validated, ValidatedRecords, validate_schema_fields}
use password_bonobo.Reader.Validation.Kept.{place, validate_schema_fields-place}
use password_bonobo.Writer.{Material, write_candidate}
use password_bonobo.Writer.Document.{
  HaveContents, frames, frames_blocks, frames-Fills, candidate_of, write_candidate-eq-candidate_of,
}
use password_bonobo.Reader.Envelope.Laws.{
  Layout, HasSizes, file_bytes, prefix_bytes, length-prefix, length-file, read_envelope-file_bytes,
}
use password_bonobo.Reader.Fields.Stream.{AreShort}
use password_bonobo.Reader.Fields.Rebuild.{IsSection, marker, field, read_back}
use password_bonobo.Reader.Fields.Records.{AreSections, read_back_records}
use password_bonobo.Reader.Fields.Document.{decrypt_fields-document}
use password_bonobo.Reader.Open.{
  Authenticated, OpenedSnapshot, authenticate, harden, publish_authenticated, open_snapshot,
}

-- A document whose payloads stream these contents: sections that are ended by their markers, short
-- fields, and everything within the limits, the file's size included.
pub record CanWrite (limits : ResourceLimits) (document : VaultDocument) (hcs : List Bytes)
    (css : List (List Bytes)) : Type 0 where
  pub contents : HaveContents limits.io_chunk_bytes (iter_fields document) (hcs ++ join css)
  pub short : AreShort limits (hcs ++ join css)
  pub header : IsSection document.header_fields hcs
  pub records : AreSections document.records css
  pub record_count : length document.records ≤ limits.max_records
  pub field_count : length (iter_fields document) ≤ limits.max_fields
  pub file_size : frames_blocks (hcs ++ join css) * 16 + 200 ≤ limits.max_encrypted_file_bytes

-- Key material that goes with a passphrase under these limits.
pub record IsMaterial (digests : Digests) (limits : ResourceLimits) (passphrase : Bytes)
    (material : Material) : Type 0 where
  pub fits : material.iterations < 4294967296
  pub derived :
      stretch_passphrase digests passphrase material.salt material.iterations limits
      ≡ ok material.derived_key

-- What the reader is to find in a candidate of this document and key material.
abbrev pub authenticated :
    Digests
    → (Bytes → Bytes → Bytes)
    → VaultDocument
    → List Bytes
    → List (List Bytes)
    → Material
    → VaultKeys
    → Bytes
    → Authenticated
authenticated digests enc_of document hcs css material keys iv = record {
  envelope = record {
    salt = material.salt;
    iterations = material.iterations;
    password_check = digests.sha256 material.derived_key;
    wrapped_keys = wrapped_form (enc_of material.derived_key) keys;
    iv = iv;
    encrypted_offset = 152;
    encrypted_length = frames_blocks (hcs ++ join css) * 16;
    stored_hmac = digests.hmac_sha256 keys.hmac_key (join (hcs ++ join css));
  };
  derived_key = material.derived_key;
  keys = keys;
  builder = record {
    header = read_back 0 document.header_fields hcs;
    records = read_back_records document.records css;
  };
}

pub some_blocks :
    (raws : List RawField) (hcs cs : List Bytes)
    → IsSection raws hcs
    → 0 < frames_blocks (hcs ++ cs)
some_blocks _ _ cs (marker raw e) = omega arith
some_blocks _ _ cs (field raw c ne s) = omega arith

-- The ciphertext stands behind the prefix.
pub ciphertext_part :
    (l : Layout) {blocks : ℕ}
    → HasSizes l blocks
    → drop (152 + 0) (file_bytes l) ≡ l.ciphertext ++ (eof_marker ++ l.stored_hmac)
ciphertext_part l sizes =
    ap (drop 152) (append_assoc (prefix_bytes l) l.ciphertext (eof_marker ++ l.stored_hmac))
    ∙ drop-append_eq 152 (prefix_bytes l) (l.ciphertext ++ (eof_marker ++ l.stored_hmac))
        (length-prefix l _ sizes)

pub small_file :
    (l : Layout) {blocks : ℕ} (limits : ResourceLimits)
    → HasSizes l blocks
    → blocks * 16 + 200 ≤ limits.max_encrypted_file_bytes
    → ltb limits.max_encrypted_file_bytes (size (snapshot_of (file_bytes l))) ≡ false
small_file l limits sizes h = ground (arith, length-file l _ sizes)

module _ (backend : TwofishBackend) {key_of : Bytes → TwofishKey} {enc_of : Bytes → Bytes → Bytes}
    (back : IsBackend backend key_of enc_of) (digests : Digests) (dig : AreDigests digests)
    (random : RandomSource) (src : IsRandomSource random) where
  -- The parts of the candidate.
  abbrev pub layout_of : VaultDocument → List Bytes → Material → VaultKeys → Bytes → ℕ → Layout
  layout_of document cs material keys iv calls = record {
    salt = material.salt;
    iterations = material.iterations;
    password_check = digests.sha256 material.derived_key;
    wrapped_keys = wrapped_form (enc_of material.derived_key) keys;
    iv = iv;
    ciphertext =
        chain (enc_of keys.content_key) iv (frames_blocks cs)
          (frames random calls (iter_fields document) cs);
    stored_hmac = digests.hmac_sha256 keys.hmac_key (join cs);
  }

  pub layout_sizes :
      (limits : ResourceLimits) (document : VaultDocument) (cs : List Bytes) (material : Material)
      (keys : VaultKeys) (iv : Bytes) (calls bound : ℕ)
      → AreKeys keys
      → IsBlock iv
      → length material.derived_key ≡ hmac_bytes
      → length material.salt ≡ salt_bytes
      → material.iterations < 4294967296
      → HaveContents bound (iter_fields document) cs
      → HasSizes (layout_of document cs material keys iv calls) (frames_blocks cs)
  layout_sizes limits document cs material keys iv calls bound a v derived salt fits h = record {
    salt = salt;
    iterations = fits;
    password_check = dig.length-sha256 _;
    wrapped_keys =
        (unwrap-wrap backend material.derived_key keys (back.ciphers _ derived)
          (back.gives _ derived) a).1;
    iv = v.size;
    ciphertext =
        length-chain (back.ciphers _ a.content_size) (frames_blocks cs) iv _ v
          (frames-Fills random src bound calls (iter_fields document) cs h);
    stored_hmac = dig.length-hmac _ _;
  }

  pub authenticate-candidate :
      (limits : ResourceLimits) (document : VaultDocument) (hcs : List Bytes)
      (css : List (List Bytes)) (material : Material) (passphrase : Bytes) (keys : VaultKeys)
      (iv : Bytes) (calls : ℕ)
      → CanWrite limits document hcs css
      → IsMaterial digests limits passphrase material
      → AreKeys keys
      → IsBlock iv
      → authenticate backend digests
          (snapshot_of (file_bytes (layout_of document (hcs ++ join css) material keys iv calls)))
          passphrase
          limits
        ≡ ok (authenticated digests enc_of document hcs css material keys iv)
  unfolding authenticate
  authenticate-candidate limits document hcs css material passphrase keys iv calls w m a v =
      let cs = hcs ++ join css in
      let derivation =
        stretch_passphrase-size digests passphrase material.salt material.iterations limits
          material.derived_key m.derived in
      let wrapping =
        unwrap-wrap backend material.derived_key keys (back.ciphers _ derivation.0)
          (back.gives _ derivation.0) a in
      let l = layout_of document cs material keys iv calls in
      let sizes =
        layout_sizes limits document cs material keys iv calls limits.io_chunk_bytes a v
          derivation.0 derivation.1 m.fits w.contents in
      rw (
        read_envelope-file_bytes l (frames_blocks cs) sizes limits
            (some_blocks document.header_fields hcs (join css) w.header) derivation.2 derivation.3,
        m.derived,
        bytes_eq_refl (digests.sha256 material.derived_key),
        wrapping.2,
        decrypt_fields-document (back.ciphers _ a.content_size) backend digests random src
            (file_bytes l) (eof_marker ++ l.stored_hmac)
            (authenticated digests enc_of document hcs css material keys iv).envelope keys limits
            calls limits.io_chunk_bytes document hcs css (back.gives _ a.content_size)
            a.content_size a.hmac_size v w.contents w.short w.header w.records w.record_count
            w.field_count (omega arith) (ciphertext_part l sizes),
        bytes_eq_refl (digests.hmac_sha256 keys.hmac_key (join cs)),
      )

  -- The hardened key of a vault that is opened under these limits.
  harden-eq-hardened :
      (limits : ResourceLimits) (passphrase : Bytes) (envelope : Envelope)
      → length envelope.salt ≡ salt_bytes
      → harden backend digests envelope passphrase limits
        ≡ ok (hardened digests limits passphrase envelope.salt envelope.iterations)
  unfolding harden
  harden-eq-hardened limits passphrase envelope salted =
      elim (Bool-cases (
        ltb envelope.iterations minimum_iterations
        && leb minimum_iterations limits.max_iterations)) [
          | inl t ↦ rw (
            t,
            stretch_passphrase-eq-digest_power digests passphrase envelope.salt minimum_iterations
                limits dig salted (omega arith) (ground (arith, t)),
          )
          | inr t ↦ rw t
        ]

  -- The reader on the bytes of a candidate.
  open_snapshot-candidate_of :
      (limits : ResourceLimits) (document : VaultDocument) (hcs : List Bytes)
      (css : List (List Bytes)) (material : Material) (passphrase : Bytes) (keys : VaultKeys)
      (iv : Bytes) (calls issued : ℕ) (version : FormatVersion) (out : Validated × ValidatedRecords)
      → CanWrite limits document hcs css
      → IsMaterial digests limits passphrase material
      → AreKeys keys
      → IsBlock iv
      → IsAccepted limits document hcs css version out
      → open_snapshot backend digests issued
          (snapshot_of (file_bytes (layout_of document (hcs ++ join css) material keys iv calls)))
          passphrase
          limits
        ≡ ok (record {
          authenticated = authenticated digests enc_of document hcs css material keys iv;
          document =
              build issued
                (record { header = out.0.fields; records = out.1.records })
                version
                (out.0.warnings ++ out.1.warnings);
          hardened_key = hardened digests limits passphrase material.salt material.iterations;
        })
  unfolding open_snapshot publish_authenticated
  open_snapshot-candidate_of limits document hcs css material passphrase keys iv calls issued
        version out w m a v accepted =
      let derivation =
        stretch_passphrase-size digests passphrase material.salt material.iterations limits
          material.derived_key m.derived in
      let l = layout_of document (hcs ++ join css) material keys iv calls in
      let sizes =
        layout_sizes limits document (hcs ++ join css) material keys iv calls limits.io_chunk_bytes
          a v derivation.0 derivation.1 m.fits w.contents in
      rw (
        small_file l limits sizes w.file_size,
        authenticate-candidate limits document hcs css material passphrase keys iv calls w m a v,
        accepted.version_field,
        accepted.schema,
        harden-eq-hardened limits passphrase
            (authenticated digests enc_of document hcs css material keys iv).envelope derivation.1,
      )

  -- A document that can be written within the limits, with key material of a passphrase, keys and
  -- a vector of the right sizes, is written, under a working cipher, digests and random source. When
  -- the validation accepts the fields that are read back, the candidate is opened with the
  -- passphrase: the reader finds the keys, and its document has the fields of every section, in
  -- order, with their types and contents, the version, and the warnings of the validation; the
  -- hardened key is there for a file of few iterations, if the limits allow it.
  pub open_snapshot-write_candidate :
      (limits : ResourceLimits) (document : VaultDocument) (hcs : List Bytes)
      (css : List (List Bytes)) (material : Material) (passphrase : Bytes) (keys : VaultKeys)
      (iv : Bytes) (calls issued : ℕ) (version : FormatVersion) (out : Validated × ValidatedRecords)
      → CanWrite limits document hcs css
      → IsMaterial digests limits passphrase material
      → AreKeys keys
      → IsBlock iv
      → IsAccepted limits document hcs css version out
      → (candidate : Bytes) × (opened : OpenedSnapshot) × (write_candidate backend digests random
            limits document material keys iv calls
          ≡ ok candidate)
        × (open_snapshot backend digests issued (snapshot_of candidate) passphrase limits
            ≡ ok opened)
        × (opened.authenticated ≡ authenticated digests enc_of document hcs css material keys iv)
        × (opened.hardened_key
            ≡ hardened digests limits passphrase material.salt material.iterations)
        × IsReopened document hcs css version (out.0.warnings ++ out.1.warnings) opened.document
  open_snapshot-write_candidate limits document hcs css material passphrase keys iv calls issued
        version out w m a v accepted =
      let cs = hcs ++ join css in
      let derivation =
        stretch_passphrase-size digests passphrase material.salt material.iterations limits
          material.derived_key m.derived in
      let wrapping =
        unwrap-wrap backend material.derived_key keys (back.ciphers _ derivation.0)
          (back.gives _ derivation.0) a in
      (
        file_bytes (layout_of document cs material keys iv calls),
        _,
        write_candidate-eq-candidate_of random src backend digests limits document cs material keys
            (wrapped_form (enc_of material.derived_key) keys) iv calls
            (back.ciphers _ a.content_size) (back.gives _ a.content_size) wrapping.0 a.content_size
            a.hmac_size v m.fits w.contents,
        open_snapshot-candidate_of limits document hcs css material passphrase keys iv calls issued
            version out w m a v accepted,
        refl,
        refl,
        build-IsReopened issued limits document hcs css version out accepted,
      )
