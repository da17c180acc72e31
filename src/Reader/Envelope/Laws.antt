-- ===== src/Reader/Envelope/Laws.antt =====
-- `_read_envelope` of reader.py on a file that has the format's layout.
use password_bonobo.Prelude.{
  ℕ, ◌+◌, ◌-◌, ◌*◌, ◌%◌, ◌≡◌, ◌≤◌, ◌<◌, refl, sym, ap, ◌∙◌, false, ◌||◌, [], ◌++◌, append-nil,
  append_assoc, length, take, drop, slice, ltb, leb, ◌==◌, ◌!=◌, arith, length-append, take_all,
  take-append_eq, drop-append_eq, drop-drop,
}
use password_bonobo.Prelude.Bytes.{Bytes, to_le, from_le, from_le-to_le}
use password_bonobo.Errors.{ok}
use password_bonobo.Constants.{file_tag, eof_marker, ResourceLimits}
use password_bonobo.Snapshots.{size, snapshot_of, read_at, read_at-seam}
use password_bonobo.Reader.Envelope.{read_envelope, fixed_prefix_bytes, fixed_suffix_bytes}

-- The parts of a file in the order in which they stand.
pub record Layout : Type 0 where
  pub salt : Bytes
  pub iterations : ℕ
  pub password_check : Bytes
  pub wrapped_keys : Bytes
  pub iv : Bytes
  pub ciphertext : Bytes
  pub stored_hmac : Bytes

pub record HasSizes (l : Layout) (blocks : ℕ) : Type 0 where
  pub salt : length l.salt ≡ 32
  pub iterations : l.iterations < 4294967296
  pub password_check : length l.password_check ≡ 32
  pub wrapped_keys : length l.wrapped_keys ≡ 64
  pub iv : length l.iv ≡ 16
  pub ciphertext : length l.ciphertext ≡ blocks * 16
  pub stored_hmac : length l.stored_hmac ≡ 32

abbrev pub prefix_bytes : Layout → Bytes
prefix_bytes l =
    file_tag ++ (l.salt ++ (to_le 4 l.iterations ++ (l.password_check ++ (l.wrapped_keys ++ l.iv))))

abbrev pub file_bytes : Layout → Bytes
file_bytes l = (prefix_bytes l ++ l.ciphertext) ++ (eof_marker ++ l.stored_hmac)

not_small : {blocks : ℕ} → 0 < blocks → ltb (blocks * 16 + 200) 216 ≡ false
not_small h = ground arith

positive : {n : ℕ} → 0 < n → (n == 0) ≡ false
positive h = ground arith

within : {n m : ℕ} → n ≤ m → ltb m n ≡ false
within h = ground arith

whole_blocks : {n : ℕ} → 0 < n → (leb (n * 16) 0 || ((n * 16) % 16 != 0)) ≡ false
whole_blocks h = ground arith

module _ (l : Layout) (blocks : ℕ) (sizes : HasSizes l blocks) where
  abbrev after_salt : Bytes
  after_salt = to_le 4 l.iterations ++ (l.password_check ++ (l.wrapped_keys ++ l.iv))

  pub length-prefix : length (prefix_bytes l) ≡ 152
  length-prefix = omega (
    arith,
    length-append l.salt after_salt,
    length-append l.password_check (l.wrapped_keys ++ l.iv),
    length-append l.wrapped_keys l.iv,
    sizes.salt,
    sizes.password_check,
    sizes.wrapped_keys,
    sizes.iv,
  )

  drop_4 : drop 4 (prefix_bytes l) ≡ l.salt ++ after_salt
  drop_4 = refl

  drop_36 : drop 36 (prefix_bytes l) ≡ after_salt
  drop_36 = drop-append_eq 32 l.salt after_salt sizes.salt

  drop_40 : drop 40 (prefix_bytes l) ≡ l.password_check ++ (l.wrapped_keys ++ l.iv)
  drop_40 = sym (drop-drop 4 36 (prefix_bytes l)) ∙ ap (drop 4) drop_36

  drop_72 : drop 72 (prefix_bytes l) ≡ l.wrapped_keys ++ l.iv
  drop_72 =
      sym (drop-drop 32 40 (prefix_bytes l))
      ∙ ap (drop 32) drop_40
      ∙ drop-append_eq 32 l.password_check (l.wrapped_keys ++ l.iv) sizes.password_check

  drop_136 : drop 136 (prefix_bytes l) ≡ l.iv
  drop_136 =
      sym (drop-drop 64 72 (prefix_bytes l))
      ∙ ap (drop 64) drop_72
      ∙ drop-append_eq 64 l.wrapped_keys l.iv sizes.wrapped_keys

  salt_part : slice 4 36 (prefix_bytes l) ≡ l.salt
  salt_part = take-append_eq 32 l.salt after_salt sizes.salt

  iterations_part : from_le (slice 36 40 (prefix_bytes l)) ≡ l.iterations
  iterations_part =
      ap (λ b. from_le (take 4 b)) drop_36 ∙ from_le-to_le 4 l.iterations sizes.iterations

  check_part : slice 40 72 (prefix_bytes l) ≡ l.password_check
  check_part =
      ap (take 32) drop_40
      ∙ take-append_eq 32 l.password_check (l.wrapped_keys ++ l.iv) sizes.password_check

  wrapped_part : slice 72 136 (prefix_bytes l) ≡ l.wrapped_keys
  wrapped_part = ap (take 64) drop_72 ∙ take-append_eq 64 l.wrapped_keys l.iv sizes.wrapped_keys

  iv_part : slice 136 152 (prefix_bytes l) ≡ l.iv
  iv_part = ap (take 16) drop_136 ∙ take_all 16 l.iv (omega (arith, sizes.iv))

  pub length-file : length (file_bytes l) ≡ blocks * 16 + 200
  length-file = omega (
    arith,
    length-append (prefix_bytes l ++ l.ciphertext) (eof_marker ++ l.stored_hmac),
    length-append (prefix_bytes l) l.ciphertext,
    length-prefix,
    sizes.ciphertext,
    sizes.stored_hmac,
  )

  read_prefix : read_at (snapshot_of (file_bytes l)) 0 152 ≡ ok (prefix_bytes l)
  read_prefix =
      ap (λ b. read_at (snapshot_of b) 0 152)
        (append_assoc (prefix_bytes l) l.ciphertext (eof_marker ++ l.stored_hmac))
      ∙ read_at-seam [] (prefix_bytes l) (l.ciphertext ++ (eof_marker ++ l.stored_hmac)) 0 152 refl
          length-prefix (omega arith)

  read_suffix :
      (offset : ℕ)
      → offset ≡ blocks * 16 + 152
      → read_at (snapshot_of (file_bytes l)) offset 48 ≡ ok (eof_marker ++ l.stored_hmac)
  read_suffix offset e =
      ap (λ b. read_at (snapshot_of ((prefix_bytes l ++ l.ciphertext) ++ b)) offset 48)
        (sym (append-nil (eof_marker ++ l.stored_hmac)))
      ∙ read_at-seam (prefix_bytes l ++ l.ciphertext) (eof_marker ++ l.stored_hmac) [] offset 48
          (omega (
            arith,
            e,
            length-append (prefix_bytes l) l.ciphertext,
            length-prefix,
            sizes.ciphertext,
          ))
          (omega (arith, sizes.stored_hmac)) (omega arith)

  large_enough : ltb (size (snapshot_of (file_bytes l))) 216 ≡ ltb (blocks * 16 + 200) 216
  large_enough = ap (λ n. ltb n 216) length-file

  encrypted_size :
      size (snapshot_of (file_bytes l)) - fixed_prefix_bytes - fixed_suffix_bytes ≡ blocks * 16
  encrypted_size = omega (arith, length-file)

  -- A file with the layout of a vault, of one block at least and an iteration count within the
  -- limits, is read into the envelope of its parts.
  pub read_envelope-file_bytes :
      (limits : ResourceLimits)
      → 0 < blocks
      → 0 < l.iterations
      → l.iterations ≤ limits.max_iterations
      → read_envelope (snapshot_of (file_bytes l)) limits
        ≡ ok (record {
          salt = l.salt;
          iterations = l.iterations;
          password_check = l.password_check;
          wrapped_keys = l.wrapped_keys;
          iv = l.iv;
          encrypted_offset = 152;
          encrypted_length = blocks * 16;
          stored_hmac = l.stored_hmac;
        })
  unfolding read_envelope
  read_envelope-file_bytes limits b low high = rw (
    large_enough,
    not_small b,
    read_prefix,
    iterations_part,
    positive low,
    within high,
    encrypted_size,
    whole_blocks b,
    read_suffix (size (snapshot_of (file_bytes l)) - fixed_suffix_bytes)
        (omega (arith, length-file)),
    salt_part,
    check_part,
    wrapped_part,
    iv_part,
  )
