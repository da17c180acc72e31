-- ===== src/Errors.antt =====
-- src/bonobo_core/passwordsafe/errors.py: the closed taxonomy of failures, with the
-- exceptions of Python's own that the core raises. What may raise returns a `Result`.
use password_bonobo.Prelude.{◌≡◌, ◌⊎◌, inl, inr, refl, Bool, true, false}

pub data AuthenticationReason : Type 0 where
  password_check_failed invalid_password_check : AuthenticationReason

pub data CryptoBackendReason : Type 0 where
  unavailable invalid_abi self_test_failed : CryptoBackendReason

pub data IntegrityReason : Type 0 where
  hmac_mismatch unexpected_eof : IntegrityReason

pub data MalformedReason : Type 0 where
  invalid_field missing_mandatory_field invalid_envelope : MalformedReason

pub data UnsupportedFormatReason : Type 0 where
  unsupported_version unsupported_mandatory_content : UnsupportedFormatReason

pub data IncompatibleExportReason : Type 0 where
  unrepresentable_field target_version_unsupported : IncompatibleExportReason

pub data ResourceLimitReason : Type 0 where
  max_iterations max_records max_fields : ResourceLimitReason
  max_encrypted_file_bytes max_inline_payload_bytes max_decoded_text_bytes : ResourceLimitReason

pub data OperationReason : Type 0 where
  protected_record stale_revision unsaved_changes : OperationReason
  external_modification recovery_available : OperationReason

pub data StorageReason : Type 0 where
  preparation_failed publication_failed verification_failed : StorageReason

-- A leaf of the taxonomy with its reason (those with an `OperationReason` are one constructor), or one of Python's exceptions.
pub data Error : Type 0 where
  authentication_error : AuthenticationReason → Error
  integrity_error : IntegrityReason → Error
  malformed_vault_error : MalformedReason → Error
  unsupported_format_error : UnsupportedFormatReason → Error
  incompatible_export_error : IncompatibleExportReason → Error
  resource_limit_error : ResourceLimitReason → Error
  storage_error : StorageReason → Error
  crypto_backend_error : CryptoBackendReason → Error
  operation_error : OperationReason → Error
  payload_closed_error secret_closed_error snapshot_closed_error : Error
  value_error type_error runtime_error overflow_error os_error : Error
  file_exists_error file_not_found_error injected_storage_fault_error : Error

pub data Result {ℓ} (A : Type ℓ) : Type ℓ where
  ok : A → Result A
  raise : Error → Result A

-- `if b: raise e`
abbrev pub raise_if : Bool → Error → Result (Unit {0})
raise_if false e = ok tt
raise_if true e = raise e

-- An exception that the first part raises is the result, and the second part does not run.
infixl 5 ◌>>=◌ ◌>>◌
abbrev pub ◌>>=◌ {ℓ μ} : {A : Type ℓ} {B : Type μ} → Result A → (A → Result B) → Result B
raise e >>= next = raise e
ok a >>= next = next a

abbrev pub ◌>>◌ {μ} : {B : Type μ} → Result (Unit {0}) → Result B → Result B
first >> second = first >>= λ done. second

pub Result-cases {ℓ} :
    {A : Type ℓ} (r : Result A) → ((a : A) × (r ≡ ok a)) ⊎ ((e : Error) × (r ≡ raise e))
Result-cases (ok a) = inl (a, refl)
Result-cases (raise e) = inr (e, refl)

pub raise-neq-ok {ℓ} : {A : Type ℓ} {e : Error} {a : A} → raise e ≡ ok a → ⊥
raise-neq-ok h = cc

pub ok-injective {ℓ} : {A : Type ℓ} {x y : A} → ok x ≡ ok y → x ≡ y
ok-injective h = cc

-- A chain that gives a value has a first part that gives one.
pub first_part {ℓ μ} :
    {A : Type ℓ} {B : Type μ} (m : Result A) (next : A → Result B) {b : B}
    → (m >>= next) ≡ ok b
    → (a : A) × (m ≡ ok a) × (next a ≡ ok b)
first_part (raise e) next h = absurd (raise-neq-ok h)
first_part (ok a) next h = (a, refl, h)

-- A test that lets a chain go on failed.
pub passed {ℓ} :
    {B : Type ℓ} (test : Bool) (e : Error) (next : Result B) {b : B}
    → (raise_if test e >> next) ≡ ok b
    → (test ≡ false) × (next ≡ ok b)
passed true e next h = absurd (raise-neq-ok h)
passed false e next h = (refl, h)
