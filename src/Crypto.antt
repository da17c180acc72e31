-- ===== src/Crypto.antt =====
-- src/bonobo_core/passwordsafe/crypto.py: key stretching, key wrapping, the two CBC
-- transformers and the field authenticator. The Twofish backend (a native library) and the
-- digests of `hashlib` and `hmac` (OpenSSL's) are parameters.
pub mod Interface
pub mod Cbc
pub mod Keys
pub mod Authenticator
