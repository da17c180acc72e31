-- ===== src/Tests/World.antt =====
-- A cipher, digests and a random source that are simple enough to compute with. They stand for
-- the Twofish backend, hashlib, hmac and the system's random source.
use password_bonobo.Prelude.{
  ℕ, zero, suc, ◌%◌, ◌≡◌, ◌<◌, refl, false, length, replicate, ◌!=◌, if◌then◌else◌, arith,
  length-replicate,
}
use password_bonobo.Prelude.Bytes.{Bytes, AreBytes}
use password_bonobo.Errors.{ok, raise, value_error}
use password_bonobo.Constants.{ResourceLimits, hmac_bytes}
use password_bonobo.Crypto.Interface.{
  TwofishKey, TwofishBackend, IsBlockCipher, IsBackend, Digests, AreDigests, RandomSource,
  IsRandomSource,
}
use password_bonobo.Crypto.Cbc.{xor_block}
use password_bonobo.Crypto.Cbc.Xor.{length-xor_block, xor_block-AreBytes, xor_block_cancel}

pub replicate-AreBytes : (n b : ℕ) → b < 256 → AreBytes (replicate n b)
replicate-AreBytes zero b h = tt
replicate-AreBytes (suc n) b h = (h, replicate-AreBytes n b h)

-- A cipher that adds a fixed mask to a block.
abbrev pub mask : Bytes
mask = replicate 16 0x5A

abbrev pub masked_block : Bytes → Bytes
masked_block b = xor_block b mask

abbrev pub mask_key : TwofishKey
mask_key = record {
  encrypt_block = λ b. ok (masked_block b);
  decrypt_block = λ b. ok (masked_block b);
}

abbrev pub mask_backend : TwofishBackend
mask_backend = record {
  key = λ k. if length k != hmac_bytes then raise value_error else ok mask_key;
}

pub mask_cipher : IsBlockCipher mask_key masked_block
mask_cipher = record {
  encrypts = λ b h n. refl;
  length-enc = λ b h n. omega (arith, length-xor_block b mask, n);
  enc-AreBytes = λ b h n. xor_block-AreBytes b mask h (replicate-AreBytes 16 0x5A (omega arith));
  decrypts = λ b h n i. ok (xor_block_cancel b mask i);
}

gives_key : (k : Bytes) → length k ≡ hmac_bytes → mask_backend.key k ≡ ok mask_key
gives_key k h = let fits : (length k != hmac_bytes) ≡ false = ground arith in rw fits

pub mask_backend_works : IsBackend mask_backend (λ k. mask_key) (λ k. masked_block)
mask_backend_works = record { gives = gives_key; ciphers = λ k h. mask_cipher }

abbrev pub length_digest : Bytes → Bytes
length_digest m = replicate 32 (length m % 256)

abbrev pub length_digests : Digests
length_digests = record { sha256 = length_digest; hmac_sha256 = λ k m. length_digest m }

length_digest-AreBytes : (m : Bytes) → AreBytes (length_digest m)
length_digest-AreBytes m = replicate-AreBytes 32 (length m % 256) (omega arith)

pub length_digests_work : AreDigests length_digests
length_digests_work = record {
  length-sha256 = λ m. refl;
  sha256-AreBytes = length_digest-AreBytes;
  length-hmac = λ k m. refl;
  hmac-AreBytes = λ k m. length_digest-AreBytes m;
}

abbrev pub counting_source : RandomSource
counting_source i n = replicate n (i % 256)

pub counting_source_works : IsRandomSource counting_source
counting_source_works = record {
  length-bytes = λ i n. length-replicate n (i % 256);
  bytes-AreBytes = λ i n. replicate-AreBytes n (i % 256) (omega arith);
}

abbrev pub small_limits : ResourceLimits
small_limits = record {
  max_iterations = 1000;
  max_records = 10;
  max_fields = 100;
  max_inline_payload_bytes = 64;
  max_decoded_text_bytes = 4096;
  io_chunk_bytes = 3;
  max_encrypted_file_bytes = 65536;
}
