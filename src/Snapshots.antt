-- ===== src/Snapshots.antt =====
-- src/bonobo_core/passwordsafe/snapshots.py: the immutable copy of the encrypted file. The
-- operating system's reads return what was captured; short reads are not modelled.
use password_bonobo.Prelude.{
  ℕ, ◌+◌, ◌-◌, ◌≤◌, ◌≡◌, Bool, false, ◌||◌, length, slice, ltb, arith, false, ap, ◌∙◌, ◌++◌, take,
  drop, length-append, drop-append_eq, take-append_eq,
}
use password_bonobo.Prelude.Bytes.{Bytes}
use password_bonobo.Errors.{Result, ok, value_error, snapshot_closed_error, ◌>>◌, raise_if}
use password_bonobo.Constants.{max_io_chunk_bytes}

pub record EncryptedSnapshot : Type 0 where
  pub content : Bytes
  pub closed : Bool

abbrev pub size : EncryptedSnapshot → ℕ
size s = length s.content

-- `_validate_span`
abbrev pub outside_span : ℕ → ℕ → ℕ → Bool
outside_span offset count total = ltb total offset || ltb (total - offset) count

span_inside :
    (offset count total : ℕ) → offset + count ≤ total → outside_span offset count total ≡ false
span_inside offset count total h = ground arith

within_chunk : (count : ℕ) → count ≤ max_io_chunk_bytes → ltb max_io_chunk_bytes count ≡ false
within_chunk count h = ground arith

-- `EncryptedSnapshot.read_at`, with `_validate_read_range` and `_require_descriptor`
pub read_at : EncryptedSnapshot → ℕ → ℕ → Result Bytes
read_at s offset count = do
  raise_if (outside_span offset count (size s)) value_error
  raise_if (ltb max_io_chunk_bytes count) value_error
  raise_if s.closed snapshot_closed_error
  ok (slice offset (offset + count) s.content)

-- An open snapshot of this content.
abbrev pub snapshot_of : Bytes → EncryptedSnapshot
snapshot_of content = record { content = content; closed = false }

add-sub_left : (a b : ℕ) → a + b - a ≡ b
add-sub_left a b = omega arith

-- A bounded read inside an open snapshot gives the bytes of the range.
pub read_at-eq-take :
    (content : Bytes) (offset count : ℕ)
    → offset + count ≤ length content
    → count ≤ max_io_chunk_bytes
    → read_at (snapshot_of content) offset count ≡ ok (take count (drop offset content))
unfolding read_at
read_at-eq-take content offset count h k =
    rw
      (span_inside offset count (length content) h, within_chunk count k, add-sub_left offset count)

-- A read at the seam gives what follows it.
pub read_at-seam :
    (before middle after : Bytes) (offset count : ℕ)
    → length before ≡ offset
    → length middle ≡ count
    → count ≤ max_io_chunk_bytes
    → read_at (snapshot_of (before ++ (middle ++ after))) offset count ≡ ok middle
read_at-seam before middle after offset count h k small =
    read_at-eq-take (before ++ (middle ++ after)) offset count
      (omega (arith, length-append before (middle ++ after), length-append middle after)) small
    ∙ ap (λ b. ok (take count b)) (drop-append_eq offset before (middle ++ after) h)
    ∙ ap ok (take-append_eq count middle after k)
