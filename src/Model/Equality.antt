-- ===== src/Model/Equality.antt =====
-- `documents_equal_exact` of model.py, with `_field_sequences_equal` and `_payloads_equal`. The
-- unread part of a buffer is kept in place of the buffer and its offset. The fuel of the loop is
-- the number of chunks, bytes and ends that the two streams have left, since a round takes one at
-- least.
pub mod Laws
use password_bonobo.Prelude.{
  ℕ, zero, suc, ◌+◌, Bool, true, false, not, ◌&&◌, [], ◌∷◌, length, take, drop, min, ltb, leb, ◌==◌,
  if◌then◌else◌,
}
use password_bonobo.Prelude.Bytes.{Bytes, bytes_eq}
use password_bonobo.Errors.{Result, ok, raise, runtime_error, ◌>>=◌}
use password_bonobo.Payloads.{FieldPayload, payload_length, iter_chunks}
use password_bonobo.Payloads.Chunks.{ChunkStream, end, fault, chunk}

-- What the loop holds of one payload: `first_iterator`, `first_buffer` from `first_offset` on,
-- `first_done`, `first_observed`, and `first.length`.
pub record Side : Type 0 where
  pub stream : ChunkStream
  pub available : Bytes
  pub done : Bool
  pub observed : ℕ
  pub declared : ℕ

abbrev pub is_empty : Bytes → Bool
is_empty [] = true
is_empty (b ∷ bs) = false

-- A chunk that was read: the side, and whether the payloads may still be equal.
abbrev accept : ℕ → Side → Bytes → ChunkStream → Side × Bool
accept chunk_size s c cs =
    if not (ltb 0 (length c) && leb (length c) chunk_size)
    then (
      record {
        stream = cs;
        available = s.available;
        done = true;
        observed = s.observed;
        declared = s.declared;
      },
      false,
    )
    else (
      record {
        stream = cs;
        available = if ltb (s.declared + chunk_size) (s.observed + length c) then [] else c;
        done = ltb (s.declared + chunk_size) (s.observed + length c);
        observed = s.observed + length c;
        declared = s.declared;
      },
      not (ltb s.declared (s.observed + length c)),
    )

abbrev next_chunk : ℕ → Side → ChunkStream → Result (Side × Bool)
next_chunk chunk_size s end = ok (
  record {
    stream = end;
    available = s.available;
    done = true;
    observed = s.observed;
    declared = s.declared;
  },
  true,
)
next_chunk chunk_size s (fault e) = raise e
next_chunk chunk_size s (chunk c cs) = ok (accept chunk_size s c cs)

-- `if first_offset == len(first_buffer) and not first_done: ...`
pub refill : ℕ → Side → Result (Side × Bool)
refill chunk_size s =
    if is_empty s.available && not s.done then next_chunk chunk_size s s.stream else ok (s, true)

abbrev with_available : Side → Bytes → Side
with_available s rest = record {
  stream = s.stream;
  available = rest;
  done = s.done;
  observed = s.observed;
  declared = s.declared;
}

-- The comparison of what both sides have available.
pub compare_available : Side → Side → Side × Side × Bool
compare_available a b =
    let compared = min (length a.available) (length b.available) in
    if not (is_empty a.available) && not (is_empty b.available)
    then (
      with_available a (drop compared a.available),
      with_available b (drop compared b.available),
      bytes_eq (take compared a.available) (take compared b.available),
    )
    else if not (is_empty a.available) && b.done
    then (with_available a [], b, false)
    else if not (is_empty b.available) && a.done
    then (a, with_available b [], false)
    else (a, b, true)

-- The value that is returned behind the loop.
abbrev pub verdict : Side → Side → Bool → Bool
verdict a b equal =
    equal
    && (a.observed == a.declared)
    && (b.observed == b.declared)
    && is_empty a.available
    && is_empty b.available

-- One round of the loop.
pub round : ℕ → Side → Side → Bool → Result (Side × Side × Bool)
unfolding refill compare_available
round chunk_size a b equal = do
  (a', first) ← refill chunk_size a
  (b', second) ← refill chunk_size b
  let (a'', b'', same) = compare_available a' b'
  ok (a'', b'', equal && first && second && same)

-- The loop of `_payloads_equal`
pub equal_loop : ℕ → ℕ → Side → Side → Bool → Result Bool
unfolding round
equal_loop zero chunk_size a b equal = raise runtime_error
equal_loop (suc fuel) chunk_size a b equal =
    let rest = (do
      (a', b', still) ← round chunk_size a b equal
      equal_loop fuel chunk_size a' b' still) in
    if a.done && b.done then ok (verdict a b equal) else rest

abbrev pub weight : ChunkStream → ℕ
weight end = 1
weight (fault e) = 1
weight (chunk c cs) = 1 + length c + weight cs

abbrev pub side_of : FieldPayload → ℕ → Side
side_of payload chunk_size = record {
  stream = iter_chunks payload chunk_size;
  available = [];
  done = false;
  observed = 0;
  declared = payload_length payload;
}

-- `_payloads_equal`
unfoldable pub payloads_equal : FieldPayload → FieldPayload → ℕ → Result Bool
unfolding equal_loop
payloads_equal a b chunk_size =
    equal_loop (1 + weight (iter_chunks a chunk_size) + weight (iter_chunks b chunk_size))
      chunk_size (side_of a chunk_size) (side_of b chunk_size) true
