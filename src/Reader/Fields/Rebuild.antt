-- ===== src/Reader/Fields/Rebuild.antt =====
-- What the section parser of `_decrypt_fields` in reader.py builds from sections that are ended by
-- their markers: the header's fields, and the fields of each record.
use password_bonobo.Prelude.{
  ℕ, ◌+◌, ◌≡◌, ◌≢◌, ◌≤◌, refl, ap, ◌∙◌, true, false, List, [], ◌∷◌, ◌++◌, append_assoc, length, ltb,
  leb, ◌==◌, arith, length-append,
}
use password_bonobo.Prelude.Bytes.{Bytes}
use password_bonobo.Errors.{ok}
use password_bonobo.Constants.{ResourceLimits}
use password_bonobo.Payloads.{inline}
use password_bonobo.Model.{RawField, understood}
use password_bonobo.Reader.Builder.{BuilderField, add_field, append_field, append_at, opened}
use password_bonobo.Reader.Fields.Sections.{Sections, place_all}

-- Fields of ordinary types, then the empty field of type 0xFF that ends a section.
pub data IsSection : List RawField → List Bytes → Type 0 where
  marker : (raw : RawField) → raw.type_code ≡ 0xFF → IsSection (raw ∷ []) ([] ∷ [])
  field :
      (raw : RawField) (c : Bytes) {raws : List RawField} {cs : List Bytes}
      → raw.type_code ≢ 0xFF
      → IsSection raws cs
      → IsSection (raw ∷ raws) (c ∷ cs)

-- The fields as the reader holds them, numbered from an ordinal on.
abbrev pub read_back : ℕ → List RawField → List Bytes → List BuilderField
read_back ordinal (raw ∷ raws) (c ∷ cs) =
    record {
      type_code = raw.type_code;
      payload = inline c;
      ordinal = ordinal;
      classification = understood;
    }
    ∷ read_back (ordinal + 1) raws cs
read_back ordinal [] cs = []
read_back ordinal (raw ∷ raws) [] = []

pub within : (limit count : ℕ) → count ≤ limit → ltb limit count ≡ false
within limit count h = ground arith

ordinary : (t : ℕ) → t ≢ 0xFF → (t == 0xFF) ≡ false
ordinary t h = ground arith

is_marker : (t : ℕ) → t ≡ 0xFF → (t == 0xFF) ≡ true
is_marker t h = ground arith

below : (limit n : ℕ) → n + 1 ≤ limit → leb limit n ≡ false
below limit n h = ground arith

-- A field appended to a list and the fields read behind it.
append_read_back :
    (h : List BuilderField) (raw : RawField) (c : Bytes) (raws : List RawField) (cs : List Bytes)
    → append_field h raw.type_code (inline c)
        ++ read_back (length (append_field h raw.type_code (inline c))) raws cs
      ≡ h ++ read_back (length h) (raw ∷ raws) (c ∷ cs)
append_read_back h raw c raws cs =
    let one : List BuilderField =
      record {
        type_code = raw.type_code;
        payload = inline c;
        ordinal = length h;
        classification = understood;
      }
      ∷ [] in
    ap (λ n. (h ++ one) ++ read_back n raws cs) (length-append h one)
    ∙ append_assoc h one (read_back (length h + 1) raws cs)

abbrev pub in_header : ℕ → List BuilderField → Sections
in_header count h = record {
  header = true;
  record_ordinal = 0;
  field_count = count;
  builder = record { header = h; records = [] };
}

abbrev pub in_records : ℕ → ℕ → List BuilderField → List (List BuilderField) → Sections
in_records ordinal count h rs = record {
  header = false;
  record_ordinal = ordinal;
  field_count = count;
  builder = record { header = h; records = rs };
}

abbrev pub behind_header : ℕ → List BuilderField → Sections
behind_header count h = in_records 0 count h []

pub same_records :
    {o p m n : ℕ} {h i : List BuilderField} {r s : List (List BuilderField)}
    → o ≡ p
    → m ≡ n
    → h ≡ i
    → r ≡ s
    → ok (in_records o m h r) ≡ ok (in_records p n i s)
same_records e f g k = λ j. ok (in_records (e j) (f j) (g j) (k j))

pub place_all-header :
    (limits : ResourceLimits) (count : ℕ) (h : List BuilderField) (raws : List RawField)
    (cs : List Bytes)
    → IsSection raws cs
    → count + length raws ≤ limits.max_fields
    → place_all limits (in_header count h) raws cs
      ≡ ok (behind_header (count + length raws) (h ++ read_back (length h) raws cs))
unfolding add_field
place_all-header limits count h _ _ (marker raw e) fits =
    rw (within limits.max_fields (count + 1) (omega arith), is_marker raw.type_code e)
place_all-header limits count h _ _ (field raw c {raws = raws} {cs = cs} ne s) fits =
    rw (within limits.max_fields (count + 1) (omega arith), ordinary raw.type_code ne)
      (place_all-header limits (count + 1) (append_field h raw.type_code (inline c)) raws cs s
          (omega arith)
        ∙ same_records refl (omega arith) (append_read_back h raw c raws cs) refl)

opened_new : (rs : List (List BuilderField)) → opened rs (length rs) ≡ rs ++ ([] ∷ [])
opened_new rs = let same : (length rs == length rs) ≡ true = ground arith in rw same

opened_same :
    (rs : List (List BuilderField)) (r : List BuilderField)
    → opened (rs ++ (r ∷ [])) (length rs) ≡ rs ++ (r ∷ [])
opened_same rs r =
    let other : (length rs == length (rs ++ (r ∷ []))) ≡ false =
      ground (arith, length-append rs (r ∷ [])) in
    rw other

append_at_last :
    (rs : List (List BuilderField)) (r : List BuilderField) (t : ℕ) (c : Bytes)
    → append_at (length rs) t (inline c) (rs ++ (r ∷ [])) ≡ rs ++ (append_field r t (inline c) ∷ [])
append_at_last [] r t c = refl
append_at_last (x ∷ rs) r t c = ap (λ xs. x ∷ xs) (append_at_last rs r t c)

-- A field of the record that is open.
add_field-last :
    (h : List BuilderField) (rs : List (List BuilderField)) (r : List BuilderField) (t : ℕ)
    (c : Bytes)
    → add_field (record { header = h; records = rs ++ (r ∷ []) }) false (length rs) t (inline c)
      ≡ ok (record { header = h; records = rs ++ (append_field r t (inline c) ∷ []) })
unfolding add_field
add_field-last h rs r t c =
    let inside : ltb (length rs) (length (rs ++ (r ∷ []))) ≡ true =
      ground (arith, length-append rs (r ∷ [])) in
    rw (opened_same rs r, inside, append_at_last rs r t c)

-- The first field opens the record.
pub add_field-opens :
    (h : List BuilderField) (rs : List (List BuilderField)) (t : ℕ) (c : Bytes)
    → add_field (record { header = h; records = rs }) false (length rs) t (inline c)
      ≡ ok (record { header = h; records = rs ++ (append_field [] t (inline c) ∷ []) })
unfolding add_field
add_field-opens h rs t c =
    let inside : ltb (length rs) (length (rs ++ ([] ∷ []))) ≡ true =
      ground (arith, length-append rs ([] ∷ [])) in
    rw (opened_new rs, inside, append_at_last rs [] t c)

-- A record's section. Its first field goes where `add` says: into a new record, or into the open one.
pub place_all-record :
    (limits : ResourceLimits) (count : ℕ) (h : List BuilderField) (rs os : List (List BuilderField))
    (r : List BuilderField) (raws : List RawField) (cs : List Bytes)
    → ((t : ℕ) (c : Bytes)
        → add_field (record { header = h; records = os }) false (length rs) t (inline c)
          ≡ ok (record { header = h; records = rs ++ (append_field r t (inline c) ∷ []) }))
    → IsSection raws cs
    → length rs + 1 ≤ limits.max_records
    → count + length raws ≤ limits.max_fields
    → place_all limits (in_records (length rs) count h os) raws cs
      ≡ ok (
          in_records
            (length rs + 1)
            (count + length raws)
            h
            (rs ++ ((r ++ read_back (length r) raws cs) ∷ [])))
place_all-record limits count h rs os r _ _ add (marker raw e) room fits = rw (
  below limits.max_records (length rs) room,
  within limits.max_fields (count + 1) (omega arith),
  add raw.type_code [],
  is_marker raw.type_code e,
  within limits.max_records (length rs + 1) room,
)
place_all-record limits count h rs os r _ _ add (field raw c {raws = raws} {cs = cs} ne s) room
      fits =
    let r' = append_field r raw.type_code (inline c) in
    rw
      (
        below limits.max_records (length rs) room,
        within limits.max_fields (count + 1) (omega arith),
        ordinary raw.type_code ne,
        add raw.type_code c,
      )
      (place_all-record limits (count + 1) h rs (rs ++ (r' ∷ [])) r' raws cs
          (add_field-last h rs r') s room (omega arith)
        ∙ same_records refl (omega arith) refl
            (ap (λ x. rs ++ (x ∷ [])) (append_read_back r raw c raws cs)))
