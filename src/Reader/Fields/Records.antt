-- ===== src/Reader/Fields/Records.antt =====
-- The section parser of `_decrypt_fields` in reader.py on a whole document.
use password_bonobo.Prelude.{
  ℕ, ◌+◌, ◌≡◌, ◌≤◌, refl, sym, ◌∙◌, false, inl, inr, List, [], ◌∷◌, ◌++◌, append_assoc, append-nil,
  length, join, arith, length-append,
}
use native.Mathlib.Nat.{add-zero, zero-add}
use password_bonobo.Prelude.Bytes.{Bytes}
use password_bonobo.Errors.{ok, ◌>>=◌, Result-cases}
use password_bonobo.Constants.{ResourceLimits}
use password_bonobo.Model.{RawField, RawRecord, VaultDocument, record_fields, iter_fields}
use password_bonobo.Reader.Builder.{BuilderField}
use password_bonobo.Reader.Fields.{last_type, last_record_open}
use password_bonobo.Reader.Fields.Sections.{Sections, place, place_all, no_sections}
use password_bonobo.Reader.Fields.Rebuild.{
  IsSection, marker, field, read_back, in_records, same_records, add_field-opens, place_all-header,
  place_all-record,
}

-- Each record is a section of these contents.
abbrev pub AreSections : List RawRecord → List (List Bytes) → Type 0
AreSections [] [] = Unit
AreSections [] (cs ∷ css) = ⊥
AreSections (r ∷ rs) [] = ⊥
AreSections (r ∷ rs) (cs ∷ css) = IsSection r.fields cs × AreSections rs css

-- The records as the reader holds them.
abbrev pub read_back_records : List RawRecord → List (List Bytes) → List (List BuilderField)
read_back_records (r ∷ rs) (cs ∷ css) = read_back 0 r.fields cs ∷ read_back_records rs css
read_back_records [] css = []
read_back_records (r ∷ rs) [] = []

place_all-append :
    (limits : ResourceLimits) (x : Sections) (raws after : List RawField) (cs ds : List Bytes)
    → IsSection raws cs
    → place_all limits x (raws ++ after) (cs ++ ds)
      ≡ (place_all limits x raws cs >>= λ y. place_all limits y after ds)
place_all-append limits x _ after _ ds (marker raw e) =
    elim (Result-cases (place limits x raw.type_code [])) [ inl (_, h) ↦ rw h | inr (_, h) ↦ rw h ]
place_all-append limits x _ after _ ds (field raw c {raws = raws} {cs = cs} ne s) =
    elim (Result-cases (place limits x raw.type_code c)) [
      | inl (y, h) ↦ rw h (place_all-append limits y raws after cs ds s)
      | inr (_, h) ↦ rw h
    ]

place_all-records :
    (limits : ResourceLimits) (count : ℕ) (h : List BuilderField) (rs : List (List BuilderField))
    (records : List RawRecord) (css : List (List Bytes))
    → AreSections records css
    → length rs + length records ≤ limits.max_records
    → count + length (record_fields records) ≤ limits.max_fields
    → place_all limits (in_records (length rs) count h rs) (record_fields records) (join css)
      ≡ ok (
          in_records
            (length rs + length records)
            (count + length (record_fields records))
            h
            (rs ++ read_back_records records css))
place_all-records limits count h rs [] [] s room fits =
    same_records (sym (add-zero (length rs))) (sym (add-zero count)) refl (sym (append-nil rs))
place_all-records limits count h rs [] (cs ∷ css) s room fits = absurd s
place_all-records limits count h rs (r ∷ records) [] s room fits = absurd s
place_all-records limits count h rs (r ∷ records) (cs ∷ css) s room fits =
    let one = read_back 0 r.fields cs in
    let size = length-append r.fields (record_fields records) in
    let behind : length (rs ++ (one ∷ [])) ≡ length rs + 1 = length-append rs (one ∷ []) in
    place_all-append limits (in_records (length rs) count h rs) r.fields (record_fields records) cs
      (join css) s.0
    ∙ rw
        (
          place_all-record limits count h rs rs [] r.fields cs (add_field-opens h rs) s.0
              (omega arith) (omega (arith, size)),
          sym behind,
        )
        (place_all-records limits (count + length r.fields) h (rs ++ (one ∷ [])) records css s.1
            (omega (arith, behind)) (omega (arith, size))
          ∙ same_records (omega (arith, behind)) (omega (arith, size)) refl
              (append_assoc rs (one ∷ []) (read_back_records records css)))

-- A document of a header section and record sections, within the limits, is read back whole.
pub place_all-document :
    (limits : ResourceLimits) (document : VaultDocument) (hcs : List Bytes)
    (css : List (List Bytes))
    → IsSection document.header_fields hcs
    → AreSections document.records css
    → length document.records ≤ limits.max_records
    → length (iter_fields document) ≤ limits.max_fields
    → place_all limits no_sections (iter_fields document) (hcs ++ join css)
      ≡ ok (
          in_records
            (length document.records)
            (length (iter_fields document))
            (read_back 0 document.header_fields hcs)
            (read_back_records document.records css))
place_all-document limits document hcs css hs rs room fits =
    let size = length-append document.header_fields (record_fields document.records) in
    place_all-append limits no_sections document.header_fields (record_fields document.records) hcs
      (join css) hs
    ∙ rw (place_all-header limits 0 [] document.header_fields hcs hs (omega (arith, size))) (
        place_all-records limits (0 + length document.header_fields)
          (read_back 0 document.header_fields hcs) [] document.records css rs (omega arith)
          (omega (arith, size))
        ∙ same_records (zero-add (length document.records)) (omega (arith, size)) refl refl)

last_type-marker :
    (ordinal t : ℕ) (raws : List RawField) (cs : List Bytes)
    → IsSection raws cs
    → last_type (read_back ordinal raws cs) t ≡ 0xFF
last_type-marker ordinal t _ _ (marker raw e) = e
last_type-marker ordinal t _ _ (field raw c ne s) =
    last_type-marker (ordinal + 1) raw.type_code _ _ s

pub last_record_closed :
    (records : List RawRecord) (css : List (List Bytes))
    → AreSections records css
    → last_record_open (read_back_records records css) ≡ false
last_record_closed [] [] s = refl
last_record_closed [] (cs ∷ css) s = absurd s
last_record_closed (r ∷ rs) [] s = absurd s
last_record_closed (r ∷ []) (cs ∷ []) s = rw (last_type-marker 0 0 r.fields cs s.0)
last_record_closed (r ∷ []) (cs ∷ ds ∷ css) s = absurd s.1
last_record_closed (r ∷ q ∷ rs) (cs ∷ []) s = absurd s.1
last_record_closed (r ∷ q ∷ rs) (cs ∷ ds ∷ css) s = last_record_closed (q ∷ rs) (ds ∷ css) s.1
