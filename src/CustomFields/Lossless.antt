-- ===== src/CustomFields/Lossless.antt =====
-- The parser of custom_fields.py loses nothing: its fields are encoded to the bytes they were read from.
use password_bonobo.Prelude.{
  ℕ, ◌≡◌, ◌≤◌, sym, ap, ap₂, ◌∙◌, Bool, true, false, inl, inr, List, [], ◌∷◌, ◌++◌, append_assoc,
  append-nil, length, take, drop, all, All, ◌==◌, if◌then◌else◌, arith, take-append-drop,
  length-take, All-append,
}
use password_bonobo.Prelude.Bytes.{Bytes}
use password_bonobo.Errors.{ok, Result-cases, raise-neq-ok, ok-injective}
use password_bonobo.CustomFields.{
  CustomProperty, CustomField, Parsing, separator, is_separator, checked_name, sensitivity,
  optional_property_by_id, finish_field, custom_property, encoded_properties,
}

-- The bytes of a field.
abbrev pub field_text : CustomField → Bytes
field_text field =
    encoded_properties field.properties ++ (if field.separator_after then separator else [])

abbrev pub fields_text : List CustomField → Bytes
fields_text [] = []
fields_text (field ∷ fields) = field_text field ++ fields_text fields

-- The bytes of what was parsed.
abbrev pub text : Parsing → Bytes
text p = fields_text p.fields ++ encoded_properties p.properties

-- An open field that is followed by a separator.
pub record IsSeparated (field : CustomField) : Type 0 where
  pub separated : field.separator_after ≡ true
  pub opened : field.closed ≡ false

pub fields_text-append :
    (fields : List CustomField) (field : CustomField)
    → fields_text (fields ++ (field ∷ [])) ≡ fields_text fields ++ field_text field
fields_text-append [] field = append-nil (field_text field)
fields_text-append (f ∷ fs) field =
    ap (λ b. field_text f ++ b) (fields_text-append fs field)
    ∙ sym (append_assoc (field_text f) (fields_text fs) (field_text field))

encoded_properties-append :
    (items : List CustomProperty) (item : CustomProperty)
    → encoded_properties (items ++ (item ∷ [])) ≡ encoded_properties items ++ item.encoded
encoded_properties-append [] item = append-nil item.encoded
encoded_properties-append (i ∷ is) item =
    ap (λ b. i.encoded ++ b) (encoded_properties-append is item)
    ∙ sym (append_assoc i.encoded (encoded_properties is) item.encoded)

pub finish_field-eq-ok :
    (properties : List CustomProperty) (names : List Bytes) (separator_after : Bool)
    (field : CustomField)
    → finish_field properties names separator_after ≡ ok field
    → (field.properties ≡ properties)
      × (field.separator_after ≡ separator_after)
      × (field.closed ≡ false)
finish_field-eq-ok properties names separator_after field h =
    elim (Result-cases (checked_name properties names)) [
      | inr (_, e) ↦ absurd (raise-neq-ok (rw e at h))
      | inl (name, e) ↦
          elim (Result-cases (sensitivity (optional_property_by_id properties 0x03))) [
            | inr (_, f) ↦ absurd (raise-neq-ok (rw (e, f) at h))
            | inl (sensitive, f) ↦
                let same = ok-injective (rw (e, f) at h) in
                (
                  sym (ap (λ x. x.properties) same),
                  sym (ap (λ x. x.separator_after) same),
                  sym (ap (λ x. x.closed) same),
                )
          ]
    ]

pub custom_property-eq-ok :
    (property_id : ℕ) (encoded : Bytes) (property : CustomProperty)
    → custom_property property_id encoded ≡ ok property
    → property.encoded ≡ encoded
custom_property-eq-ok property_id encoded property h = ground arith

all_zeros : (xs : Bytes) → length xs ≡ 6 → all (λ b. b == 0x30) xs ≡ true → xs ≡ separator
all_zeros (a ∷ b ∷ c ∷ d ∷ e ∷ f ∷ []) h k = ground arith
all_zeros [] h k = absurd (omega arith)
all_zeros (a ∷ []) h k = absurd (omega arith)
all_zeros (a ∷ b ∷ []) h k = absurd (omega arith)
all_zeros (a ∷ b ∷ c ∷ []) h k = absurd (omega arith)
all_zeros (a ∷ b ∷ c ∷ d ∷ []) h k = absurd (omega arith)
all_zeros (a ∷ b ∷ c ∷ d ∷ e ∷ []) h k = absurd (omega arith)
all_zeros (a ∷ b ∷ c ∷ d ∷ e ∷ f ∷ g ∷ xs) h k = absurd (omega arith)

separator_first :
    (source : Bytes) → is_separator source ≡ true → separator ++ drop 6 source ≡ source
separator_first source h =
    let long : 6 ≤ length source = ground arith in
    let zeros : all (λ b. b == 0x30) (take 6 source) ≡ true = ground arith in
    ap (λ b. b ++ drop 6 source)
      (sym (all_zeros (take 6 source) (omega (arith, length-take 6 source)) zeros))
    ∙ take-append-drop 6 source

-- A round moves bytes from the source to what was parsed, and keeps the fields separated.
pub record IsRound (p : Parsing) (source : Bytes) (rest : Bytes) (q : Parsing) : Type 0 where
  pub moved : text q ++ rest ≡ text p ++ source
  pub separated : All IsSeparated p.fields → All IsSeparated q.fields

pub separator-IsRound :
    (p : Parsing) (source : Bytes) (field : CustomField)
    → is_separator source ≡ true
    → finish_field p.properties p.names true ≡ ok field
    → IsRound p source (drop 6 source) (record {
      fields = p.fields ++ (field ∷ []);
      properties = [];
      names = p.names ++ (field.name ∷ []);
      identifiers = [];
    })
separator-IsRound p source field h e =
    let (properties, after, opened) = finish_field-eq-ok p.properties p.names true field e in
    let whole : field_text field ≡ encoded_properties p.properties ++ separator =
      ap₂ (λ items b. encoded_properties items ++ (if b then separator else [])) properties after in
    record {
      moved =
          ap (λ b. b ++ drop 6 source)
            (append-nil (fields_text (p.fields ++ (field ∷ [])))
              ∙ fields_text-append p.fields field
              ∙ ap (λ b. fields_text p.fields ++ b) whole
              ∙ sym
                  (append_assoc (fields_text p.fields) (encoded_properties p.properties) separator))
          ∙ append_assoc (text p) separator (drop 6 source)
          ∙ ap (λ b. text p ++ b) (separator_first source h);
      separated = λ s.
          All-append IsSeparated p.fields (field ∷ []) s
            (record { separated = after; opened = opened }, tt);
    }

pub property-IsRound :
    (p : Parsing) (source : Bytes) (n : ℕ) (identifiers : List ℕ) (property : CustomProperty)
    → property.encoded ≡ take n source
    → IsRound p source
        (drop n source)
        (record p { properties = p.properties ++ (property ∷ []); identifiers = identifiers })
property-IsRound p source n identifiers property e = record {
  moved =
      ap (λ b. (fields_text p.fields ++ b) ++ drop n source)
        (encoded_properties-append p.properties property
          ∙ ap (λ b. encoded_properties p.properties ++ b) e)
      ∙ ap (λ b. b ++ drop n source)
          (sym
            (append_assoc (fields_text p.fields) (encoded_properties p.properties) (take n source)))
      ∙ append_assoc (text p) (take n source) (drop n source)
      ∙ ap (λ b. text p ++ b) (take-append-drop n source);
  separated = λ s. s;
}
