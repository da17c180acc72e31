-- ===== src/CustomFields/Keeps.antt =====
-- What `replace_custom_value` of custom_fields.py changes, and what it keeps.
use password_bonobo.Prelude.{
  ℕ, ◌+◌, ◌≡◌, refl, sym, ap, ap₂, subst, ◌∙◌, Bool, true, false, ◌||◌, inl, inr, Option, none,
  some, List, [], ◌∷◌, ◌++◌, map, length, drop, All, ◌==◌, if◌then◌else◌, Bool-cases, arith,
}
use password_bonobo.Prelude.Bytes.{Bytes, bytes_eq}
use password_bonobo.Errors.{Error, ok, raise, Result-cases, raise-neq-ok, ok-injective}
use password_bonobo.CustomFields.{CustomProperty, CustomField, value_of, custom_property}
use password_bonobo.CustomFields.Edit.{
  hex2, hex4, new_property, retain_property, retain_properties, sensitivity_value, new_values,
  or_else,
}

-- The encodings of the properties that are no value and no sensitivity, in order.
abbrev pub others : List CustomProperty → List Bytes
others [] = []
others (item ∷ items) =
    if (item.property_id == 0x02) || (item.property_id == 0x03)
    then others items
    else item.encoded ∷ others items

-- A value property of this value, or another property.
abbrev pub HasValue : Bytes → CustomProperty → Type 0
HasValue value item = item.property_id ≡ 0x02 → value_of item ≡ value

-- The number of the value properties.
abbrev pub count_id : ℕ → ℕ
count_id property_id = if property_id == 0x02 then 1 else 0

abbrev pub count_values : List CustomProperty → ℕ
count_values [] = 0
count_values (item ∷ items) = count_id item.property_id + count_values items

abbrev pub encodings : List CustomProperty → List Bytes
encodings = map (λ item. item.encoded)

-- The number of the fields with this name.
abbrev pub targets : Bytes → List CustomField → ℕ
targets name [] = 0
targets name (field ∷ fields) =
    if bytes_eq field.name name then 1 + targets name fields else targets name fields

-- Field by field: another field keeps its properties byte for byte and its sensitivity, the field of
-- the name keeps its other properties and as many value properties, which have the value, and has
-- the sensitivity that is asked for, if one is.
pub data Edited (name value : Bytes) (sensitive : Option Bool)
    : List CustomField → List CustomField → Type 0 where
  nothing : Edited name value sensitive [] []
  keeps :
      (f g : CustomField) {fs gs : List CustomField}
      → bytes_eq f.name name ≡ false
      → g.name ≡ f.name
      → g.separator_after ≡ f.separator_after
      → g.sensitive ≡ f.sensitive
      → encodings g.properties ≡ encodings f.properties
      → Edited name value sensitive fs gs
      → Edited name value sensitive (f ∷ fs) (g ∷ gs)
  edits :
      (f g : CustomField) {fs gs : List CustomField}
      → bytes_eq f.name name ≡ true
      → g.name ≡ f.name
      → g.separator_after ≡ f.separator_after
      → g.sensitive ≡ or_else sensitive f.sensitive
      → others g.properties ≡ others f.properties
      → count_values g.properties ≡ count_values f.properties
      → All (HasValue value) g.properties
      → Edited name value sensitive fs gs
      → Edited name value sensitive (f ∷ fs) (g ∷ gs)

pub count_values-append :
    (a b : List CustomProperty) → count_values (a ++ b) ≡ count_values a + count_values b
count_values-append [] b = omega arith
count_values-append (i ∷ is) b = omega (arith, count_values-append is b)

pub others-append : (a b : List CustomProperty) → others (a ++ b) ≡ others a ++ others b
others-append [] b = refl
others-append (i ∷ is) b = elim (Bool-cases ((i.property_id == 0x02) || (i.property_id == 0x03))) [
  | inl h ↦ rw h (others-append is b)
  | inr h ↦ rw h (ap (λ xs. i.encoded ∷ xs) (others-append is b))
]

made :
    (property_id : ℕ) (encoded : Bytes) (property : CustomProperty)
    → custom_property property_id encoded ≡ ok property
    → (property.property_id ≡ property_id) × (property.encoded ≡ encoded)
made property_id encoded property h = ground arith

pub retain_properties-encodings :
    (items out : List CustomProperty)
    → retain_properties items ≡ ok out
    → encodings out ≡ encodings items
retain_properties-encodings [] out h = sym (ap encodings (ok-injective h))
retain_properties-encodings (item ∷ items) out h = elim (Result-cases (retain_property item)) [
  | inr (_, e) ↦ absurd (raise-neq-ok (rw e at h))
  | inl (first, e) ↦ elim (Result-cases (retain_properties items)) [
    | inr (_, f) ↦ absurd (raise-neq-ok (rw (e, f) at h))
    | inl (rest, f) ↦
        sym (ap encodings (ok-injective (rw (e, f) at h)))
        ∙ ap₂ (λ x xs. x ∷ xs) (made item.property_id item.encoded first e).1
            (retain_properties-encodings items rest f)
  ]
]

-- Properties that keep the others and the number of the values, which are this one.
pub record Replaces (value : Bytes) (items out : List CustomProperty) : Type 0 where
  pub counted : count_values out ≡ count_values items
  pub kept : others out ≡ others items
  pub valued : All (HasValue value) out

-- A property counts by the identifier that it was made with.
count_made :
    (property_id : ℕ) (encoded : Bytes) (property : CustomProperty)
    → custom_property property_id encoded ≡ ok property
    → count_id property.property_id ≡ count_id property_id
count_made property_id encoded property h = ap count_id (made property_id encoded property h).0

pub count_new :
    (property_id : ℕ) (value : Bytes) (property : CustomProperty)
    → new_property property_id value ≡ ok property
    → count_id property.property_id ≡ count_id property_id
count_new property_id value property h =
    count_made property_id ((hex2 property_id ++ hex4 (length value)) ++ value) property h

pub count_value :
    (item : CustomProperty) → (item.property_id == 0x02) ≡ true → count_id item.property_id ≡ 1
count_value item h = rw h

pub count_other :
    (item : CustomProperty) → (item.property_id == 0x02) ≡ false → count_id item.property_id ≡ 0
count_other item h = rw h

new_value-HasValue :
    (value : Bytes) (property : CustomProperty)
    → new_property 0x02 value ≡ ok property
    → HasValue value property
new_value-HasValue value property h k =
    ap (drop 6) {y = (hex2 0x02 ++ hex4 (length value)) ++ value} (made 0x02 _ property h).1

pub other-HasValue :
    (value : Bytes) (property_id : ℕ) (encoded : Bytes) (property : CustomProperty)
    → custom_property property_id encoded ≡ ok property
    → (property_id == 0x02) ≡ false
    → HasValue value property
other-HasValue value property_id encoded property h different k =
    let same = (made property_id encoded property h).0 in
    absurd (ground (arith, same, k, different))

-- The encodings of one property among the others.
abbrev other : ℕ → Bytes → List Bytes
other property_id encoded =
    if (property_id == 0x02) || (property_id == 0x03) then [] else encoded ∷ []

others_one : (item : CustomProperty) → others (item ∷ []) ≡ other item.property_id item.encoded
others_one item = refl

-- A property that was made with an identifier counts as that one.
pub others_made :
    (property_id : ℕ) (encoded : Bytes) (property : CustomProperty)
    → custom_property property_id encoded ≡ ok property
    → others (property ∷ []) ≡ other property_id encoded
others_made property_id encoded property h =
    let (i, e) = made property_id encoded property h in ap₂ other i e

-- A new property of the value or of the sensitivity is none of the others.
others_new :
    (property_id : ℕ) (value : Bytes) (property : CustomProperty)
    → new_property property_id value ≡ ok property
    → ((property_id == 0x02) || (property_id == 0x03)) ≡ true
    → others (property ∷ []) ≡ []
others_new property_id value property h t =
    others_made property_id ((hex2 property_id ++ hex4 (length value)) ++ value) property h ∙ rw t

pub others_value :
    (value : Bytes) (property : CustomProperty)
    → new_property 0x02 value ≡ ok property
    → others (property ∷ []) ≡ []
others_value value property h = others_new 0x02 value property h refl

pub others_flag :
    (value : Bytes) (property : CustomProperty)
    → new_property 0x03 value ≡ ok property
    → others (property ∷ []) ≡ []
others_flag value property h = others_new 0x03 value property h refl

pub flag-HasValue :
    (value content : Bytes) (property : CustomProperty)
    → new_property 0x03 content ≡ ok property
    → HasValue value property
flag-HasValue value content property h =
    other-HasValue value 0x03 ((hex2 0x03 ++ hex4 (length content)) ++ content) property h refl

pub retained_Replaces :
    (value : Bytes) (item retained : CustomProperty)
    → retain_property item ≡ ok retained
    → (item.property_id == 0x02) ≡ false
    → Replaces value (item ∷ []) (retained ∷ [])
retained_Replaces value item retained h different = record {
  counted = omega (arith, count_made item.property_id item.encoded retained h);
  kept = others_made item.property_id item.encoded retained h;
  valued = (other-HasValue value item.property_id item.encoded retained h different, tt);
}

is_value : (item : CustomProperty) → (item.property_id == 0x02) ≡ true → others (item ∷ []) ≡ []
is_value item h = rw h

pub is_flag :
    (item : CustomProperty)
    → (item.property_id == 0x02) ≡ false
    → (item.property_id == 0x03) ≡ true
    → others (item ∷ []) ≡ []
is_flag item h k = rw (h, k)

pub new_values-Replaces :
    (value : Bytes) (sensitive : Option Bool) (has_sensitivity : Bool) (item : CustomProperty)
    (out : List CustomProperty)
    → (item.property_id == 0x02) ≡ true
    → new_values value sensitive has_sensitivity ≡ ok out
    → Replaces value (item ∷ []) out
new_values-Replaces value sensitive has_sensitivity item out t h =
    elim (Result-cases (new_property 0x02 value)) [
      | inr (_, e) ↦ absurd (raise-neq-ok (no_value sensitive has_sensitivity _ e h))
      | inl (v, e) ↦ go sensitive has_sensitivity v e h
    ]
  where
    only :
        (v : CustomProperty) → new_property 0x02 value ≡ ok v → Replaces value (item ∷ []) (v ∷ [])
    only v e = record {
      counted = omega (arith, count_new 0x02 value v e, count_value item t);
      kept = others_value value v e ∙ sym (is_value item t);
      valued = (new_value-HasValue value v e, tt);
    }

    no_value :
        (sensitive : Option Bool) (has_sensitivity : Bool) (e : Error)
        → new_property 0x02 value ≡ raise e
        → new_values value sensitive has_sensitivity ≡ ok out
        → raise e ≡ ok out
    no_value none has_sensitivity e f h = rw f at h
    no_value (some s) true e f h = rw f at h
    no_value (some s) false e f h = rw f at h

    go :
        (sensitive : Option Bool) (has_sensitivity : Bool) (v : CustomProperty)
        → new_property 0x02 value ≡ ok v
        → new_values value sensitive has_sensitivity ≡ ok out
        → Replaces value (item ∷ []) out
    go none has_sensitivity v e h =
        subst (Replaces value (item ∷ [])) (ok-injective (rw e at h)) (only v e)
    go (some s) true v e h =
        subst (Replaces value (item ∷ [])) (ok-injective (rw e at h)) (only v e)
    go (some s) false v e h = elim (Result-cases (new_property 0x03 (sensitivity_value s))) [
      | inr (_, f) ↦ absurd (raise-neq-ok (rw (e, f) at h))
      | inl (flag, f) ↦ subst (Replaces value (item ∷ [])) (ok-injective (rw (e, f) at h)) (record {
        counted = omega (
          arith,
          count_new 0x02 value v e,
          count_new 0x03 (sensitivity_value s) flag f,
          count_value item t,
        );
        kept =
            others-append (v ∷ []) (flag ∷ [])
            ∙ ap₂ (λ a b. a ++ b) (others_value value v e)
                (others_flag (sensitivity_value s) flag f)
            ∙ sym (is_value item t);
        valued =
            (new_value-HasValue value v e, (flag-HasValue value (sensitivity_value s) flag f, tt));
      })
    ]
