-- ===== src/Session/Fork/Follow.antt =====
-- Each warning of a document under `_fork_document` of session.py: it stays, moves with its field,
-- or goes with it.
use password_bonobo.Prelude.{
  ℕ, zero, suc, ◌+◌, ◌≡◌, ◌≢◌, refl, sym, ap, subst, ◌∙◌, Option, none, some, List, [], ◌∷◌, ◌++◌,
  arith, inl, inr, Bool-cases, Option-cases,
}
use password_bonobo.Model.{
  RawField, RawRecord, VaultDocument, PreservationWarning, SectionName, header, record_section,
}
use password_bonobo.Session.Fork.{
  PlannedField, kept, made, PlannedRecord, Coordinates, same_coordinates, Location, remapped_fields,
  remapped, locate, moved, remap_warning, remap_warnings, fork_document, place_records,
  distinct_records,
}
use password_bonobo.Session.Fork.Fields.{
  get_elem?, field_at, planned_at, StandsAt, field_at-place_records, field_at-distinct_records,
}
use password_bonobo.Session.Fork.Warnings.{locate-StandsAt, same_coordinates_refl}

abbrev pub coordinates_of : ℕ → RawField → Coordinates
coordinates_of source raw = record {
  record_ordinal = source;
  field_ordinal = raw.ordinal;
  type_code = raw.type_code;
}

-- Something is found behind a list where something is found in it.
locate_later :
    (entry : Coordinates × Location) (entries : List (Coordinates × Location)) (c : Coordinates)
    → ((l : Location) × (locate entries c ≡ some l))
    → (l : Location) × (locate (entry ∷ entries) c ≡ some l)
unfolding locate
locate_later (d, k) entries c (l, h) = elim (Bool-cases (same_coordinates d c)) [
  | inl same ↦ (k, rw same)
  | inr other ↦ (l, rw other h)
]

locate_behind :
    (source r n : ℕ) (fs : List PlannedField) (rest : List (Coordinates × Location))
    (c : Coordinates)
    → ((l : Location) × (locate rest c ≡ some l))
    → (l : Location) × (locate (remapped_fields source r n fs ++ rest) c ≡ some l)
unfolding remapped_fields
locate_behind source r n [] rest c h = h
locate_behind source r n (made raw ∷ fs) rest c h = locate_behind source r (n + 1) fs rest c h
locate_behind source r n (kept raw ∷ fs) rest c h =
    locate_later (coordinates_of source raw, (r, n)) (remapped_fields source r (n + 1) fs ++ rest) c
      (locate_behind source r (n + 1) fs rest c h)

locate_kept :
    (source r n j : ℕ) (fs : List PlannedField) (rest : List (Coordinates × Location))
    (raw : RawField)
    → get_elem? fs j ≡ some (kept raw)
    → (l : Location) × (locate (remapped_fields source r n fs ++ rest) (coordinates_of source raw)
        ≡ some l)
unfolding remapped_fields locate
locate_kept source r n j [] rest raw h = cc
locate_kept source r n zero (made other ∷ fs) rest raw h = cc
locate_kept source r n zero (kept other ∷ fs) rest raw h =
    let same : other ≡ raw = cc in
    ((r, n), rw (same, same_coordinates_refl (coordinates_of source raw)))
locate_kept source r n (suc j) (made other ∷ fs) rest raw h =
    locate_kept source r (n + 1) j fs rest raw h
locate_kept source r n (suc j) (kept other ∷ fs) rest raw h =
    locate_later (coordinates_of source other, (r, n)) (remapped_fields source r (n + 1) fs ++ rest)
      (coordinates_of source raw) (locate_kept source r (n + 1) j fs rest raw h)

-- A field that is kept is found.
pub locate_planned :
    (n i j : ℕ) (ps : List PlannedRecord) (source : ℕ) (raw : RawField)
    → planned_at ps i j ≡ some (source, kept raw)
    → (l : Location) × (locate (remapped n ps) (coordinates_of source raw) ≡ some l)
unfolding remapped
locate_planned n i j [] source raw h = cc
locate_planned n zero j (p ∷ ps) source raw h = elim (Option-cases (get_elem? p.fields j)) [
  | inl no_field ↦ cc (rw no_field at h)
  | inr (g, e) ↦
      let e' : ◌≡◌ {A = Option (ℕ × PlannedField)} (some (p.ordinal, g)) (some (source, kept raw)) =
        rw e at h in
      let same : g ≡ kept raw = cc in
      let from : p.ordinal ≡ source = cc in
      subst
        (λ m.
          (l : Location) × (locate (remapped_fields p.ordinal n 0 p.fields ++ remapped (n + 1) ps)
              (coordinates_of m raw)
            ≡ some l))
        from (locate_kept p.ordinal n 0 j p.fields (remapped (n + 1) ps) raw (e ∙ ap some same))
]
locate_planned n (suc i) j (p ∷ ps) source raw h =
    locate_behind p.ordinal n 0 p.fields (remapped (n + 1) ps) (coordinates_of source raw)
      (locate_planned (n + 1) i j ps source raw h)

-- The warning at another location.
abbrev at_location : PreservationWarning → Location → PreservationWarning
at_location w l = record {
  code = w.code;
  section = record_section;
  record_ordinal = some l.0;
  field_ordinal = l.1;
  type_code = w.type_code;
}

-- Two places hold a field of one type and content.
pub record SameField (old new : List RawRecord) (w : PreservationWarning) (source : ℕ)
    (l : Location) : Type 0 where
  pub before : RawField
  pub after : RawField
  pub stood : field_at old source w.field_ordinal ≡ some before
  pub stands : field_at new l.0 l.1 ≡ some after
  pub type_code : (before.type_code ≡ w.type_code) × (after.type_code ≡ w.type_code)
  pub payload : after.payload ≡ before.payload

-- What becomes of the warnings, in their order.
pub data Follows (old new : List RawRecord) (ps : List PlannedRecord)
    : List PreservationWarning → List PreservationWarning → Type 0 where
  all_followed : Follows old new ps [] []
  stays :
      {w : PreservationWarning} {ws vs : List PreservationWarning}
      → w.section ≡ header
      → Follows old new ps ws vs
      → Follows old new ps (w ∷ ws) (w ∷ vs)
  nowhere :
      {w : PreservationWarning} {ws vs : List PreservationWarning}
      → w.section ≡ record_section
      → w.record_ordinal ≡ none
      → Follows old new ps ws vs
      → Follows old new ps (w ∷ ws) vs
  moves :
      {w : PreservationWarning} {ws vs : List PreservationWarning} (source : ℕ) (l : Location)
      → w.section ≡ record_section
      → w.record_ordinal ≡ some source
      → SameField old new w source l
      → Follows old new ps ws vs
      → Follows old new ps (w ∷ ws) (at_location w l ∷ vs)
  goes :
      {w : PreservationWarning} {ws vs : List PreservationWarning} (source : ℕ)
      → w.section ≡ record_section
      → w.record_ordinal ≡ some source
      → ((i j : ℕ) (raw : RawField)
          → raw.ordinal ≡ w.field_ordinal
          → raw.type_code ≡ w.type_code
          → planned_at ps i j ≢ some (source, kept raw))
      → Follows old new ps ws vs
      → Follows old new ps (w ∷ ws) vs

-- The kept fields of a plan are those of the document, at their coordinates.
abbrev pub IsPlanOf : List RawRecord → List PlannedRecord → Type 0
IsPlanOf old ps =
    (i j source : ℕ) (raw : RawField)
    → planned_at ps i j ≡ some (source, kept raw)
    → field_at old source raw.ordinal ≡ some raw

same_field :
    (old : List RawRecord) (issued : ℕ) (ps : List PlannedRecord) (w : PreservationWarning)
    (source : ℕ) (l : Location)
    → IsPlanOf old ps
    → StandsAt ps 0
        (record {
          record_ordinal = source;
          field_ordinal = w.field_ordinal;
          type_code = w.type_code;
        })
        l
    → SameField old (distinct_records issued [] (place_records 0 ps)) w source l
same_field old issued ps w source l plan s =
    let index : l.0 ≡ s.index = omega (arith, s.location) in
    record {
      before = s.raw;
      after = record {
        type_code = s.raw.type_code;
        payload = s.raw.payload;
        ordinal = l.1;
        classification = s.raw.classification;
      };
      stood = rw (← s.ordinal) (plan s.index l.1 source s.raw s.planned);
      stands =
          field_at-distinct_records issued [] (place_records 0 ps) l.0 l.1
          ∙ rw index (field_at-place_records 0 s.index l.1 ps source (kept s.raw) s.planned);
      type_code = (s.type_code, s.type_code);
      payload = refl;
    }

module _ (old : List RawRecord) (issued : ℕ) (ps : List PlannedRecord)
    (plan : IsPlanOf old ps) where
  abbrev new_records : List RawRecord
  new_records = distinct_records issued [] (place_records 0 ps)

  not_kept :
      (w : PreservationWarning) (source : ℕ)
      → locate (remapped 0 ps) (record {
        record_ordinal = source;
        field_ordinal = w.field_ordinal;
        type_code = w.type_code;
      })
        ≡ none
      → (i j : ℕ) (raw : RawField) → raw.ordinal ≡ w.field_ordinal
      → raw.type_code ≡ w.type_code
      → planned_at ps i j ≢ some (source, kept raw)
  not_kept w source h i j raw e k planned =
      let found = locate_planned 0 i j ps source raw planned in
      let missed : locate (remapped 0 ps) (coordinates_of source raw) ≡ none = rw (e, k) h in
      let both : some found.0 ≡ none = sym found.1 ∙ missed in cc

  Follows-one :
      (w : PreservationWarning) (section : SectionName) (record_ordinal : Option ℕ)
      (ws vs : List PreservationWarning)
      → w.section ≡ section
      → w.record_ordinal ≡ record_ordinal
      → Follows old new_records ps ws vs
      → Follows old new_records ps
          (w ∷ ws)
          (remap_warning (remapped 0 ps) w section record_ordinal ++ vs)
  unfolding remap_warning moved
  Follows-one w header record_ordinal ws vs e k rest = stays e rest
  Follows-one w record_section none ws vs e k rest = nowhere e k rest
  Follows-one w record_section (some source) ws vs e k rest =
      let c : Coordinates = record {
        record_ordinal = source;
        field_ordinal = w.field_ordinal;
        type_code = w.type_code;
      } in
      elim (Option-cases (locate (remapped 0 ps) c)) [
        | inl lost ↦ rw (lost, moved) (goes source e k (not_kept w source lost) rest)
        | inr (l, found) ↦
            rw (found, moved)
              (moves source l e k
                (same_field old issued ps w source l plan (locate-StandsAt 0 ps c l found)) rest)
      ]

  remap_warnings-Follows :
      (ws : List PreservationWarning)
      → Follows old new_records ps ws (remap_warnings (remapped 0 ps) ws)
  unfolding remap_warnings
  remap_warnings-Follows [] = all_followed
  remap_warnings-Follows (w ∷ ws) =
      Follows-one w w.section w.record_ordinal ws (remap_warnings (remapped 0 ps) ws) refl refl
        (remap_warnings-Follows ws)

-- The warnings of a forked document, in their order: those of the header stay; one of a record
-- moves to where its field went, and the field there has the type and the content of the one
-- it was about; one goes if the plan keeps no field at its coordinates.
pub fork_document-Follows :
    (issued : ℕ) (document : VaultDocument) (ps : List PlannedRecord)
    → IsPlanOf document.records ps
    → Follows document.records
        (fork_document issued document ps).records
        ps
        document.warnings
        (fork_document issued document ps).warnings
unfolding fork_document
fork_document-Follows issued document ps plan =
    remap_warnings-Follows document.records (issued + 1) ps plan document.warnings
