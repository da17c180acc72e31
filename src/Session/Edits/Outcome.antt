-- ===== src/Session/Edits/Outcome.antt =====
-- What `_edited_fields` of session.py makes of a record.
use password_bonobo.Prelude.{
  ℕ, ◌≡◌, ◌≢◌, ◌≤◌, refl, sym, ap, subst, ◌∙◌, Bool, true, false, Option, none, some, List, [], ◌∷◌,
  length, any, ltb, ◌==◌, All, arith,
}
use password_bonobo.Errors.{ok, value_error, ok-injective, passed, first_part, ◌>>=◌}
use password_bonobo.Model.{RawField, RawRecord, VaultDocument}
use password_bonobo.Session.Fork.{PlannedField}
use password_bonobo.Session.Edits.Replace.{planned_matching, AreTyped, AreOnce, listed}
use password_bonobo.Session.Edits.Planned.{encode_edit-type}
use password_bonobo.Session.Edits.Laws.{both_loops, both_loops-unedited, both_loops-edited}
use password_bonobo.Session.Edits.{
  RecordEdit, field_type, matching, first_of, encode_edit, Replacements, plan_edits, replacement_of,
  replace_fields, added, insert_before_end, edited_fields,
}

abbrev pub is_edited : ℕ → List RecordEdit → Bool
is_edited t edits = any (λ e. field_type e == t) edits

-- The replacement of an edit, and the one field at most that it is for.
record HasReplacement (d : VaultDocument) (r : RawRecord) (rs : Replacements) (edit : RecordEdit)
    : Type 0 where
  replacement : Option RawField
  encoded : encode_edit d edit (first_of (matching (field_type edit) r.fields)) ≡ ok replacement
  entered : replacement_of rs (field_type edit) ≡ some replacement
  single : length (matching (field_type edit) r.fields) ≤ 1

record IsPlanFor (d : VaultDocument) (r : RawRecord) (seen : List ℕ) (edits : List RecordEdit)
    (rs : Replacements) : Type 0 where
  typed : AreTyped rs
  once : AreOnce rs
  fresh : (t : ℕ) → any (λ u. u == t) seen ≡ true → replacement_of rs t ≡ none
  unedited : (t : ℕ) → is_edited t edits ≡ false → replacement_of rs t ≡ none
  each : All (HasReplacement d r rs) edits

cons-AreTyped :
    (t : ℕ) (new : Option RawField) (rs : Replacements)
    → ((raw : RawField) → new ≡ some raw → raw.type_code ≡ t)
    → AreTyped rs
    → AreTyped ((t, new) ∷ rs)
cons-AreTyped t none rs h k = k
cons-AreTyped t (some raw) rs h k = (h raw refl, k)

-- An entry for another type hides nothing.
behind_entry :
    (t u : ℕ) (new : Option RawField) (rs : Replacements)
    → t ≢ u
    → replacement_of ((t, new) ∷ rs) u ≡ replacement_of rs u
unfolding replacement_of
behind_entry t u new rs h = ground arith

at_entry :
    (t : ℕ) (new : Option RawField) (rs : Replacements)
    → replacement_of ((t, new) ∷ rs) t ≡ some new
unfolding replacement_of
at_entry t new rs = ground arith

later_edits :
    (d : VaultDocument) (r : RawRecord) (t : ℕ) (new : Option RawField) (rs : Replacements)
    (edits : List RecordEdit)
    → replacement_of rs t ≡ none
    → All (HasReplacement d r rs) edits
    → All (HasReplacement d r ((t, new) ∷ rs)) edits
later_edits d r t new rs [] e h = tt
later_edits d r t new rs (edit ∷ edits) e h = (
  record {
    replacement = h.0.replacement;
    encoded = h.0.encoded;
    entered =
        behind_entry t (field_type edit) new rs (λ same.
          let no : none ≡ some h.0.replacement =
            sym e ∙ ap (replacement_of rs) same ∙ h.0.entered in
          cc)
        ∙ h.0.entered;
    single = h.0.single;
  },
  later_edits d r t new rs edits e h.1,
)

cons-IsPlanFor :
    (d : VaultDocument) (r : RawRecord) (seen : List ℕ) (edit : RecordEdit)
    (edits : List RecordEdit) (new : Option RawField) (rs : Replacements)
    → any (λ u. u == field_type edit) seen ≡ false
    → ltb 1 (length (matching (field_type edit) r.fields)) ≡ false
    → encode_edit d edit (first_of (matching (field_type edit) r.fields)) ≡ ok new
    → IsPlanFor d r (field_type edit ∷ seen) edits rs
    → IsPlanFor d r seen (edit ∷ edits) ((field_type edit, new) ∷ rs)
cons-IsPlanFor d r seen edit edits new rs e1 e2 e3 h =
    let t = field_type edit in
    let free : replacement_of rs t ≡ none = h.fresh t (ground arith) in
    record {
      typed =
          cons-AreTyped t new rs (λ raw e. encode_edit-type d r edit raw (e3 ∙ ap ok e)) h.typed;
      once = (free, h.once);
      fresh = λ u e.
          behind_entry t u new rs (λ same.
            let no : any (λ v. v == u) seen ≡ false =
              subst (λ m. any (λ v. v == m) seen ≡ false) same e1 in
            cc)
          ∙ h.fresh u (ground (arith, e));
      unedited = λ u e.
          behind_entry t u new rs (λ same. ground (arith, same, e))
          ∙ h.unedited u (ground (arith, e));
      each = (
        record {
          replacement = new;
          encoded = e3;
          entered = at_entry t new rs;
          single = ground arith;
        },
        later_edits d r t new rs edits free h.each,
      );
    }

plan_edits-IsPlanFor :
    (d : VaultDocument) (r : RawRecord) (seen : List ℕ) (edits : List RecordEdit)
    (rs : Replacements)
    → plan_edits d r seen edits ≡ ok rs
    → IsPlanFor d r seen edits rs
unfolding plan_edits replacement_of
plan_edits-IsPlanFor d r seen [] rs e =
    subst (IsPlanFor d r seen []) (ok-injective e)
      (record { typed = tt; once = tt; fresh = λ t h. refl; unedited = λ t h. refl; each = tt })
plan_edits-IsPlanFor d r seen (edit ∷ edits) rs e =
    let t = field_type edit in
    let (e1, k1) = passed (any (λ u. u == t) seen) value_error _ e in
    let (e2, k2) = passed (ltb 1 (length (matching t r.fields))) value_error _ k1 in
    let (new, e3, k3) =
      first_part (encode_edit d edit (first_of (matching t r.fields)))
        (λ new. plan_edits d r (t ∷ seen) edits >>= λ rest. ok ((t, new) ∷ rest)) k2 in
    let (rest, e4, k4) =
      first_part (plan_edits d r (t ∷ seen) edits) (λ rest. ok ((t, new) ∷ rest)) k3 in
    subst (IsPlanFor d r seen (edit ∷ edits)) (ok-injective k4) (
      cons-IsPlanFor d r seen edit edits new rest e1 e2 e3
        (plan_edits-IsPlanFor d r (t ∷ seen) edits rest e4))

-- What became of an edit: the field that was encoded from the record's own is the only one of its
-- type, or the type has no field any more.
pub record IsDone (d : VaultDocument) (r : RawRecord) (fs : List PlannedField) (edit : RecordEdit)
    : Type 0 where
  pub new : Option RawField
  pub encoded : encode_edit d edit (first_of (matching (field_type edit) r.fields)) ≡ ok new
  pub stands : planned_matching (field_type edit) fs ≡ listed new

pub record IsEdited (d : VaultDocument) (r : RawRecord) (edits : List RecordEdit)
    (fs : List PlannedField) : Type 0 where
  pub edits_done : All (IsDone d r fs) edits
  pub unedited : (t : ℕ) → is_edited t edits ≡ false → planned_matching t fs ≡ matching t r.fields

All-IsDone :
    (d : VaultDocument) (r : RawRecord) (rs : Replacements) (h : AreTyped rs) (k : AreOnce rs)
    (edits : List RecordEdit)
    → All (HasReplacement d r rs) edits
    → All (IsDone d r (both_loops rs r.fields h k)) edits
All-IsDone d r rs h k [] a = tt
All-IsDone d r rs h k (edit ∷ edits) a = (
  record {
    new = a.0.replacement;
    encoded = a.0.encoded;
    stands =
        both_loops-edited rs r.fields h k (field_type edit) a.0.replacement
          (matching (field_type edit) r.fields) a.0.entered refl a.0.single;
  },
  All-IsDone d r rs h k edits a.1,
)

-- When the fields of a record are edited, each edit has its field: what it is encoded to stands as
-- the one field of its type, or none does if it removes the field. The fields of every type
-- that no edit names are those of the record, in their order.
pub edited_fields-IsEdited :
    (d : VaultDocument) (r : RawRecord) (edits : List RecordEdit) (fs : List PlannedField)
    → edited_fields d r edits ≡ ok fs
    → IsEdited d r edits fs
unfolding edited_fields
edited_fields-IsEdited d r edits fs e =
    let (rs, e1, k1) =
      first_part (plan_edits d r [] edits)
        (λ rs.
          ok (
            insert_before_end (added (replace_fields rs r.fields).1)
              (replace_fields rs r.fields).0))
        e in
    let plan = plan_edits-IsPlanFor d r [] edits rs e1 in
    subst (IsEdited d r edits) (ok-injective k1) (record {
      edits_done = All-IsDone d r rs plan.typed plan.once edits plan.each;
      unedited = λ t h. both_loops-unedited rs r.fields plan.typed plan.once t (plan.unedited t h);
    })
