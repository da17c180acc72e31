-- ===== src/Session/Origin.antt =====
-- The plans of session.py: their kept fields are those of the document, and their handles were
-- issued.
use password_bonobo.Prelude.{
  ℕ, zero, suc, ◌+◌, ◌≡◌, ◌<◌, refl, sym, ap, subst, ◌∙◌, Option, none, some, List, [], ◌∷◌, ◌++◌,
  length, All, arith, inl, inr, Option-cases,
}
use password_bonobo.Model.{RawField, RawRecord}
use password_bonobo.Session.Fork.{PlannedField, kept, made, PlannedRecord}
use password_bonobo.Session.Fork.Places.{ArePlaced, AreOrdered}
use password_bonobo.Session.Fork.Handles.{AreBelow}
use password_bonobo.Session.Fork.Fields.{get_elem?, field_at, Kept}
use password_bonobo.Session.Fork.Follow.{IsPlanOf}

-- The field of the document at its coordinates.
abbrev pub IsAt : List RawRecord → ℕ → RawField → Type 0
IsAt old source raw = field_at old source raw.ordinal ≡ some raw

-- A planned record with kept fields of the document, and a handle that was issued.
pub record IsFrom (old : List RawRecord) (issued : ℕ) (p : PlannedRecord) : Type 0 where
  pub fields : All (Kept (IsAt old p.ordinal)) p.fields
  pub handle : p.handle < issued

-- A record of the document.
pub record IsOf (old : List RawRecord) (issued : ℕ) (r : RawRecord) : Type 0 where
  pub fields : All (IsAt old r.ordinal) r.fields
  pub handle : r.handle < issued

kept_at :
    (P : RawField → Type 0) (fs : List PlannedField) (j : ℕ) (raw : RawField)
    → All (Kept P) fs
    → get_elem? fs j ≡ some (kept raw)
    → P raw
kept_at P [] j raw h e = cc
kept_at P (made other ∷ fs) zero raw h e = cc
kept_at P (kept other ∷ fs) zero raw h e = let same : other ≡ raw = cc in rw (← same) h.0
kept_at P (f ∷ fs) (suc j) raw h e = kept_at P fs j raw h.1 e

pub All-IsPlanOf :
    (old : List RawRecord) (issued : ℕ) (ps : List PlannedRecord)
    → All (IsFrom old issued) ps
    → IsPlanOf old ps
All-IsPlanOf old issued [] h i j source raw e = cc
All-IsPlanOf old issued (p ∷ ps) h zero j source raw e =
    elim (Option-cases (get_elem? p.fields j)) [
      | inl no_field ↦
          let e' : ◌≡◌ {A = Option (ℕ × PlannedField)} none (some (source, kept raw)) =
            rw no_field at e in
          cc
      | inr (f, found) ↦
          let e' : ◌≡◌ {A = Option (ℕ × PlannedField)} (some (p.ordinal, f))
              (some (source, kept raw)) =
            rw found at e in
          let same : f ≡ kept raw = cc in
          let from : p.ordinal ≡ source = cc in
          rw (← from)
            (kept_at (IsAt old p.ordinal) p.fields j raw h.0.fields (found ∙ ap some same))
    ]
All-IsPlanOf old issued (p ∷ ps) h (suc i) j source raw e =
    All-IsPlanOf old issued ps h.1 i j source raw e

-- What stands at the place of a field of ordered records is the field.
pub field_at-behind :
    (before after : List RawRecord) (j : ℕ)
    → field_at (before ++ after) (length before) j ≡ field_at after 0 j
field_at-behind [] after j = refl
field_at-behind (r ∷ rs) after j = field_at-behind rs after j

pub get-behind {ℓ} :
    {A : Type ℓ} (before : List A) (x : A) (after : List A)
    → get_elem? (before ++ (x ∷ after)) (length before) ≡ some x
get-behind [] x after = refl
get-behind (y ∷ ys) x after = get-behind ys x after

-- A list with its next element moved to the part before it.
pub append_snoc {ℓ} :
    {A : Type ℓ} (before : List A) (x : A) (after : List A)
    → before ++ (x ∷ after) ≡ (before ++ (x ∷ [])) ++ after
append_snoc [] x after = refl
append_snoc (y ∷ ys) x after = ap (λ t. y ∷ t) (append_snoc ys x after)

pub length-snoc {ℓ} : {A : Type ℓ} (xs : List A) (x : A) → length (xs ++ (x ∷ [])) ≡ length xs + 1
length-snoc [] x = refl
length-snoc (y ∷ ys) x = omega (arith, length-snoc ys x)

pub All-map {ℓ κ μ} :
    {A : Type ℓ} {P : A → Type κ} {Q : A → Type μ} (f : (a : A) → P a → Q a) (xs : List A)
    → All P xs
    → All Q xs
All-map f [] h = tt
All-map f (x ∷ xs) h = (f x h.0, All-map f xs h.1)

placed_at :
    (before fs : List RawField)
    → ArePlaced (length before) fs
    → All (λ f. get_elem? (before ++ fs) f.ordinal ≡ some f) fs
placed_at before [] h = tt
placed_at before (f ∷ fs) h = (
  ap (λ n. get_elem? (before ++ (f ∷ fs)) n) h.0 ∙ get-behind before f fs,
  subst (λ xs. All (λ g. get_elem? xs g.ordinal ≡ some g) fs) (sym (append_snoc before f fs))
      (placed_at (before ++ (f ∷ [])) fs (rw (length-snoc before f) h.1)),
)

is_of :
    (issued : ℕ) (before rs : List RawRecord)
    → AreOrdered (length before) rs
    → AreBelow issued rs
    → All (IsOf (before ++ rs) issued) rs
is_of issued before [] o b = tt
is_of issued before (r ∷ rs) o b = (
  record {
    fields =
        All-map
          (λ f e.
            ap (λ n. field_at (before ++ (r ∷ rs)) n f.ordinal) o.0
            ∙ field_at-behind before (r ∷ rs) f.ordinal
            ∙ e)
          r.fields (placed_at [] r.fields o.1);
    handle = b.0;
  },
  subst (λ xs. All (IsOf xs issued) rs) (sym (append_snoc before r rs))
      (is_of issued (before ++ (r ∷ [])) rs (rw (length-snoc before r) o.2) b.1),
)

-- The records of an ordered document.
pub AreOrdered-IsOf :
    (issued : ℕ) (rs : List RawRecord)
    → AreOrdered 0 rs
    → AreBelow issued rs
    → All (IsOf rs issued) rs
AreOrdered-IsOf issued rs o b = is_of issued [] rs o b
