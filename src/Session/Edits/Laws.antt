-- ===== src/Session/Edits/Laws.antt =====
-- `_edited_fields` of session.py: every edit has its field, and the other types keep theirs.
use password_bonobo.Prelude.{
  ℕ, ◌≡◌, ◌≤◌, refl, ◌∙◌, Option, none, some, List, [], ◌∷◌, length, ◌==◌, inl, inr, Bool-cases,
  arith,
}
use password_bonobo.Model.{RawField}
use password_bonobo.Session.Fork.{PlannedField}
use password_bonobo.Session.Edits.Replace.{
  planned_matching, AreTyped, AreOnce, listed, insert-planned_matching, insert-planned_matching_new,
  without-AreTyped, without-AreOnce,
}
use password_bonobo.Session.Edits.Loops.{
  replace_fields-unedited, replace_fields-absent, replace_fields-present,
}
use password_bonobo.Session.Edits.{
  matching, Replacements, replacement_of, without, replace_fields, added, insert_before_end,
}

replace_fields-AreTyped :
    (rs : Replacements) (raws : List RawField) → AreTyped rs → AreTyped (replace_fields rs raws).1
unfolding replace_fields
replace_fields-AreTyped rs [] h = h
replace_fields-AreTyped rs (raw ∷ raws) h =
    replace_fields-AreTyped (without rs raw.type_code) raws (without-AreTyped rs raw.type_code h)

replace_fields-AreOnce :
    (rs : Replacements) (raws : List RawField) → AreOnce rs → AreOnce (replace_fields rs raws).1
unfolding replace_fields
replace_fields-AreOnce rs [] h = h
replace_fields-AreOnce rs (raw ∷ raws) h =
    replace_fields-AreOnce (without rs raw.type_code) raws (without-AreOnce rs raw.type_code h)

-- The replacements that are left, by type.
added-none :
    (rs : Replacements) (t : ℕ)
    → AreTyped rs
    → replacement_of rs t ≡ none
    → planned_matching t (added rs) ≡ []
unfolding replacement_of
added-none [] t h e = refl
added-none ((u, none) ∷ rs) t h e = elim (Bool-cases (u == t)) [
  | inl it ↦ let no : some none ≡ none = rw it at e in cc
  | inr other ↦ added-none rs t h (rw other at e)
]
added-none ((u, some raw) ∷ rs) t h e = elim (Bool-cases (u == t)) [
  | inl it ↦ let no : some (some raw) ≡ none = rw it at e in cc
  | inr other ↦ ground (arith, h.0, added-none rs t h.1 (rw other at e))
]

added-some :
    (rs : Replacements) (t : ℕ) (r : Option RawField)
    → AreTyped rs
    → AreOnce rs
    → replacement_of rs t ≡ some r
    → planned_matching t (added rs) ≡ listed r
unfolding replacement_of
added-some [] t r h k e = cc
added-some ((u, none) ∷ rs) t r h k e = elim (Bool-cases (u == t)) [
  | inl it ↦
      let same : some none ≡ some r = rw it at e in
      let same' : none ≡ r = cc in
      let here : u ≡ t = ground arith in rw (← same') (added-none rs t h (rw (← here) k.0))
  | inr other ↦ added-some rs t r h k.1 (rw other at e)
]
added-some ((u, some raw) ∷ rs) t r h k e = elim (Bool-cases (u == t)) [
  | inl it ↦
      let same : some (some raw) ≡ some r = rw it at e in
      let same' : some raw ≡ r = cc in
      let here : u ≡ t = ground arith in
      rw (← same') (ground (arith, h.0, added-none rs t h.1 (rw (← here) k.0)))
  | inr other ↦ ground (arith, h.0, added-some rs t r h.1 k.1 (rw other at e))
]

-- The planned fields behind both loops, by type.
module _ (rs : Replacements) (raws : List RawField) (h : AreTyped rs) (k : AreOnce rs) where
  abbrev pub both_loops : List PlannedField
  both_loops = insert_before_end (added (replace_fields rs raws).1) (replace_fields rs raws).0

  pub both_loops-unedited :
      (t : ℕ) → replacement_of rs t ≡ none → planned_matching t both_loops ≡ matching t raws
  both_loops-unedited t e =
      let first = replace_fields-unedited rs raws t h k e in
      insert-planned_matching t (added (replace_fields rs raws).1) (replace_fields rs raws).0
        (added-none (replace_fields rs raws).1 t (replace_fields-AreTyped rs raws h) first.1)
      ∙ first.0

  -- One field at most has the type.
  pub both_loops-edited :
      (t : ℕ) (r : Option RawField) (found : List RawField)
      → replacement_of rs t ≡ some r
      → matching t raws ≡ found
      → length found ≤ 1
      → planned_matching t both_loops ≡ listed r
  both_loops-edited t r [] e m one =
      let first = replace_fields-absent rs raws t r h k e m in
      insert-planned_matching_new t (added (replace_fields rs raws).1) (replace_fields rs raws).0
        first.0
      ∙ added-some (replace_fields rs raws).1 t r (replace_fields-AreTyped rs raws h)
          (replace_fields-AreOnce rs raws k) first.1
  both_loops-edited t r (raw ∷ []) e m one =
      let first = replace_fields-present rs raws t r raw h k e m in
      insert-planned_matching t (added (replace_fields rs raws).1) (replace_fields rs raws).0
        (added-none (replace_fields rs raws).1 t (replace_fields-AreTyped rs raws h) first.1)
      ∙ first.0
  both_loops-edited t r (a ∷ b ∷ more) e m one = absurd (omega (arith, one))
