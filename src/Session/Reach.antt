-- ===== src/Session/Reach.antt =====
-- The sessions that are reached in session.py, and the revisions that they refuse.
use password_bonobo.Prelude.{
  ℕ, ◌≤◌, ◌≡◌, ◌≢◌, ◌<◌, refl, subst, ◌∙◌, true, false, not, none, List, length, ◌==◌, ◌⊎◌, inl,
  inr, arith,
}
use password_bonobo.Errors.{
  ok, raise, ok-injective, passed, first_part, runtime_error, value_error, operation_error,
  unsaved_changes, stale_revision,
}
use password_bonobo.Session.Edits.{RecordEdit}
use password_bonobo.Session.Create.{NewRecord}
use password_bonobo.Session.Sources.{SuspendedSession}
use password_bonobo.Session.Protect.{protect, unprotect, plan_protection}
use password_bonobo.Session.Save.{
  abort_save, finish_suspend, finish_pending_cleanup, lock, discard_and_lock, shut, frozen,
  same_suspended, require_save_snapshot,
}
use password_bonobo.Session.Plans.{
  plan_apply-IsPlanned, plan_add-IsPlanned, plan_move-IsPlanned, plan_delete-IsPlanned,
  plan_protection-IsPlanned,
}
use password_bonobo.Session.Sound.{IsSound, records_of}
use password_bonobo.Session.Steps.{
  Step, applies, adds, moves_to, deletes, protects, unprotects, prepares, finishes, aborts,
  suspends, cleans, locks, discards, Keeps, run_plan-Keeps, run_unseen-Keeps, frozen-Keeps,
  shut-Keeps, prepare-Keeps, finish-Keeps,
}
use password_bonobo.Session.{
  VaultSession, apply, add, move, delete, plan_apply, plan_add, plan_move, plan_delete, is_some,
  run_plan, run_unseen, require_mutable,
}
use password_bonobo.Session.Find.{require_mutable_stale}

abort-Keeps : (s t : VaultSession) → IsSound s → abort_save s ≡ ok t → Keeps s t
unfolding abort_save
abort-Keeps s t h e =
    let (d, _, e1) = first_part (require_save_snapshot s) (λ d. ok (frozen s none)) e in
    subst (Keeps s) (ok-injective e1) (frozen-Keeps s none h (inl refl))

suspend-Keeps : (s t : VaultSession) → IsSound s → finish_suspend s ≡ ok t → Keeps s t
unfolding finish_suspend
suspend-Keeps s t h e =
    let (d, _, e1) = first_part (require_save_snapshot s) (λ d. ok (shut s)) e in
    subst (Keeps s) (ok-injective e1) (shut-Keeps s h)

lock-Keeps : (s t : VaultSession) → IsSound s → lock s ≡ ok t → Keeps s t
unfolding lock
lock-Keeps s t h e =
    let (_, e1) = passed s.locked runtime_error _ e in
    let (_, e2) = passed (is_some s.save_snapshot) runtime_error _ e1 in
    let (_, e3) = passed (not (length s.changes == 0)) (operation_error unsaved_changes) _ e2 in
    subst (Keeps s) (ok-injective e3) (shut-Keeps s h)

discard-Keeps : (s t : VaultSession) → IsSound s → discard_and_lock s ≡ ok t → Keeps s t
unfolding discard_and_lock
discard-Keeps s t h e =
    let (_, e1) = passed s.locked runtime_error _ e in
    subst (Keeps s) (ok-injective e1) (shut-Keeps s h)

clean-Keeps :
    (s t : VaultSession) (suspended : SuspendedSession)
    → IsSound s
    → finish_pending_cleanup s suspended ≡ ok t
    → Keeps s t
unfolding finish_pending_cleanup
clean-Keeps s t suspended h e =
    let (_, e1) = passed (not (same_suspended s.suspended suspended)) value_error _ e in
    subst (Keeps s) (ok-injective e1) (record {
      sound = record {
        ordered = h.ordered;
        distinct = h.distinct;
        below = h.below;
        header = h.header;
        revision = h.revision;
        frozen = h.frozen;
      };
      revision = inl refl;
      issued = omega arith;
    })

pub Step-Keeps : {s t : VaultSession} → Step s t → IsSound s → Keeps s t
unfolding apply add move delete protect unprotect
Step-Keeps {s = s} (applies handle expected edits) h =
    run_plan-Keeps s expected (plan_apply s handle expected edits) h
      (plan_apply-IsPlanned s (records_of h) handle expected edits)
Step-Keeps {s = s} (adds new expected) h =
    run_plan-Keeps s expected (plan_add s new expected) h
      (plan_add-IsPlanned s (records_of h) new expected)
Step-Keeps {s = s} (moves_to handle expected ordinal) h =
    run_plan-Keeps s expected (plan_move s handle expected ordinal) h
      (plan_move-IsPlanned s (records_of h) handle expected ordinal)
Step-Keeps {s = s} (deletes handle expected) h =
    run_unseen-Keeps s expected (plan_delete s handle expected) h
      (plan_delete-IsPlanned s (records_of h) handle expected)
Step-Keeps {s = s} (protects handle expected) h =
    run_plan-Keeps s expected (plan_protection s handle expected true) h
      (plan_protection-IsPlanned s (records_of h) handle expected true)
Step-Keeps {s = s} (unprotects handle expected) h =
    run_plan-Keeps s expected (plan_protection s handle expected false) h
      (plan_protection-IsPlanned s (records_of h) handle expected false)
Step-Keeps {s = s} (prepares d t e) h = prepare-Keeps s t d h e
Step-Keeps {s = s} (finishes opened published t e) h = finish-Keeps s opened published t h e
Step-Keeps {s = s} (aborts t e) h = abort-Keeps s t h e
Step-Keeps {s = s} (suspends t e) h = suspend-Keeps s t h e
Step-Keeps {s = s} (cleans suspended t e) h = clean-Keeps s t suspended h e
Step-Keeps {s = s} (locks t e) h = lock-Keeps s t h e
Step-Keeps {s = s} (discards t e) h = discard-Keeps s t h e

pub data Reach (s : VaultSession) : VaultSession → Type 0 where
  here : Reach s s
  after : {t u : VaultSession} → Reach s t → Step t u → Reach s u

later :
    (s t u : VaultSession)
    → Keeps s t
    → Keeps t u
    → (u.document.revision ≡ s.document.revision) ⊎ (s.issued ≤ u.document.revision)
later s t u a b = elim b.revision [
  | inr new ↦ inr (omega (arith, new, a.issued))
  | inl same ↦ elim a.revision [
    | inl old ↦ inl (same ∙ old)
    | inr new ↦ inr (omega (arith, same, new))
  ]
]

-- In every session that is reached from a sound one, by any operations in any order, the ordinals
-- of records and fields are their places, no handle occurs twice, and a save in progress holds
-- the current document; its revision is the one of before or was not issued then.
pub Reach-Keeps : {s t : VaultSession} → IsSound s → Reach s t → Keeps s t
Reach-Keeps {s = s} h here = record { sound = h; revision = inl refl; issued = omega arith }
Reach-Keeps {s = s} h (after {t = t} {u = u} before next) =
    let first = Reach-Keeps h before in
    let second = Step-Keeps next first.sound in
    record {
      sound = second.sound;
      revision = later s t u first second;
      issued = omega (arith, first.issued, second.issued);
    }

-- The operations that change the document, at one revision.
pub record AllStale (u : VaultSession) (expected : ℕ) : Type 0 where
  pub applying :
      (handle : ℕ) (edits : List RecordEdit)
      → apply u handle expected edits ≡ (raise (operation_error stale_revision), u)
  pub adding : (new : NewRecord) → add u new expected ≡ (raise (operation_error stale_revision), u)
  pub moving :
      (handle ordinal : ℕ)
      → move u handle expected ordinal ≡ (raise (operation_error stale_revision), u)
  pub deleting :
      (handle : ℕ) → delete u handle expected ≡ (raise (operation_error stale_revision), u)
  pub protecting :
      (handle : ℕ) → protect u handle expected ≡ (raise (operation_error stale_revision), u)
  pub unprotecting :
      (handle : ℕ) → unprotect u handle expected ≡ (raise (operation_error stale_revision), u)

all_stale :
    (u : VaultSession) (expected : ℕ)
    → require_mutable u expected ≡ raise (operation_error stale_revision)
    → AllStale u expected
unfolding apply add move delete protect unprotect run_plan run_unseen
all_stale u expected e = record {
  applying = λ handle edits. rw (e, plan_apply);
  adding = λ new. rw (e, plan_add);
  moving = λ handle ordinal. rw (e, plan_move);
  deleting = λ handle. rw (e, plan_delete);
  protecting = λ handle. rw (e, plan_protection);
  unprotecting = λ handle. rw (e, plan_protection);
}

-- When a step has changed the revision of a sound session, every revision that had been issued is
-- stale from then on: in whatever session is reached, while it is not locked, each of the six
-- operations on the document raises that the revision is stale, and changes nothing.
pub Reach-AllStale :
    {s t u : VaultSession} (expected : ℕ)
    → IsSound s
    → Step s t
    → t.document.revision ≢ s.document.revision
    → Reach t u
    → u.locked ≡ false
    → expected < s.issued
    → AllStale u expected
Reach-AllStale {s = s} {t = t} {u = u} expected h next changed reach active before =
    let first = Step-Keeps next h in
    let last = Reach-Keeps first.sound reach in
    let fresh : s.issued ≤ t.document.revision = elim first.revision [
      | inl same ↦ absurd (changed same)
      | inr new ↦ new
    ] in
    let other : expected < u.document.revision = elim last.revision [
      | inl same ↦ omega (arith, same, fresh)
      | inr new ↦ omega (arith, new, first.issued)
    ] in
    all_stale u expected
      (require_mutable_stale u expected active (λ e. absurd (omega (arith, e, other))))
