-- ===== src/Storage/Publish/Laws/Body.antt =====
-- The body of `_publish_source` of storage.py: the destination is what it was, or it is the staged
-- file.
use password_bonobo.Prelude.{◌≡◌, refl, sym, subst, ◌∙◌, true, false, Option, some}
use password_bonobo.Prelude.Bytes.{bytes_eq}
use password_bonobo.Errors.{Result, ok, raise}
use password_bonobo.Storage.Evidence.{FileBaseline, PublishedFile}
use password_bonobo.Storage.Slots.{RecoverySlot}
use password_bonobo.Storage.Action.{Action, ◌>>=◌, ◌>>◌, change, continue}
use password_bonobo.Storage.Action.Laws.{Meets, Triple, bind-Triple}
use password_bonobo.Storage.Files.{World, File, Store, too_large, same_baseline, baseline_of}
use password_bonobo.Storage.Transaction.{Staged, Transaction, act, on_result, note_replaced}
use password_bonobo.Storage.Publish.{Request, prepare, put_in_place, finish, body}
use password_bonobo.Storage.Publish.Laws.{IsVaultPath, StagedApart}
use password_bonobo.Storage.Publish.Laws.Place.{NoneBefore, IsPlaced, put_in_place-IsPlaced}
use password_bonobo.Storage.Publish.Laws.Check.{BaselineMet}
use password_bonobo.Storage.Publish.Laws.Prepare.{IsPrepared, Quiet}
use password_bonobo.Storage.Publish.Laws.Prepared.{prepare-Triple}
use password_bonobo.Storage.Publish.Laws.Finish.{
  IsEvidence, HasEvidence, Done, Noted, finish-Triple,
}

-- The destination was the file of the baseline, or it was not there.
pub record IsExpected (store : Store) (before : Option File) (baseline : Option FileBaseline)
    : Type 0 where
  pub met : BaselineMet store before baseline
  pub absent : NoneBefore before baseline

-- The destination is a file of the expected digest, and the evidence is of it.
pub record IsPublication (store : Store) (q : Request) (before : Option File) (p : PublishedFile)
    (w : World) : Type 0 where
  pub file : File
  pub there : w.files q.destination ≡ some file
  pub evidence : IsEvidence store q file p
  pub expected : IsExpected store before q.baseline

some_same : {a b : File} → some a ≡ some b → a ≡ b
some_same e = cc

module _ (store : Store) (q : Request) (h : IsVaultPath store q.destination)
    (apart : bytes_eq q.source q.destination ≡ false) (before : Option File) where
  -- The staged file was put in place, with the evidence or without.
  pub record Placed (K : Staged → File → Transaction → Type 0) (t : Transaction) : Type 0 where
    pub stage : Staged
    pub file : File
    pub holds : K stage file t
    pub expected : IsExpected store before q.baseline

  pub data Ended (t : Transaction) : Type 0 where
    quiet : Quiet store q before h t → Ended t
    done : Placed (λ stage file. Done store q stage file) t → Ended t

  abbrev placing : Staged → Option RecoverySlot → Action Transaction (Unit {0})
  placing stage slot = do
    act (put_in_place q.destination stage q.baseline)
    change note_replaced
    finish store q stage slot

  -- What the rest of the body does to a file that was put in place.
  finished :
      (stage : Staged) (file : File) (slot : Option RecoverySlot)
      → IsExpected store before q.baseline
      → (r : Result (Unit {0}) × Transaction)
      → Meets (λ u. Noted store q stage file) (Done store q stage file) r
      → Meets (λ u. Placed (λ stage file. Noted store q stage file)) Ended r
  finished stage file slot x (ok u, t) k = record {
    stage = stage;
    file = file;
    holds = k;
    expected = x;
  }
  finished stage file slot x (raise e, t) k =
      done (record { stage = stage; file = file; holds = k; expected = x })

  placing-Triple :
      (stage : Staged) (slot : Option RecoverySlot)
      → Triple
          (IsPrepared store q before stage)
          (placing stage slot)
          (λ u. Placed (λ stage file. Noted store q stage file))
          Ended
  unfolding ◌>>=◌ act
  placing-Triple stage slot t k = go (put_in_place q.destination stage q.baseline t.world) (
      put_in_place-IsPlaced q.destination stage
        (subst (StagedApart q.destination) k.ready.known k.ready.quiet.staged) t.world q.baseline)
    where
      go :
          (r : Result (Unit {0}) × World)
          → IsPlaced q.destination stage q.baseline t.world r
          → Meets
              (λ u. Placed (λ stage file. Noted store q stage file))
              Ended
              (continue
                (λ u. change note_replaced >> finish store q stage slot)
                (on_result t.progress r))
      go (ok u, w) (file, was, there, absent) =
          let same : k.file.file ≡ file = some_same (sym k.file.there ∙ was) in
          let x : IsExpected store before q.baseline = record {
            met = k.baseline;
            absent = subst (λ f. NoneBefore f q.baseline) k.ready.quiet.file absent;
          } in
          let u : Transaction = note_replaced (record { world = w; progress = t.progress }) in
          finished stage file slot x (finish store q stage slot u) (
            finish-Triple store q stage file h slot u (record {
              there = there;
              replaced = refl;
              known = k.ready.known;
              small = subst (λ f. too_large f ≡ false) same k.file.small;
              same =
                  subst (λ f. same_baseline (baseline_of store f) stage.baseline ≡ true) same
                    k.file.same;
              sha256 = k.ready.sha256;
              result = subst (HasEvidence store q file) (sym k.ready.quiet.unnoted) tt;
            }))
      go (raise e, w) left = quiet (record {
        file = left ∙ k.ready.quiet.file;
        replaced = k.ready.quiet.replaced;
        staged = k.ready.quiet.staged;
        unnoted = k.ready.quiet.unnoted;
      })

  prepare-Ended :
      Triple (Quiet store q before h) (prepare store q) (λ p. IsPrepared store q before p.0) Ended
  prepare-Ended t k = go (prepare store q t) (prepare-Triple store q before h t k)
    where
      go :
          (r : Result (Staged × Option RecoverySlot) × Transaction)
          → Meets (λ p. IsPrepared store q before p.0) (Quiet store q before h) r
          → Meets (λ p. IsPrepared store q before p.0) Ended r
      go (ok p, u) m = m
      go (raise e, u) m = quiet m

  -- The body as a whole.
  pub body-Triple :
      Triple
        (Quiet store q before h)
        (body store q)
        (λ u. Placed (λ stage file. Noted store q stage file))
        Ended
  unfolding body
  body-Triple = bind-Triple _ _ _ _ _ _ prepare-Ended (λ p. placing-Triple p.0 p.1)
