-- ===== src/Storage/Action/Laws.antt =====
-- What an action that raises or returns keeps of its state, and how a chain of actions returned.
use password_bonobo.Prelude.{◌≡◌, refl, ap, ◌∙◌, Bool, true, false}
use password_bonobo.Errors.{Error, Result, ok, raise, raise-neq-ok}
use password_bonobo.Storage.Action.{Action, continue, ◌>>=◌, ◌>>◌, fail_if, handled, attempt}

module _ {S A B : Type 0} where
  -- A chain that returned has a first part that returned.
  pub first_action :
      (m : Action S A) (next : A → Action S B) (s t : S) (b : B)
      → (m >>= next) s ≡ (ok b, t)
      → (a : A) × (u : S) × (m s ≡ (ok a, u)) × (next a u ≡ (ok b, t))
  unfolding ◌>>=◌
  first_action m next s t b h = go (m s) refl h
    where
      go :
          (r : Result A × S)
          → m s ≡ r
          → continue next r ≡ (ok b, t)
          → (a : A) × (u : S) × (m s ≡ (ok a, u)) × (next a u ≡ (ok b, t))
      go (ok a, u) e h = (a, u, e, h)
      go (raise x, u) e h = absurd (raise-neq-ok (ap (λ r. r.0) h))

module _ {S B : Type 0} where
  pub passed_action :
      (test : Bool) (e : Error) (next : Action S B) (s t : S) (b : B)
      → (fail_if test e >> next) s ≡ (ok b, t)
      → (test ≡ false) × (next s ≡ (ok b, t))
  unfolding ◌>>=◌
  passed_action true e next s t b h = absurd (raise-neq-ok (ap (λ r. r.0) h))
  passed_action false e next s t b h = (refl, h)

-- An action keeps what a view of the state sees.
abbrev pub KeepsView : {S V A : Type 0} → (S → V) → Action S A → Type 0
KeepsView {S = S} view m = (s : S) → view (m s).1 ≡ view s

module _ {S V A B : Type 0} (view : S → V) where
  pub bind-KeepsView :
      (m : Action S A) (next : A → Action S B)
      → KeepsView view m
      → ((a : A) → KeepsView view (next a))
      → KeepsView view (m >>= next)
  unfolding ◌>>=◌
  bind-KeepsView m next h k s = go (m s) (h s)
    where
      go : (r : Result A × S) → view r.1 ≡ view s → view (continue next r).1 ≡ view s
      go (ok a, u) e = k a u ∙ e
      go (raise x, u) e = e

module _ {S V A : Type 0} (view : S → V) where
  pub attempt-KeepsView :
      (m : Action S A) (handler : Error → Action S A)
      → KeepsView view m
      → ((e : Error) → KeepsView view (handler e))
      → KeepsView view (attempt m handler)
  unfolding attempt
  attempt-KeepsView m handler h k s = go (m s) (h s)
    where
      go : (r : Result A × S) → view r.1 ≡ view s → view (handled handler r).1 ≡ view s
      go (ok a, u) e = e
      go (raise x, u) e = k x u ∙ e

module _ {S V : Type 0} (view : S → V) where
  pub fail_if-KeepsView : (b : Bool) (e : Error) → KeepsView view (fail_if b e)
  fail_if-KeepsView true e s = refl
  fail_if-KeepsView false e s = refl

-- What holds of the result and of the state that is reached, or of the state where it raised.
abbrev pub Meets : {S A : Type 0} → (A → S → Type 0) → (S → Type 0) → Result A × S → Type 0
Meets R Q (ok a, s) = R a s
Meets R Q (raise e, s) = Q s

abbrev pub Triple :
    {S A : Type 0} → (S → Type 0) → Action S A → (A → S → Type 0) → (S → Type 0) → Type 0
Triple {S = S} P m R Q = (s : S) → P s → Meets R Q (m s)

module _ {S A B : Type 0} where
  pub bind-Triple :
      (P : S → Type 0) (m : Action S A) (next : A → Action S B) (R : A → S → Type 0)
      (T : B → S → Type 0) (Q : S → Type 0)
      → Triple P m R Q
      → ((a : A) → Triple (R a) (next a) T Q)
      → Triple P (m >>= next) T Q
  unfolding ◌>>=◌
  bind-Triple P m next R T Q h k s p = go (m s) (h s p)
    where
      go : (r : Result A × S) → Meets R Q r → Meets T Q (continue next r)
      go (ok a, u) e = k a u e
      go (raise x, u) e = e

module _ {S A : Type 0} where
  pub attempt-Triple :
      (P : S → Type 0) (m : Action S A) (handler : Error → Action S A) (R : A → S → Type 0)
      (Q E : S → Type 0)
      → Triple P m R Q
      → ((e : Error) → Triple Q (handler e) R E)
      → Triple P (attempt m handler) R E
  unfolding attempt
  attempt-Triple P m handler R Q E h k s p = go (m s) (h s p)
    where
      go : (r : Result A × S) → Meets R Q r → Meets R E (handled handler r)
      go (ok a, u) e = e
      go (raise x, u) e = k x u e

module _ {S : Type 0} where
  pub fail_if-Triple :
      (P Q : S → Type 0) (b : Bool) (e : Error)
      → ((s : S) → P s → Q s)
      → Triple P (fail_if b e) (λ u s. (b ≡ false) × P s) Q
  fail_if-Triple P Q true e h s p = h s p
  fail_if-Triple P Q false e h s p = (refl, p)
