-- ===== src/Common/Exec.antt =====
-- Methods of an object: they return or throw, and what they wrote before a throw stays written.

use mathlib.Core.Path.{subst, ◌≡◌, refl}
use managed_agents.Common.Outcome.{Failure, Result, ok, err}

abbrev pub Exec {ℓ} : Type ℓ → Type ℓ → Type ℓ
Exec S A = S → Result A × S

module _ {ℓ} {S A : Type ℓ} where
  abbrev pub pure : A → Exec S A
  pure a s = (ok a, s)

  abbrev pub throw : Failure → Exec S A
  throw e s = (err e, s)

  abbrev pub lift : Result A → Exec S A
  lift r s = (r, s)

  abbrev pub gets : (S → A) → Exec S A
  gets f s = (ok (f s), s)

module _ {ℓ} {S A B : Type ℓ} where
  abbrev pub continue : Result A → (A → Exec S B) → Exec S B
  continue (ok a) f s = f a s
  continue (err e) f s = (err e, s)

  infixl 5 ◌>>=◌ ◌>>◌
  abbrev pub ◌>>=◌ : Exec S A → (A → Exec S B) → Exec S B
  ◌>>=◌ m f s = let (r, s') = m s in continue r f s'

  abbrev pub ◌>>◌ : Exec S A → Exec S B → Exec S B
  m >> n = m >>= λ _. n

  -- a call that returned went through its first step
  pub continue-eq-ok :
      (result : Result A) (f : A → Exec S B) (s s' : S) (b : B)
      → continue result f s ≡ (ok b, s')
      → (a : A) × (result ≡ ok a) × (f a s ≡ (ok b, s'))
  continue-eq-ok (ok a) f s s' b e = (a, refl, e)
  continue-eq-ok (err failure) f s s' b e = cc

-- What holds of the result and the state of a call wherever it returns.
abbrev pub Ensures {ℓ κ} : {S A : Type ℓ} → (A → S → Type κ) → Result A × S → Type κ
Ensures P (ok a, s) = P a s
Ensures P (err e, s) = Unit

module _ {ℓ κ} {S A : Type ℓ} where
  pub Ensures-ok :
      (P : A → S → Type κ) (call : Result A × S) (a : A) (s : S)
      → Ensures P call
      → call ≡ (ok a, s)
      → P a s
  Ensures-ok P call a s h e = subst (Ensures P) e h

  -- a promise that follows from another
  pub Ensures-map :
      (P Q : A → S → Type κ) (call : Result A × S)
      → ((a : A) (s : S) → Q a s → P a s)
      → Ensures Q call
      → Ensures P call
  Ensures-map P Q (ok a, s) weaker h = weaker a s h
  Ensures-map P Q (err e, s) weaker h = tt

module _ {ℓ κ} {S A B : Type ℓ} (P : B → S → Type κ) where
  pub continue-Ensures :
      (result : Result A) (f : A → Exec S B) (s : S)
      → ((a : A) → result ≡ ok a → Ensures P (f a s))
      → Ensures P (continue result f s)
  continue-Ensures (ok a) f s h = h a refl
  continue-Ensures (err e) f s h = tt

  pub >>=-Ensures :
      (Q : A → S → Type κ) (m : Exec S A) (f : A → Exec S B) (s : S)
      → Ensures Q (m s)
      → ((a : A) (s' : S) → Q a s' → Ensures P (f a s'))
      → Ensures P ((m >>= f) s)
  >>=-Ensures Q m f s h next = go (m s) h
    where
      go : (call : Result A × S) → Ensures Q call → Ensures P (continue call.0 f call.1)
      go (ok a, s') q = next a s' q
      go (err e, s') q = tt
