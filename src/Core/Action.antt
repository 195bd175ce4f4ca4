-- ===== src/Core/Action.antt =====
-- Methods that change an object and may fail: what was written before the failure stays written, so
-- the state comes back beside the error too. `if (auto r = f(); !r) return r;` is a bind.
use mathlib.Core.Path.{◌≡◌, refl}
use collapsar.Core.Status.{Error, Result, ok, err}

abbrev pub Action {ℓ} : Type ℓ → Type ℓ → Type ℓ
Action S A = S → Result A × S

module _ {ℓ} {S A : Type ℓ} where
  abbrev pub done : A → Action S A
  done a s = (ok a, s)

  abbrev pub fail : Error → Action S A
  fail e s = (err e, s)

module _ {ℓ} {S A B : Type ℓ} where
  abbrev pub resume : (A → Action S B) → Result A × S → Result B × S
  resume f (ok a, s) = f a s
  resume f (err e, s) = (err e, s)

  infixl 5 ◌>>=◌ ◌>>◌
  unfoldable pub ◌>>=◌ : Action S A → (A → Action S B) → Action S B
  ◌>>=◌ m f s = resume f (m s)

  unfoldable pub ◌>>◌ : Action S A → Action S B → Action S B
  unfolding ◌>>=◌
  m >> k = m >>= λ _. k

  -- A bind after a successful step goes on from the state that the step left.
  pub bind_ok :
      (m : Action S A) (f : A → Action S B) (s : S) {a : A} {t : S}
      → m s ≡ (ok a, t)
      → (m >>= f) s ≡ f a t
  unfolding ◌>>=◌
  bind_ok m f s e = rw e

  pub seq_ok :
      (m : Action S A) (k : Action S B) (s : S) {a : A} {t : S} → m s ≡ (ok a, t) → (m >> k) s ≡ k t
  unfolding ◌>>◌
  seq_ok m k s e = bind_ok m (λ _. k) s e

  -- A chain that succeeds has a first step that did.
  resume-eq_ok :
      (r : Result A × S) (k : Action S B) {b : B} {t : S}
      → resume (λ _. k) r ≡ (ok b, t)
      → (a : A) × (s : S) × (r ≡ (ok a, s)) × (k s ≡ (ok b, t))
  resume-eq_ok (ok a, s) k h = (a, s, refl, h)
  resume-eq_ok (err e, s) k h = cc

  pub seq-eq_ok :
      (m : Action S A) (k : Action S B) (s : S) {b : B} {t : S}
      → (m >> k) s ≡ (ok b, t)
      → (a : A) × (s' : S) × (m s ≡ (ok a, s')) × (k s' ≡ (ok b, t))
  unfolding ◌>>◌ ◌>>=◌
  seq-eq_ok m k s h = resume-eq_ok (m s) k h
