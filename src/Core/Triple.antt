-- ===== src/Core/Triple.antt =====
-- What holds after a method that may fail: one statement for its success, one for its failure.
use collapsar.Core.Status.{Result, ok, err}
use collapsar.Core.Action.{Action, resume, ◌>>=◌, ◌>>◌}

module _ {ℓ} {S A : Type ℓ} where
  abbrev pub After : (A → S → Type ℓ) → (S → Type ℓ) → Result A × S → Type ℓ
  After Q R (ok a, s) = Q a s
  After Q R (err e, s) = R s

pub record Triple {ℓ} {S A : Type ℓ} (P : S → Type ℓ) (m : Action S A) (Q : A → S → Type ℓ)
    (R : S → Type ℓ) : Type ℓ where
  pub holds : (s : S) → P s → After Q R (m s)

module _ {ℓ} {S A B : Type ℓ} where
  resume-After :
      (Q : A → S → Type ℓ) (Q' : B → S → Type ℓ) (R : S → Type ℓ) (k : A → Action S B)
      (r : Result A × S)
      → After Q R r
      → ((a : A) → Triple (Q a) (k a) Q' R)
      → After Q' R (resume k r)
  resume-After Q Q' R k (ok a, s) h each = (each a).holds s h
  resume-After Q Q' R k (err e, s) h each = h

  pub bind-Triple :
      {P : S → Type ℓ} {Q : A → S → Type ℓ} {Q' : B → S → Type ℓ} {R : S → Type ℓ} {m : Action S A}
      {k : A → Action S B}
      → Triple P m Q R
      → ((a : A) → Triple (Q a) (k a) Q' R)
      → Triple P (m >>= k) Q' R
  unfolding ◌>>=◌
  bind-Triple {P} {Q} {Q'} {R} {m} {k} first each = record {
    holds = λ s p. resume-After Q Q' R k (m s) (first.holds s p) each;
  }

  pub seq-Triple :
      {P Q : S → Type ℓ} {Q' : B → S → Type ℓ} {R : S → Type ℓ} {m : Action S A} {k : Action S B}
      → Triple P m (λ _. Q) R
      → Triple Q k Q' R
      → Triple P (m >> k) Q' R
  unfolding ◌>>◌
  seq-Triple first then_so = bind-Triple first (λ _. then_so)

  -- The same for one state.
  resume-After_here :
      (Q : A → S → Type ℓ) (Q' : B → S → Type ℓ) (R : S → Type ℓ) (k : A → Action S B)
      (r : Result A × S)
      → After Q R r
      → ((a : A) (s : S) → Q a s → After Q' R (k a s))
      → After Q' R (resume k r)
  resume-After_here Q Q' R k (ok a, s) h each = each a s h
  resume-After_here Q Q' R k (err e, s) h each = h

  pub bind-After :
      (Q : A → S → Type ℓ) (Q' : B → S → Type ℓ) (R : S → Type ℓ) (m : Action S A)
      (k : A → Action S B) (s : S)
      → After Q R (m s)
      → ((a : A) (t : S) → Q a t → After Q' R (k a t))
      → After Q' R ((m >>= k) s)
  unfolding ◌>>=◌
  bind-After Q Q' R m k s first each = resume-After_here Q Q' R k (m s) first each
