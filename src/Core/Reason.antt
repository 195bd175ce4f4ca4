-- ===== src/Core/Reason.antt =====
-- Results whose error, if there is one, does not have the code Ok.
use collapsar.Base.{◌≡◌, Bool, true, false, if◌then◌else◌}
use collapsar.Core.Status.{Error, Result, ok, err, is_ok}
use collapsar.Core.Action.{Action, resume, ◌>>=◌, ◌>>◌}

pub data HasReason {ℓ} {A : Type ℓ} : Result A → Type ℓ where
  fine : {a : A} → HasReason (ok a)
  because : {e : Error} → is_ok e.code ≡ false → HasReason (err e)

-- The same of what a method leaves.
pub data Ends {ℓ} {S A : Type ℓ} : Result A × S → Type ℓ where
  succeeds : {a : A} {s : S} → Ends (ok a, s)
  fails : {e : Error} {s : S} → is_ok e.code ≡ false → Ends (err e, s)

pub HasReason-code {ℓ} :
    {A : Type ℓ} (r : Result A) → HasReason r → (e : Error) → r ≡ err e → is_ok e.code ≡ false
HasReason-code (ok a) h e is = cc
HasReason-code (err e') (because why) e is = let same : e' ≡ e = cc in cc

module _ {ℓ} {A : Type ℓ} where
  pub if_result :
      (b : Bool) (x y : Result A) → HasReason x → HasReason y → HasReason (if b then x else y)
  if_result true x y h k = h
  if_result false x y h k = k

module _ {ℓ} {S A : Type ℓ} where
  pub Ends-HasReason : (r : Result A × S) → Ends r → HasReason r.0
  Ends-HasReason (ok a, s) h = fine
  Ends-HasReason (err e, s) (fails why) = because why

  pub HasReason-Ends : (r : Result A) (s : S) → HasReason r → Ends (r, s)
  HasReason-Ends (ok a) s h = succeeds
  HasReason-Ends (err e) s (because why) = fails why

  pub if_action : (b : Bool) (x y : Result A × S) → Ends x → Ends y → Ends (if b then x else y)
  if_action true x y h k = h
  if_action false x y h k = k

module _ {ℓ} {S A B : Type ℓ} where
  pub resume-Ends :
      (k : A → Action S B) (r : Result A × S)
      → Ends r
      → ((a : A) (s : S) → Ends (k a s))
      → Ends (resume k r)
  resume-Ends k (ok a, s) h each = each a s
  resume-Ends k (err e, s) (fails why) each = fails why

  pub bind-Ends :
      (m : Action S A) (k : A → Action S B)
      → ((s : S) → Ends (m s))
      → ((a : A) (s : S) → Ends (k a s))
      → (s : S) → Ends ((m >>= k) s)
  unfolding ◌>>=◌
  bind-Ends m k first each s = resume-Ends k (m s) (first s) each

  pub seq-Ends :
      (m : Action S A) (k : Action S B)
      → ((s : S) → Ends (m s))
      → ((s : S) → Ends (k s))
      → (s : S) → Ends ((m >> k) s)
  unfolding ◌>>◌
  seq-Ends m k first then_so = bind-Ends m (λ _. k) first (λ _. then_so)
