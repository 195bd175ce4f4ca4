-- ===== src/Core/Try.antt =====
-- `if (!r) return std::move(r).error();` is a bind of `Result`.
use collapsar.Core.Status.{Result, ok, err}

module _ {ℓ κ} {A : Type ℓ} {B : Type κ} where
  infixl 5 ◌>>=◌
  abbrev pub ◌>>=◌ : Result A → (A → Result B) → Result B
  ◌>>=◌ (ok value) next = next value
  ◌>>=◌ (err reason) next = err reason
