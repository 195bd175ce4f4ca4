-- ===== src/Io/Sink.antt =====
-- What the two archive writers have in common: a state that bytes go out of, one write after another.
-- `Writes m bytes` says that the action `m` succeeds and appends exactly `bytes`, given room.
use collapsar.Base.{
  ℕ, ◌+◌, ◌≤◌, ◌≡◌, sym, ap, ◌∙◌, subst, Bytes, [], ◌++◌, arith, length, length-append,
}
use collapsar.Core.Status.{ok}
use collapsar.Core.Action.{Action, done, ◌>>◌, seq_ok}

pub record Sink (S : Type 0) : Type 1 where
  -- The state after the bytes have gone out and have been counted.
  pub advance : Bytes → S → S
  -- Room for so many more bytes.
  pub Fits : ℕ → S → Type 0
  pub advance-nil : (s : S) (n : ℕ) → Fits n s → advance [] s ≡ s
  pub advance-advance : (xs ys : Bytes) (s : S) → advance ys (advance xs s) ≡ advance (xs ++ ys) s
  pub Fits-mono : (m n : ℕ) (s : S) → m ≤ n → Fits n s → Fits m s
  pub Fits-advance : (xs : Bytes) (n : ℕ) (s : S) → Fits (length xs + n) s → Fits n (advance xs s)

module _ {S : Type 0} (sink : Sink S) where
  open sink use {advance, Fits, advance-nil, advance-advance, Fits-mono, Fits-advance}

  pub record Writes (m : Action S (Unit {0})) (bytes : Bytes) : Type 0 where
    pub at : (s : S) → Fits (length bytes) s → m s ≡ (ok tt, advance bytes s)

  pub Writes-done : Writes (done tt) []
  Writes-done = record { at = λ s f. ap (λ t. (ok tt, t)) (sym (advance-nil s _ f)) }

  Fits-append :
      (xs ys : Bytes) (s : S) → Fits (length (xs ++ ys)) s → Fits (length xs + length ys) s
  Fits-append xs ys s f = subst (λ n. Fits n s) (length-append xs ys) f

  -- Two such actions, and then whatever follows.
  pub Writes-then :
      (m k rest : Action S (Unit {0})) (xs ys : Bytes) (s : S)
      → Writes m xs
      → Writes k ys
      → Fits (length (xs ++ ys)) s
      → (m >> (k >> rest)) s ≡ rest (advance (xs ++ ys) s)
  Writes-then m k rest xs ys s wm wk f =
      let fits : Fits (length xs + length ys) s = Fits-append xs ys s f in
      seq_ok m (k >> rest) s (wm.at s (Fits-mono _ _ s (omega arith) fits))
      ∙ seq_ok k rest (advance xs s) (wk.at (advance xs s) (Fits-advance xs (length ys) s fits))
      ∙ ap rest (advance-advance xs ys s)

  pub Writes-seq :
      (m k : Action S (Unit {0})) (xs ys : Bytes)
      → Writes m xs
      → Writes k ys
      → Writes (m >> k) (xs ++ ys)
  Writes-seq m k xs ys wm wk = record {
    at = λ s f.
        let fits : Fits (length xs + length ys) s = Fits-append xs ys s f in
        seq_ok m k s (wm.at s (Fits-mono _ _ s (omega arith) fits))
        ∙ wk.at (advance xs s) (Fits-advance xs (length ys) s fits)
        ∙ ap (λ t. (ok tt, t)) (advance-advance xs ys s);
  }
