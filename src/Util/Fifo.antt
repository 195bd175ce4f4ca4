-- ===== src/Util/Fifo.antt =====
-- All interleavings of the calls of producers and consumers on one queue.
use collapsar.Base.{
  ℕ, ◌≤◌, ◌≡◌, refl, ap, sym, ◌∙◌, Bool, true, false, Option, none, some, List, [], ◌∷◌, ◌++◌,
  arith, subst, Bool-cases, inl, inr, ltb, length, length-append, append_assoc,
}
use collapsar.Util.BoundedQueue.{Queue, new_queue, push, pop, try_pop, close}

module _ {ℓ} {A : Type ℓ} where
  -- `Run q ins outs`: some sequence of calls leads from the new queue to `q`; `ins` are the values that
  -- were accepted and `outs` those that were handed out, in order.
  pub data Run : Queue A → List A → List A → Type ℓ where
    started : (capacity : ℕ) → Run (new_queue capacity) [] []
    pushed :
        {q q' : Queue A} {ins outs : List A} (x : A)
        → Run q ins outs
        → push q x ≡ some (true, q')
        → Run q' (ins ++ x ∷ []) outs
    refused :
        {q q' : Queue A} {ins outs : List A} (x : A)
        → Run q ins outs
        → push q x ≡ some (false, q')
        → Run q' ins outs
    popped :
        {q q' : Queue A} {ins outs : List A} (x : A)
        → Run q ins outs
        → pop q ≡ some (some x, q')
        → Run q' ins (outs ++ x ∷ [])
    drained :
        {q q' : Queue A} {ins outs : List A}
        → Run q ins outs
        → pop q ≡ some (none, q')
        → Run q' ins outs
    tried :
        {q q' : Queue A} {ins outs : List A} (x : A)
        → Run q ins outs
        → try_pop q ≡ (some x, q')
        → Run q' ins (outs ++ x ∷ [])
    tried_empty :
        {q q' : Queue A} {ins outs : List A}
        → Run q ins outs
        → try_pop q ≡ (none, q')
        → Run q' ins outs
    closed : {q : Queue A} {ins outs : List A} → Run q ins outs → Run (close q) ins outs

  -- What every step keeps.
  abbrev Keeps : Queue A → List A → List A → Type ℓ
  Keeps q ins outs = (ins ≡ outs ++ q.items) × (length q.items ≤ q.capacity)

  abbrev queue_of : List A → ℕ → Bool → Queue A
  queue_of items capacity is_closed = record {
    items = items;
    capacity = capacity;
    is_closed = is_closed;
  }

  -- What each result of a call has to keep.
  abbrev AfterPush : List A → List A → A → Option (Bool × Queue A) → Type ℓ
  AfterPush ins outs x none = Unit
  AfterPush ins outs x (some (true, q)) = Keeps q (ins ++ x ∷ []) outs
  AfterPush ins outs x (some (false, q)) = Keeps q ins outs

  abbrev AfterTry : List A → List A → Option A × Queue A → Type ℓ
  AfterTry ins outs (none, q) = Keeps q ins outs
  AfterTry ins outs (some x, q) = Keeps q ins (outs ++ x ∷ [])

  abbrev AfterPop : List A → List A → Option (Option A × Queue A) → Type ℓ
  AfterPop ins outs none = Unit
  AfterPop ins outs (some r) = AfterTry ins outs r

  push-AfterPush :
      (items : List A) (capacity : ℕ) (is_closed : Bool) (ins outs : List A) (x : A)
      → Keeps (queue_of items capacity is_closed) ins outs
      → AfterPush ins outs x (push (queue_of items capacity is_closed) x)
  unfolding push
  push-AfterPush items capacity true ins outs x k = k
  push-AfterPush items capacity false ins outs x k =
      elim (Bool-cases (ltb (length items) capacity)) [
        | inl room ↦ rw room (
          ap (λ all. all ++ x ∷ []) (k.0) ∙ append_assoc outs items (x ∷ []),
          ground (arith, length-append items (x ∷ []), room),
        )
        | inr full ↦ rw full tt
      ]

  try_pop-AfterTry :
      (items : List A) (capacity : ℕ) (is_closed : Bool) (ins outs : List A)
      → Keeps (queue_of items capacity is_closed) ins outs
      → AfterTry ins outs (try_pop (queue_of items capacity is_closed))
  unfolding try_pop
  try_pop-AfterTry [] capacity is_closed ins outs k = k
  try_pop-AfterTry (x ∷ xs) capacity is_closed ins outs k =
      (k.0 ∙ sym (append_assoc outs (x ∷ []) xs), omega (arith, k.1))

  pop-AfterPop :
      (items : List A) (capacity : ℕ) (is_closed : Bool) (ins outs : List A)
      → Keeps (queue_of items capacity is_closed) ins outs
      → AfterPop ins outs (pop (queue_of items capacity is_closed))
  unfolding pop try_pop
  pop-AfterPop items capacity true ins outs k = try_pop-AfterTry items capacity true ins outs k
  pop-AfterPop [] capacity false ins outs k = tt
  pop-AfterPop (x ∷ xs) capacity false ins outs k =
      try_pop-AfterTry (x ∷ xs) capacity false ins outs k

  -- In every interleaving of calls on a bounded queue, what was accepted is what was handed out,
  -- in the same order, and behind it what the queue holds, which is never more than its capacity.
  pub Run-fifo :
      (q : Queue A) (ins outs : List A)
      → Run q ins outs
      → (ins ≡ outs ++ q.items) × (length q.items ≤ q.capacity)
  unfolding new_queue close
  Run-fifo q ins outs (started capacity) = (refl, omega arith)
  Run-fifo q ins outs (pushed {q = p} {ins = before} x run h) =
      subst (AfterPush before outs x) h
        (push-AfterPush p.items p.capacity p.is_closed before outs x (Run-fifo p before outs run))
  Run-fifo q ins outs (refused {q = p} x run h) =
      subst (AfterPush ins outs x) h
        (push-AfterPush p.items p.capacity p.is_closed ins outs x (Run-fifo p ins outs run))
  Run-fifo q ins outs (popped {q = p} {outs = before} x run h) =
      subst (AfterPop ins before) h
        (pop-AfterPop p.items p.capacity p.is_closed ins before (Run-fifo p ins before run))
  Run-fifo q ins outs (drained {q = p} run h) =
      subst (AfterPop ins outs) h
        (pop-AfterPop p.items p.capacity p.is_closed ins outs (Run-fifo p ins outs run))
  Run-fifo q ins outs (tried {q = p} {outs = before} x run h) =
      subst (AfterTry ins before) h
        (try_pop-AfterTry p.items p.capacity p.is_closed ins before (Run-fifo p ins before run))
  Run-fifo q ins outs (tried_empty {q = p} run h) =
      subst (AfterTry ins outs) h
        (try_pop-AfterTry p.items p.capacity p.is_closed ins outs (Run-fifo p ins outs run))
  Run-fifo q ins outs (closed {q = p} run) = Run-fifo p ins outs run
