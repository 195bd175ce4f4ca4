-- ===== src/Util/BoundedQueue.antt =====
-- `BoundedQueue` of core/src/util/bounded_queue.hpp. A method holds the lock while it changes the
-- queue, so each is one step; `none` is a call that waits on its condition variable.
use collapsar.Base.{
  ℕ, Bool, true, false, ◌||◌, Option, none, some, List, [], ◌∷◌, ◌++◌, ltb, if◌then◌else◌, length,
}

pub record Queue {ℓ} (A : Type ℓ) : Type ℓ where
  pub items : List A
  pub capacity : ℕ
  pub is_closed : Bool

module _ {ℓ} {A : Type ℓ} where
  unfoldable pub new_queue : ℕ → Queue A
  new_queue capacity = record { items = []; capacity = capacity; is_closed = false }

  unfoldable pub push : Queue A → A → Option (Bool × Queue A)
  push q value =
      if q.is_closed || ltb (length q.items) q.capacity
      then (if q.is_closed
          then some (false, q)
          else some (true, record q { items = q.items ++ value ∷ [] }))
      else none

  abbrev take_front : List A → Queue A → Option A × Queue A
  take_front [] q = (none, q)
  take_front (x ∷ xs) q = (some x, record q { items = xs })

  abbrev pub is_empty : List A → Bool
  is_empty [] = true
  is_empty (x ∷ xs) = false

  -- Waits while the queue is open and empty.
  unfoldable pub pop : Queue A → Option (Option A × Queue A)
  pop q =
      if q.is_closed
      then some (take_front q.items q)
      else (if is_empty q.items then none else some (take_front q.items q))

  unfoldable pub try_pop : Queue A → Option A × Queue A
  try_pop q = take_front q.items q

  unfoldable pub close : Queue A → Queue A
  close q = record q { is_closed = true }
