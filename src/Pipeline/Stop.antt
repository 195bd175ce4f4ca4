-- ===== src/Pipeline/Stop.antt =====
-- What `stop.stop_requested()` answers at each place that asks: the schedule of a cancellation.
use collapsar.Base.{ℕ, Bool}

pub record Stop : Type 0 where
  -- Before a file is submitted.
  pub submitting : ℕ → Bool
  -- In the task that reads a block of a file.
  pub reading : ℕ → ℕ → Bool
  -- Before a block of a file is taken from its future.
  pub draining : ℕ → ℕ → Bool
  -- Before a file is taken from its future and written.
  pub writing : ℕ → Bool
