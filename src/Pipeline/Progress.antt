-- ===== src/Pipeline/Progress.antt =====
-- `ProgressCoalescer` of core/src/pipeline/pipeline.cpp with its clock: each call is given the time, in
-- nanoseconds. `emitted` is the calls of the callback, the newest first.
use collapsar.Base.{
  ℕ, suc, ◌+◌, ◌-◌, ◌*◌, ◌%◌, ◌^◌, ◌≤◌, ◌≡◌, refl, ap, ◌∙◌, inl, inr, Bool, true, Bool-cases, ltb,
  List, [], ◌∷◌, if◌then◌else◌, arith,
}
use collapsar.Core.Blocks.{FilePath}
use collapsar.Core.Job.{ProgressEvent, no_progress}
use collapsar.Pipeline.Run.{on_file_started, on_file_completed}

pub record Coalescer : Type 0 where
  pub has_callback : Bool
  pub snapshot : ProgressEvent
  pub last_emit : ℕ
  pub emitted : List (ℕ × ProgressEvent)

-- 50 ms.
abbrev pub interval : ℕ
interval = 50 * 1000 * 1000

unfoldable pub new_coalescer : Bool → ℕ → ℕ → Coalescer
new_coalescer has_callback total_files total_bytes = record {
  has_callback = has_callback;
  snapshot = record no_progress { total_files = total_files; total_bytes = total_bytes };
  last_emit = 0;
  emitted = [];
}

unfoldable pub flush : ℕ → Coalescer → Coalescer
flush now c = if c.has_callback then record c { emitted = (now, c.snapshot) ∷ c.emitted } else c

unfoldable pub maybe_emit : ℕ → Coalescer → Coalescer
unfolding flush
maybe_emit now c =
    if ltb (now - c.last_emit) interval then c else flush now (record c { last_emit = now })

-- What the drain loop calls.
pub data Call : Type 0 where
  file_started : FilePath → Call
  file_completed : ℕ → ℕ → ℕ → Call

unfoldable pub call : Call → Coalescer → Coalescer
unfolding maybe_emit on_file_started on_file_completed
call (file_started current) c = record c { snapshot = on_file_started current c.snapshot }
call (file_completed in_bytes out_bytes now) c =
    maybe_emit now (record c { snapshot = on_file_completed in_bytes out_bytes c.snapshot })

unfoldable pub run_calls : List Call → Coalescer → Coalescer
unfolding call
run_calls [] c = c
run_calls (x ∷ calls) c = run_calls calls (call x c)

-- Each event at least the interval behind the one before it, and the newest at `last`.
abbrev pub AreSpaced : ℕ → List (ℕ × ProgressEvent) → Type 0
AreSpaced last [] = Unit
AreSpaced last ((t, e) ∷ []) = t ≡ last
AreSpaced last ((t, e) ∷ (t', e') ∷ events) =
    (t ≡ last) × (t' + interval ≤ t) × AreSpaced t' ((t', e') ∷ events)

abbrev pub completed : List Call → ℕ
completed [] = 0
completed (file_started current ∷ calls) = completed calls
completed (file_completed in_bytes out_bytes now ∷ calls) = suc (completed calls)

AreSpaced-cons :
    (last now : ℕ) (e : ProgressEvent) (events : List (ℕ × ProgressEvent))
    → last + interval ≤ now
    → AreSpaced last events
    → AreSpaced now ((now, e) ∷ events)
AreSpaced-cons last now e [] later spaced = refl
AreSpaced-cons last now e ((t, e') ∷ []) later is = (refl, omega (arith, is, later), refl)
AreSpaced-cons last now e ((t, e') ∷ (t', e'') ∷ events) later (is, apart, spaced) =
    (refl, omega (arith, is, later), (refl, apart, spaced))

-- What every call keeps.
abbrev IsPaced : Coalescer → Type 0
IsPaced c = AreSpaced c.last_emit c.emitted × (c.has_callback ≡ true)

maybe_emit-IsPaced : (now : ℕ) (c : Coalescer) → IsPaced c → IsPaced (maybe_emit now c)
unfolding maybe_emit flush
maybe_emit-IsPaced now c (spaced, calls) = elim (Bool-cases (ltb (now - c.last_emit) interval)) [
  | inl early ↦ rw early (spaced, calls)
  | inr due ↦
      let later : c.last_emit + interval ≤ now = ground (arith, due) in
      rw (due, calls) (AreSpaced-cons c.last_emit now c.snapshot c.emitted later spaced, refl)
]

call-IsPaced : (x : Call) (c : Coalescer) → IsPaced c → IsPaced (call x c)
unfolding call
call-IsPaced (file_started current) c paced = paced
call-IsPaced (file_completed in_bytes out_bytes now) c paced = maybe_emit-IsPaced now _ paced

pub run_calls-IsPaced :
    (calls : List Call) (c : Coalescer) → IsPaced c → IsPaced (run_calls calls c)
unfolding run_calls
run_calls-IsPaced [] c paced = paced
run_calls-IsPaced (x ∷ calls) c paced = run_calls-IsPaced calls (call x c) (call-IsPaced x c paced)

pub maybe_emit_snapshot : (now : ℕ) (c : Coalescer) → (maybe_emit now c).snapshot ≡ c.snapshot
unfolding maybe_emit flush
maybe_emit_snapshot now c = elim (Bool-cases (ltb (now - c.last_emit) interval)) [
  | inl early ↦ rw early refl
  | inr due ↦ elim (Bool-cases c.has_callback) [
    | inl calls ↦ rw (due, calls) refl
    | inr none ↦ rw (due, none) refl
  ]
]

run_calls-completed :
    (calls : List Call) (c : Coalescer) (n : ℕ)
    → c.snapshot.processed_files ≡ n % 2 ^ 64
    → (run_calls calls c).snapshot.processed_files ≡ (n + completed calls) % 2 ^ 64
unfolding run_calls call on_file_started on_file_completed
run_calls-completed [] c n is = is ∙ omega arith
run_calls-completed (file_started current ∷ calls) c n is = run_calls-completed calls _ n is
run_calls-completed (file_completed in_bytes out_bytes now ∷ calls) c n is =
    let next : (c.snapshot.processed_files + 1) % 2 ^ 64 ≡ (n + 1) % 2 ^ 64 = omega (arith, is) in
    run_calls-completed calls _ (n + 1) (
      ap (λ s. s.processed_files)
        (maybe_emit_snapshot now
          (record c { snapshot = on_file_completed in_bytes out_bytes c.snapshot }))
      ∙ next)
    ∙ omega arith

-- After any calls from the drain loop, a coalescer with a callback has emitted events that are
-- each at least 50 ms behind the one before, the newest at the time it remembers; a flush emits
-- one more, with a snapshot that counts every completed file, modulo 2^64.
pub run_calls-flush :
    (calls : List Call) (total_files total_bytes now : ℕ)
    → let c = run_calls calls (new_coalescer true total_files total_bytes) in
      AreSpaced c.last_emit c.emitted
      × ((flush now c).emitted ≡ (now, c.snapshot) ∷ c.emitted)
      × (c.snapshot.processed_files ≡ completed calls % 2 ^ 64)
unfolding new_coalescer flush
run_calls-flush calls total_files total_bytes now =
    let (spaced, called) =
      run_calls-IsPaced calls (new_coalescer true total_files total_bytes) (tt, refl) in
    (
      spaced,
      rw called refl,
      run_calls-completed calls (new_coalescer true total_files total_bytes) 0 (omega arith)
          ∙ omega arith,
    )
