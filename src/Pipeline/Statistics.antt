-- ===== src/Pipeline/Statistics.antt =====
-- The totals that the statistics of a job report.
use collapsar.Base.{
  ℕ, ◌+◌, ◌%◌, ◌^◌, ◌<◌, ◌≡◌, refl, ap, sym, ◌∙◌, subst, Bool, true, false, if◌then◌else◌, List, [],
  ◌∷◌, map, arith, length,
}
use collapsar.Core.Status.{Error, Result, ok, err}
use collapsar.Core.Action.{Action, fail, seq-eq_ok}
use collapsar.Io.Disk.{Disk}
use collapsar.Pipeline.Stop.{Stop}
use collapsar.Pipeline.Writer.{Writer}
use collapsar.Core.Blocks.{PreparedFile}
use collapsar.Core.Job.{JobStats}
use collapsar.Pipeline.Router.{SizeRouter, Decision, cpu, gpu, route}
use collapsar.Pipeline.Run.{
  Drain, start_file, complete_file, tally, count_file, after_write, drain_file, wait_for,
  drain_files,
}
use collapsar.Pipeline.Drained.{counted}

abbrev pub sum_of : (PreparedFile → ℕ) → List PreparedFile → ℕ
sum_of f [] = 0
sum_of f (x ∷ xs) = f x + sum_of f xs

abbrev on_gpu : Decision → ℕ → ℕ
on_gpu gpu n = n
on_gpu cpu n = 0

abbrev on_cpu : Decision → ℕ → ℕ
on_cpu gpu n = 0
on_cpu cpu n = n

-- The blocks of a file that count for a device.
abbrev pub gpu_blocks_of : SizeRouter → PreparedFile → ℕ
gpu_blocks_of router f = on_gpu (route router f.entry.size_bytes) (length f.blocks)

abbrev pub cpu_blocks_of : SizeRouter → PreparedFile → ℕ
cpu_blocks_of router f = on_cpu (route router f.entry.size_bytes) (length f.blocks)

-- `s` is the statistics of `files`, each field modulo 2 ^ 64, on top of `base`.
pub record AreStatsOf (router : SizeRouter) (files : List PreparedFile) (base s : JobStats)
    : Type 0 where
  pub files_processed_is : s.files_processed ≡ (base.files_processed + length files) % 2 ^ 64
  pub input_bytes_is :
      s.input_bytes ≡ (base.input_bytes + sum_of (λ f. f.uncompressed) files) % 2 ^ 64
  pub output_bytes_is :
      s.output_bytes ≡ (base.output_bytes + sum_of (λ f. f.compressed) files) % 2 ^ 64
  pub gpu_blocks_is :
      s.gpu_blocks ≡ (base.gpu_blocks + sum_of (gpu_blocks_of router) files) % 2 ^ 64
  pub cpu_blocks_is :
      s.cpu_blocks ≡ (base.cpu_blocks + sum_of (cpu_blocks_of router) files) % 2 ^ 64

-- Every counter is a 64-bit value.
pub record IsCounter (s : JobStats) : Type 0 where
  pub files_fit : s.files_processed < 2 ^ 64
  pub input_fits : s.input_bytes < 2 ^ 64
  pub output_fits : s.output_bytes < 2 ^ 64
  pub gpu_fits : s.gpu_blocks < 2 ^ 64
  pub cpu_fits : s.cpu_blocks < 2 ^ 64

tally-gpu :
    (d : Decision) (n : ℕ) (s : JobStats)
    → s.gpu_blocks < 2 ^ 64
    → (tally d n s).gpu_blocks ≡ (s.gpu_blocks + on_gpu d n) % 2 ^ 64
unfolding tally
tally-gpu gpu n s h = refl
tally-gpu cpu n s h = omega arith

tally-cpu :
    (d : Decision) (n : ℕ) (s : JobStats)
    → s.cpu_blocks < 2 ^ 64
    → (tally d n s).cpu_blocks ≡ (s.cpu_blocks + on_cpu d n) % 2 ^ 64
unfolding tally
tally-cpu gpu n s h = omega arith
tally-cpu cpu n s h = refl

tally_same :
    (d : Decision) (n : ℕ) (s : JobStats)
    → ((tally d n s).files_processed ≡ s.files_processed)
      × ((tally d n s).input_bytes ≡ s.input_bytes)
      × ((tally d n s).output_bytes ≡ s.output_bytes)
unfolding tally
tally_same gpu n s = (refl, refl, refl)
tally_same cpu n s = (refl, refl, refl)

counted-IsCounter-step :
    (router : SizeRouter) (f : PreparedFile) (d : Drain)
    → IsCounter d.stats
    → IsCounter (complete_file f (start_file router f d)).stats
unfolding complete_file start_file count_file
counted-IsCounter-step router f d c =
    let g = tally-gpu (route router f.entry.size_bytes) (length f.blocks) d.stats c.gpu_fits in
    let p = tally-cpu (route router f.entry.size_bytes) (length f.blocks) d.stats c.cpu_fits in
    record {
      files_fit = omega arith;
      input_fits = omega arith;
      output_fits = omega arith;
      gpu_fits = omega (arith, g);
      cpu_fits = omega (arith, p);
    }

AreStatsOf-cons :
    (router : SizeRouter) (f : PreparedFile) (fs : List PreparedFile) (d : Drain) (s : JobStats)
    → IsCounter d.stats
    → AreStatsOf router fs (complete_file f (start_file router f d)).stats s
    → AreStatsOf router (f ∷ fs) d.stats s
unfolding complete_file start_file count_file
AreStatsOf-cons router f fs d s c ih =
    let g = tally-gpu (route router f.entry.size_bytes) (length f.blocks) d.stats c.gpu_fits in
    let p = tally-cpu (route router f.entry.size_bytes) (length f.blocks) d.stats c.cpu_fits in
    let (same_files, same_input, same_output) =
      tally_same (route router f.entry.size_bytes) (length f.blocks) d.stats in
    record {
      files_processed_is = omega (arith, ih.files_processed_is, same_files);
      input_bytes_is = omega (arith, ih.input_bytes_is, same_input);
      output_bytes_is = omega (arith, ih.output_bytes_is, same_output);
      gpu_blocks_is = omega (arith, ih.gpu_blocks_is, g);
      cpu_blocks_is = omega (arith, ih.cpu_blocks_is, p);
    }

AreStatsOf-nil : (router : SizeRouter) (s : JobStats) → IsCounter s → AreStatsOf router [] s s
AreStatsOf-nil router s c = record {
  files_processed_is = omega (arith, c.files_fit);
  input_bytes_is = omega (arith, c.input_fits);
  output_bytes_is = omega (arith, c.output_fits);
  gpu_blocks_is = omega (arith, c.gpu_fits);
  cpu_blocks_is = omega (arith, c.cpu_fits);
}

pub counted-AreStatsOf :
    (router : SizeRouter) (files : List PreparedFile) (d : Drain)
    → IsCounter d.stats
    → AreStatsOf router files d.stats (counted router files d).stats
counted-AreStatsOf router [] d c = AreStatsOf-nil router d.stats c
counted-AreStatsOf router (f ∷ fs) d c = AreStatsOf-cons router f fs d _ c (
    counted-AreStatsOf router fs (complete_file f (start_file router f d))
      (counted-IsCounter-step router f d c))

after_write-stats :
    (f : PreparedFile) (d d' : Drain) (x : Result (Unit {0}) × Writer)
    → after_write f d x ≡ (ok tt, d')
    → d'.stats ≡ (complete_file f d).stats
unfolding complete_file
after_write-stats f d d' (ok tt, w) is = λ i. (sym is i).1.stats
after_write-stats f d d' (err e, w) is = cc

-- One round of the loop that ends well had a file to write, and counted it.
wait_for-stats :
    (disk : Disk) (router : SizeRouter) (task : Result PreparedFile) (d d' : Drain)
    → wait_for disk router task d ≡ (ok tt, d')
    → (f : PreparedFile) × (task ≡ ok f)
      × (d'.stats ≡ (complete_file f (start_file router f d)).stats)
unfolding drain_file
wait_for-stats disk router (ok f) d d' is =
    (f, refl, after_write-stats f (start_file router f d) d' _ is)
wait_for-stats disk router (err e) d d' is = cc

not_cancelled :
    (cancels : Bool) (e : Error) (k : Action Drain (Unit {0})) (d d' : Drain)
    → (if cancels then fail e else k) d ≡ (ok tt, d')
    → k d ≡ (ok tt, d')
not_cancelled true e k d d' is = cc
not_cancelled false e k d d' is = is

-- From counters below 2^64, when the drain loop ends well, for any writer, then every task was a
-- success, and the loop has added to each counter of the statistics exactly the sum over the files
-- of the tasks, modulo 2^64, with the blocks of a file counted for the device of its route.
pub drain_files-AreStatsOf :
    (disk : Disk) (router : SizeRouter) (stop : Stop) (i : ℕ) (tasks : List (Result PreparedFile))
    (d d' : Drain)
    → IsCounter d.stats
    → drain_files disk router stop i tasks d ≡ (ok tt, d')
    → (files : List PreparedFile) × (tasks ≡ map ok files)
      × AreStatsOf router files d.stats d'.stats
unfolding drain_files
drain_files-AreStatsOf disk router stop i [] d d' c is =
    ([], refl, subst (λ s. AreStatsOf router [] d.stats s.1.stats) is (AreStatsOf-nil router _ c))
drain_files-AreStatsOf disk router stop i (task ∷ tasks) d d' c is =
    let go = not_cancelled (stop.writing i) _ _ d d' is in
    let (_, v, one, rest) =
      seq-eq_ok (wait_for disk router task) (drain_files disk router stop (i + 1) tasks) d go in
    let (f, good, stats) = wait_for-stats disk router task d v one in
    let (fs, all, sums) =
      drain_files-AreStatsOf disk router stop (i + 1) tasks v d'
        (subst IsCounter (sym stats) (counted-IsCounter-step router f d c)) rest in
    (
      f ∷ fs,
      ap (λ t. t ∷ tasks) good ∙ ap (◌∷◌ (ok f)) all,
      AreStatsOf-cons router f fs d _ c (subst (λ s. AreStatsOf router fs s d'.stats) stats sums),
    )
