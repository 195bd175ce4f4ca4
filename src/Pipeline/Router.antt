-- ===== src/Pipeline/Router.antt =====
-- core/src/pipeline/size_router.hpp.
use collapsar.Base.{
  ℕ, ◌≤◌, ◌≡◌, ◌↔◌, ◌⊎◌, refl, inl, inr, Bool, true, false, arith, leb, if◌then◌else◌,
}
use collapsar.Core.Options.{
  Algorithm, auto, cpu_deflate, gpu_deflate, gpu_gdeflate, cpu_zstd, gpu_zstd, JobOptions,
}

pub data Decision : Type 0 where
  cpu gpu : Decision

pub record SizeRouter : Type 0 where
  pub threshold : ℕ
  pub algorithm : Algorithm
  pub gpu_available : Bool

unfoldable pub new_router : JobOptions → Bool → SizeRouter
new_router options gpu_available = record {
  threshold = options.gpu_threshold_bytes;
  algorithm = options.algorithm;
  gpu_available = gpu_available;
}

-- The tests on `algorithm_`, and the gate on the size.
unfoldable pub route_by : Algorithm → ℕ → ℕ → Decision
route_by cpu_deflate threshold size = cpu
route_by gpu_deflate threshold size = gpu
route_by gpu_gdeflate threshold size = gpu
route_by _ threshold size = if leb threshold size then gpu else cpu

unfoldable pub route : SizeRouter → ℕ → Decision
unfolding route_by
route r size = if r.gpu_available then route_by r.algorithm r.threshold size else cpu

-- The algorithms that are always sent to the GPU, and those that the size decides.
abbrev pub IsForced : Algorithm → Type 0
IsForced gpu_deflate = Unit
IsForced gpu_gdeflate = Unit
IsForced _ = ⊥

abbrev pub IsGated : Algorithm → Type 0
IsGated auto = Unit
IsGated cpu_zstd = Unit
IsGated gpu_zstd = Unit
IsGated _ = ⊥

route_by_iff :
    (a : Algorithm) (threshold size : ℕ)
    → (route_by a threshold size ≡ gpu) ↔ (IsForced a ⊎ (IsGated a × (threshold ≤ size)))
unfolding route_by
route_by_iff auto t s = (λ h. inr (tt, ground arith), λ h. ground arith)
route_by_iff cpu_deflate t s = (λ h. cc, λ h. ground arith)
route_by_iff gpu_deflate t s = (λ h. inl tt, λ h. refl)
route_by_iff gpu_gdeflate t s = (λ h. inl tt, λ h. refl)
route_by_iff cpu_zstd t s = (λ h. inr (tt, ground arith), λ h. ground arith)
route_by_iff gpu_zstd t s = (λ h. inr (tt, ground arith), λ h. ground arith)

gate_iff : (b : Bool) (d : Decision) → ((if b then d else cpu) ≡ gpu) ↔ ((b ≡ true) × (d ≡ gpu))
gate_iff true d = (λ h. (refl, h), λ h. h.1)
gate_iff false d = (λ h. cc, λ h. cc)

-- A file goes to the GPU exactly if there is one and the algorithm forces it, or leaves the choice
-- to the size and the file reaches the threshold; both zstd algorithms leave it to the size.
pub route_iff :
    (r : SizeRouter) (size : ℕ)
    → (route r size ≡ gpu) ↔ (
        (r.gpu_available ≡ true)
        × (IsForced r.algorithm ⊎ (IsGated r.algorithm × (r.threshold ≤ size))))
unfolding route
route_iff r size = (
  λ h.
      let both = (gate_iff r.gpu_available (route_by r.algorithm r.threshold size)).0 h in
      (both.0, (route_by_iff r.algorithm r.threshold size).0 both.1),
  λ h.
      (gate_iff r.gpu_available (route_by r.algorithm r.threshold size)).1
        (h.0, (route_by_iff r.algorithm r.threshold size).1 h.1),
)
