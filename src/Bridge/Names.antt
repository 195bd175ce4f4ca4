-- ===== src/Bridge/Names.antt =====
-- The capabilities of bridge/src/c_bridge.cpp, with the buffer of device names.
use collapsar.Base.{
  ℕ, zero, suc, ◌+◌, ◌<◌, ◌≡◌, refl, ap, sym, ◌∙◌, Bool, true, Option, none, some, Bytes, List, [],
  ◌∷◌, ◌++◌, length, length-append, All, arith, if◌then◌else◌,
}
use collapsar.Core.Capabilities.{
  Capabilities, CudaRuntime, probe_capabilities, device_names, with_devices,
}

-- `collapsar_capabilities_t`; `none` is `NULL`.
pub record CCapabilities : Type 0 where
  pub has_cuda : ℕ
  pub cuda_device_count : ℕ
  pub cuda_device_names : Option Bytes
  pub cuda_device_names_size : ℕ

abbrev pub names_size : List Bytes → ℕ
names_size [] = 0
names_size (n ∷ ns) = length n + 1 + names_size ns

-- What the loop leaves in the buffer: each name and a NUL behind it.
abbrev pub names_buffer : List Bytes → Bytes
names_buffer [] = []
names_buffer (n ∷ ns) = n ++ 0 ∷ names_buffer ns

abbrev without_names : Capabilities → CCapabilities
without_names caps = record {
  has_cuda = if caps.has_cuda then 1 else 0;
  cuda_device_count = caps.cuda_device_count;
  cuda_device_names = none;
  cuda_device_names_size = 0;
}

abbrev pub with_names : (ℕ → Bool) → Capabilities → List Bytes → CCapabilities
with_names malloc caps [] = without_names caps
with_names malloc caps (n ∷ ns) =
    if malloc (names_size (n ∷ ns))
    then record (without_names caps) {
      cuda_device_names = some (names_buffer (n ∷ ns));
      cuda_device_names_size = names_size (n ∷ ns);
    }
    else without_names caps

-- `collapsar_probe_capabilities`, for an `out` that is not null.
unfoldable pub c_probe_capabilities : (ℕ → Bool) → CudaRuntime → CCapabilities
unfolding probe_capabilities
c_probe_capabilities malloc cuda =
    let caps = probe_capabilities cuda in with_names malloc caps caps.cuda_device_names

unfoldable pub c_capabilities_free : CCapabilities → CCapabilities
c_capabilities_free caps = record caps { cuda_device_names = none; cuda_device_names_size = 0 }

-- A caller that reads the strings of a buffer, as many as it is told.
abbrev behind : ℕ → Option (Bytes × Bytes) → Option (Bytes × Bytes)
behind c none = none
behind c (some (s, rest)) = some (c ∷ s, rest)

unfoldable pub read_cstring : Bytes → Option (Bytes × Bytes)
read_cstring [] = none
read_cstring (zero ∷ cs) = some ([], cs)
read_cstring (suc c ∷ cs) = behind (suc c) (read_cstring cs)

abbrev cons_name : Bytes → Option (List Bytes × Bytes) → Option (List Bytes × Bytes)
cons_name n none = none
cons_name n (some (ns, rest)) = some (n ∷ ns, rest)

unfoldable pub read_names : ℕ → Bytes → Option (List Bytes × Bytes)
unfolding read_cstring
read_names zero buffer = some ([], buffer)
read_names (suc n) buffer = elim (read_cstring buffer) [
  | none ↦ none
  | some (name, rest) ↦ cons_name name (read_names n rest)
]

abbrev pub HasNoNul : Bytes → Type 0
HasNoNul = All (λ c. 0 < c)

read_cstring_lem : (s rest : Bytes) → HasNoNul s → read_cstring (s ++ 0 ∷ rest) ≡ some (s, rest)
unfolding read_cstring
read_cstring_lem [] rest plain = refl
read_cstring_lem (zero ∷ cs) rest (positive, plain) = elim positive [ ]
read_cstring_lem (suc c ∷ cs) rest (positive, plain) =
    ap (behind (suc c)) (read_cstring_lem cs rest plain)

read_names_lem :
    (names : List Bytes)
    → All HasNoNul names
    → read_names (length names) (names_buffer names) ≡ some (names, [])
unfolding read_names
read_names_lem [] plain = refl
read_names_lem (n ∷ ns) (first, plain) =
    rw (read_names, read_cstring_lem n (names_buffer ns) first)
      (ap (cons_name n) (read_names_lem ns plain))

length-names_buffer : (names : List Bytes) → length (names_buffer names) ≡ names_size names
length-names_buffer [] = refl
length-names_buffer (n ∷ ns) =
    omega (arith, length-append n (0 ∷ names_buffer ns), length-names_buffer ns)

length-device_names : (cuda : CudaRuntime) (i n : ℕ) → length (device_names cuda i n) ≡ n
unfolding device_names
length-device_names cuda i zero = refl
length-device_names cuda i (suc n) = ap suc (length-device_names cuda (i + 1) n)

-- With a CUDA build, a device, memory for the buffer and names without NUL, the C interface
-- reports CUDA, the size of its buffer is the one it reports, and a caller that reads as many
-- strings from it as there are devices gets the names in order and nothing is left over.
pub read_names-c_probe_capabilities :
    (malloc : ℕ → Bool) (cuda : CudaRuntime) (n : ℕ)
    → cuda.built_with_cuda ≡ true
    → cuda.get_device_count ≡ some (suc n)
    → malloc (names_size (device_names cuda 0 (suc n))) ≡ true
    → All HasNoNul (device_names cuda 0 (suc n))
    → let caps = c_probe_capabilities malloc cuda in
      (caps.has_cuda ≡ 1)
      × ((buffer : Bytes) × (caps.cuda_device_names ≡ some buffer)
          × (length buffer ≡ caps.cuda_device_names_size)
          × (read_names caps.cuda_device_count buffer ≡ some (device_names cuda 0 (suc n), [])))
unfolding c_probe_capabilities probe_capabilities with_devices device_names
read_names-c_probe_capabilities malloc cuda n built count room plain =
    let names = device_names cuda 0 (suc n) in
    let counted : length names ≡ suc n = length-device_names cuda 0 (suc n) in
    rw (built, count, room)
      (
        refl,
        (
          names_buffer names,
          refl,
          length-names_buffer names,
          ap (λ k. read_names k (names_buffer names)) (sym counted) ∙ read_names_lem names plain,
        ),
      )
