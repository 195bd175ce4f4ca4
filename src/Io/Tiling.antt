-- ===== src/Io/Tiling.antt =====
-- The slices of `submit` tile the file.
use native.Mathlib.Nat.{div-add-mod', div-eq_of_lt, mod-lt}
use collapsar.Base.{
  ℕ, zero, suc, ◌+◌, ◌-◌, ◌*◌, ◌/◌, ◌%◌, ◌^◌, ◌≤◌, ◌<◌, ◌≡◌, refl, ap, sym, ◌∙◌, false, Bytes, List,
  [], ◌∷◌, ◌++◌, arith, min, ◌==◌, length, take, drop, length-drop, All,
}
use collapsar.Base.Slices.{drop-nil, take-nil, drop-drop}
use collapsar.Io.AsyncReader.{Slice, slice, slices_from, block_count, submit}

-- The bytes of the slices, one after the other.
abbrev pub pieces : Bytes → List Slice → Bytes
pieces contents [] = []
pieces contents (s ∷ ss) = take s.bytes (drop s.offset contents) ++ pieces contents ss

zero_min : (n : ℕ) → min 0 n ≡ 0
zero_min n = omega arith

min_zero : (n : ℕ) → min n 0 ≡ 0
min_zero n = omega arith

min-suc : (m n : ℕ) → min (suc m) (suc n) ≡ suc (min m n)
min-suc m n = omega arith

take-min : (n : ℕ) (xs : Bytes) → take (min n (length xs)) xs ++ drop n xs ≡ xs
take-min zero xs = rw (zero_min (length xs))
take-min (suc n) [] = rw (min_zero (suc n))
take-min (suc n) (x ∷ xs) = rw (min-suc n (length xs)) (ap (◌∷◌ x) (take-min n xs))

drop_all : (n : ℕ) (xs : Bytes) → length xs ≤ n → drop n xs ≡ []
drop_all zero [] h = refl
drop_all (suc n) [] h = refl
drop_all zero (x ∷ xs) h = absurd (omega arith)
drop_all (suc n) (x ∷ xs) h = drop_all n xs (omega arith)

-- One slice and what follows it.
pieces_step :
    (contents : Bytes) (b offset count idx : ℕ) (rest : List Slice)
    → length contents < 2 ^ 64
    → offset ≡ idx * b
    → offset ≤ length contents
    → pieces contents rest ≡ drop (offset + b) contents
    → pieces contents (slice (length contents) b count idx ∷ rest) ≡ drop offset contents
unfolding slice
pieces_step contents b offset count idx rest small o_is lo ih =
    rw (← o_is, offset_is, bytes_is, ih, ← drop-drop b offset contents)
      (take-min b (drop offset contents))
  where
    offset_is : offset % 2 ^ 64 ≡ offset
    offset_is = omega arith

    bytes_is : (length contents + 2 ^ 64 - offset) % 2 ^ 64 ≡ length (drop offset contents)
    bytes_is = omega (arith, length-drop offset contents)

-- From `idx` on the slices give what is left of the file.
pieces-slices_from :
    (contents : Bytes) (b count rounds idx : ℕ)
    → length contents < 2 ^ 64
    → length contents ≤ (idx + rounds) * b
    → (idx + rounds) * b < length contents + b
    → pieces contents (slices_from (length contents) b count rounds idx) ≡ drop (idx * b) contents
unfolding slices_from
pieces-slices_from contents b count zero idx small hi fit =
    sym (drop_all (idx * b) contents (omega arith))
pieces-slices_from contents b count (suc rounds) idx small hi fit =
    pieces_step contents b (idx * b) count idx
      (slices_from (length contents) b count rounds (idx + 1)) small refl (grind arith)
      (pieces-slices_from contents b count rounds (idx + 1) small (omega arith) (omega arith)
        ∙ ap (λ k. drop k contents) {x = (idx + 1) * b} {y = idx * b + b} (omega arith))

-- `ceil(total / b)` blocks of `b` bytes reach over `total`, and one less does not.
ceil :
    (total b : ℕ)
    → 0 < b
    → (total ≤ (total + b - 1) / b * b) × ((total + b - 1) / b * b < total + b)
ceil total b h =
    let whole = div-add-mod' (total + b - 1) b in
    let part = mod-lt (total + b - 1) h in (omega (arith, whole, part), omega (arith, whole))

block_count_exact :
    (total b : ℕ)
    → 0 < total
    → total + b ≤ 2 ^ 64
    → (total + b - 1) / b < 2 ^ 32
    → block_count total b ≡ (total + b - 1) / b
unfolding block_count
block_count_exact zero b h small few = elim h [ ]
block_count_exact (suc n) b h small few = rw rounded (ground (arith, few))
  where
    rounded : (suc n + b + 2 ^ 64 - 1) % 2 ^ 64 ≡ suc n + b - 1
    rounded = omega arith

-- If the block size is positive and neither the rounding up nor the 32-bit block count overflows,
-- the read tasks of a file cover it from front to back, every byte once.
pub pieces-submit :
    (contents : Bytes) (b : ℕ)
    → 0 < b
    → length contents + b ≤ 2 ^ 64
    → (length contents + b - 1) / b < 2 ^ 32
    → pieces contents (submit (length contents) b) ≡ contents
unfolding submit
pieces-submit [] b h small few = rw (drop-nil (0 * b % 2 ^ 64), take-nil)
pieces-submit (x ∷ xs) b h small few =
    let up = ceil (length (x ∷ xs)) b h in
    rw (block_count_exact (length (x ∷ xs)) b (omega arith) small few) (
      pieces-slices_from (x ∷ xs) b _ ((length (x ∷ xs) + b - 1) / b) 0 (omega arith)
        (omega (arith, up)) (omega (arith, up))
      ∙ ap (λ k. drop k (x ∷ xs)) {x = 0 * b} {y = 0} (omega arith))

-- If the size of a non-empty file and the block size, each below 2^64, add up to more than 2^64,
-- no read task is made for the file.
pub submit_wraps :
    (total b : ℕ)
    → 0 < total
    → total < 2 ^ 64
    → b < 2 ^ 64
    → 2 ^ 64 < total + b
    → submit total b ≡ []
unfolding submit block_count
submit_wraps zero b h small fits wraps = elim h [ ]
submit_wraps (suc n) b h small fits wraps = rw (no_blocks, not_empty)
  where
    wrapped : (suc n + b + 2 ^ 64 - 1) % 2 ^ 64 < b
    wrapped = omega arith

    no_blocks : (suc n + b + 2 ^ 64 - 1) % 2 ^ 64 / b ≡ 0
    no_blocks = div-eq_of_lt wrapped

    not_empty : (suc n == 0) ≡ false
    not_empty = ground arith

-- A slice that lies within a file, and is at most a block long.
abbrev pub IsInside : ℕ → ℕ → Slice → Type 0
IsInside total b s = (s.offset + s.bytes ≤ total) × (s.bytes ≤ b)

slices_from-IsInside :
    (total b count rounds idx : ℕ)
    → total < 2 ^ 64
    → (idx + rounds) * b < total + b
    → All (IsInside total b) (slices_from total b count rounds idx)
unfolding slices_from slice
slices_from-IsInside total b count zero idx small fit = tt
slices_from-IsInside total b count (suc rounds) idx small fit =
    let here : idx * b ≤ total = grind arith in
    (
      (omega (arith, here), omega arith),
      slices_from-IsInside total b count rounds (idx + 1) small (grind arith),
    )

-- No read task reads outside its file, or more than a block, if the block size is positive and
-- neither the rounding up nor the block count overflows.
pub submit-IsInside :
    (total b : ℕ)
    → 0 < b
    → total + b ≤ 2 ^ 64
    → (total + b - 1) / b < 2 ^ 32
    → All (IsInside total b) (submit total b)
unfolding submit slices_from slice block_count
submit-IsInside zero b h small few = ((omega arith, omega arith), tt)
submit-IsInside (suc n) b h small few =
    let up = ceil (suc n) b h in
    rw (block_count_exact (suc n) b (omega arith) small few)
      (slices_from-IsInside (suc n) b _ ((suc n + b - 1) / b) 0 (omega arith) (omega (arith, up)))

positive : (q b n : ℕ) → suc n ≤ q * b → (m : ℕ) × (q ≡ suc m)
positive zero b n h = absurd (omega arith)
positive (suc q) b n h = (q, refl)

block_count_positive :
    (total b : ℕ)
    → 0 < b
    → total + b ≤ 2 ^ 64
    → (total + b - 1) / b < 2 ^ 32
    → (m : ℕ) × (block_count total b ≡ suc m)
unfolding block_count
block_count_positive zero b h small few = (0, refl)
block_count_positive (suc n) b h small few =
    let (m, is) = positive ((suc n + b - 1) / b) b n (ceil (suc n) b h).0 in
    (m, block_count_exact (suc n) b (omega arith) small few ∙ is)

take_at_most : (n : ℕ) (xs : Bytes) → take (min n (length xs)) xs ≡ take n xs
take_at_most zero xs = rw (zero_min (length xs))
take_at_most (suc n) [] = rw (min_zero (suc n))
take_at_most (suc n) (x ∷ xs) = rw (min-suc n (length xs)) (ap (◌∷◌ x) (take_at_most n xs))

first_slice :
    (contents : Bytes) (b count : ℕ)
    → 0 < b
    → length contents + b ≤ 2 ^ 64
    → let s = slice (length contents) b count 0 in
      take s.bytes (drop s.offset contents) ≡ take b contents
unfolding slice
first_slice contents b count h small = rw (at_zero, all_left) (take_at_most b contents)
  where
    at_zero : 0 * b % 2 ^ 64 ≡ 0
    at_zero = omega arith

    all_left : (length contents + 2 ^ 64 - 0) % 2 ^ 64 ≡ length contents
    all_left = omega arith

-- The first task reads the first block.
pub submit-first :
    (contents : Bytes) (b : ℕ)
    → 0 < b
    → length contents + b ≤ 2 ^ 64
    → (length contents + b - 1) / b < 2 ^ 32
    → (s : Slice) × (ss : List Slice) × (submit (length contents) b ≡ s ∷ ss)
      × (take s.bytes (drop s.offset contents) ≡ take b contents)
unfolding submit slices_from
submit-first contents b h small few =
    let count = block_count (length contents) b in
    let (m, is) = block_count_positive (length contents) b h small few in
    (
      slice (length contents) b count 0,
      slices_from (length contents) b count m 1,
      ap (λ rounds. slices_from (length contents) b count rounds 0) is,
      first_slice contents b count h small,
    )
