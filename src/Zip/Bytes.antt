-- ===== src/Zip/Bytes.antt =====
-- Little-endian stores into a buffer: `put16`, `put32` and `put64` of zip_writer.cpp. `&dst[i]` is
-- the offset `i` into the buffer. `v & 0xFF` is `v % 256` and `v >> k` is `v / 2 ^ k`.
use collapsar.Base.{ℕ, zero, suc, ◌+◌, ◌*◌, ◌/◌, ◌%◌, ◌^◌, Bytes, set}

-- `buffer ▷ f` applies one store after another.
infixl 3 ◌▷◌
abbrev pub ◌▷◌ : Bytes → (Bytes → Bytes) → Bytes
b ▷ f = f b

unfoldable pub put16 : ℕ → ℕ → Bytes → Bytes
put16 i v dst = set (set dst i (v % 256)) (i + 1) (v / 2 ^ 8 % 256)

unfoldable pub put32 : ℕ → ℕ → Bytes → Bytes
put32 i v dst =
    set (set (set (set dst i (v % 256)) (i + 1) (v / 2 ^ 8 % 256)) (i + 2) (v / 2 ^ 16 % 256))
      (i + 3) (v / 2 ^ 24 % 256)

-- The loop of `put64`, from index `k` on with `rounds` rounds left.
put64_loop : ℕ → ℕ → ℕ → ℕ → Bytes → Bytes
put64_loop zero k i v dst = dst
put64_loop (suc rounds) k i v dst =
    put64_loop rounds (k + 1) i v (set dst (i + k) (v / 2 ^ (k * 8) % 256))

unfoldable pub put64 : ℕ → ℕ → Bytes → Bytes
unfolding put64_loop
put64 i v dst = put64_loop 8 0 i v dst
