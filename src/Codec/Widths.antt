-- ===== src/Codec/Widths.antt =====
-- Sizes that the integer types of zlib can hold: their casts keep them.
use native.Mathlib.Nat.{div-add-mod', div-eq_of_lt}
use collapsar.Base.{ℕ, ◌+◌, ◌*◌, ◌%◌, ◌<◌, ◌≤◌, ◌≡◌, refl, sym, ◌∙◌, ap, arith, le→leb}
use collapsar.Base.Int.{pos}
use collapsar.Codec.Zlib.{Zlib}
use collapsar.Codec.Crc32.{to_off}

pub mod_of_lt : (n m : ℕ) → n < m → n % m ≡ n
mod_of_lt n m h =
    let whole = div-add-mod' n m in
    let no_part = div-eq_of_lt h in
    let left : 0 * m + n % m ≡ n % m = omega arith in
    sym left ∙ sym (ap (λ q. q * m + n % m) no_part) ∙ whole

-- A length that `z_off_t` can hold is not changed.
pub to_off_lem : (z : Zlib) (n : ℕ) → n ≤ z.off_max → to_off z n ≡ pos n
to_off_lem z n h =
    rw (mod_of_lt n (2 * z.off_max + 2) (omega (arith, h)), le→leb n z.off_max h) refl
