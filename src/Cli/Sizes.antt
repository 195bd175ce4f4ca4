-- ===== src/Cli/Sizes.antt =====
-- `parse_size`, with `std::from_chars` for a 64-bit decimal number.
use collapsar.Base.{
  ℕ, ◌+◌, ◌-◌, ◌*◌, ◌%◌, ◌^◌, ◌&&◌, ◌||◌, Bool, Option, none, some, Bytes, [], ◌∷◌, leb, ltb, ◌==◌,
  if◌then◌else◌,
}

abbrev pub is_digit : ℕ → Bool
is_digit c = leb b'0' c && leb c b'9'

-- The value of the leading digits, on top of `acc`, and what follows them.
unfoldable pub read_digits : ℕ → Bytes → ℕ × Bytes
read_digits acc [] = (acc, [])
read_digits acc (c ∷ cs) =
    let rest = read_digits (acc * 10 + (c - b'0')) cs in if is_digit c then rest else (acc, c ∷ cs)

abbrev pub in_range : ℕ × Bytes → Option (ℕ × Bytes)
in_range (value, rest) = if ltb value (2 ^ 64) then some (value, rest) else none

-- `none` is an error: no digit, or a value out of range.
unfoldable pub from_chars : Bytes → Option (ℕ × Bytes)
unfolding read_digits
from_chars [] = none
from_chars (c ∷ cs) = if is_digit c then in_range (read_digits 0 (c ∷ cs)) else none

-- The factor that a last character stands for, if it is a unit.
abbrev pub unit_of : ℕ → Option ℕ
unit_of c =
    if c == b'K' || c == b'k'
    then some (2 ^ 10)
    else if c == b'M' || c == b'm'
    then some (2 ^ 20)
    else if c == b'G' || c == b'g'
    then some (2 ^ 30)
    else none

abbrev pub last? : Bytes → Option ℕ
last? [] = none
last? (c ∷ []) = some c
last? (c ∷ d ∷ cs) = last? (d ∷ cs)

abbrev pub remove_last : Bytes → Bytes
remove_last [] = []
remove_last (c ∷ []) = []
remove_last (c ∷ d ∷ cs) = c ∷ remove_last (d ∷ cs)

-- The text without its unit, and the factor.
abbrev pub split_at : Option ℕ → Bytes → Bytes × ℕ
split_at none s = (s, 1)
split_at (some multiplier) s = (remove_last s, multiplier)

abbrev pub unit_at : Option ℕ → Option ℕ
unit_at none = none
unit_at (some c) = unit_of c

unfoldable pub split_unit : Bytes → Bytes × ℕ
split_unit s = split_at (unit_at (last? s)) s

-- `ptr != s.data() + s.size()`, and the product of two 64-bit values.
abbrev pub scaled : ℕ → Option (ℕ × Bytes) → Option ℕ
scaled multiplier none = none
scaled multiplier (some (value, c ∷ rest)) = none
scaled multiplier (some (value, [])) = some (value * multiplier % 2 ^ 64)

unfoldable pub parse_size : Bytes → Option ℕ
unfolding from_chars split_unit
parse_size s = let (digits, multiplier) = split_unit s in scaled multiplier (from_chars digits)
