-- ===== src/Cli/SizeText.antt =====
-- A printed number, with or without a unit, is parsed to its value.
use native.Mathlib.Omega.{pow_step}
use collapsar.Base.{
  ℕ, zero, suc, ◌+◌, ◌-◌, ◌*◌, ◌/◌, ◌%◌, ◌^◌, ◌<◌, ◌≤◌, ◌≡◌, ◌⊎◌, refl, ap, ◌∙◌, Bool-cases, inl,
  inr, true, none, some, Bytes, [], ◌∷◌, ◌++◌, arith, length, append-nil, ltb, ltb→lt, lt→ltb, All,
  decimal,
}
use collapsar.Base.Text.{decimal_loop}
use collapsar.Cli.Sizes.{
  is_digit, read_digits, from_chars, unit_of, unit_at, in_range, last?, remove_last, split_unit,
  parse_size,
}

-- A text of at most `f` digits has a value below `10 ^ f`, and dividing by ten takes a digit away.
ten_pow : (f n : ℕ) → n < 10 ^ suc f → n / 10 < 10 ^ f
ten_pow f n h = omega (arith, pow_step 10 f)

read_digits-step :
    (n acc : ℕ) (out : Bytes)
    → read_digits acc ((b'0' + n % 10) ∷ out) ≡ read_digits (acc * 10 + n % 10) out
unfolding read_digits
read_digits-step n acc out =
    let digit : is_digit (b'0' + n % 10) ≡ true = ground arith in
    let value : b'0' + n % 10 - b'0' ≡ n % 10 = omega arith in rw (digit, value)

read_digits-decimal_loop :
    (f n : ℕ) (out : Bytes)
    → n < 10 ^ suc f
    → read_digits 0 (decimal_loop (suc f) n out) ≡ read_digits n out
unfolding decimal_loop
read_digits-decimal_loop zero n out h =
    let one : ltb n 10 ≡ true = ground (arith, h) in
    let small : 0 * 10 + n % 10 ≡ n = omega (arith, h) in
    rw one (read_digits-step n 0 out ∙ ap (λ v. read_digits v out) small)
read_digits-decimal_loop (suc f) n out h = elim (Bool-cases (ltb n 10)) [
  | inl one ↦
      let small : 0 * 10 + n % 10 ≡ n = omega (arith, ltb→lt n 10 one) in
      rw one (read_digits-step n 0 out ∙ ap (λ v. read_digits v out) small)
  | inr more ↦
      let joined : n / 10 * 10 + n % 10 ≡ n = omega arith in
      rw more (
        read_digits-decimal_loop f (n / 10) ((b'0' + n % 10) ∷ out) (ten_pow (suc f) n h)
        ∙ read_digits-step n (n / 10) out
        ∙ ap (λ v. read_digits v out) joined)
]

digits :
    (f n : ℕ) (out : Bytes)
    → All (λ c. is_digit c ≡ true) out
    → All (λ c. is_digit c ≡ true) (decimal_loop f n out)
unfolding decimal_loop
digits zero n out h = h
digits (suc f) n out h =
    let here : is_digit (b'0' + n % 10) ≡ true = ground arith in
    elim (Bool-cases (ltb n 10)) [
      | inl one ↦ rw one (here, h)
      | inr more ↦ rw more (digits f (n / 10) ((b'0' + n % 10) ∷ out) (here, h))
    ]

abbrev AreDigits : Bytes → Type 0
AreDigits = All (λ c. is_digit c ≡ true)

length-decimal_loop_le : (f n : ℕ) (out : Bytes) → length out ≤ length (decimal_loop f n out)
unfolding decimal_loop
length-decimal_loop_le zero n out = omega arith
length-decimal_loop_le (suc f) n out = elim (Bool-cases (ltb n 10)) [
  | inl one ↦ rw one (omega arith)
  | inr more ↦ rw more (omega (arith, length-decimal_loop_le f (n / 10) ((b'0' + n % 10) ∷ out)))
]

decimal-AreDigits : (n : ℕ) → AreDigits (decimal n)
unfolding decimal
decimal-AreDigits n = digits 20 n [] tt

decimal-nonempty : (n : ℕ) → 0 < length (decimal n)
unfolding decimal decimal_loop
decimal-nonempty n = elim (Bool-cases (ltb n 10)) [
  | inl one ↦ rw one (omega arith)
  | inr more ↦ rw more (omega (arith, length-decimal_loop_le 19 (n / 10) ((b'0' + n % 10) ∷ [])))
]

from_chars_digits :
    (xs : Bytes) → AreDigits xs → 0 < length xs → from_chars xs ≡ in_range (read_digits 0 xs)
unfolding from_chars
from_chars_digits [] are some_digit = elim some_digit [ ]
from_chars_digits (c ∷ cs) (is, are) some_digit = rw is

read_digits-decimal : (n : ℕ) → n < 2 ^ 64 → read_digits 0 (decimal n) ≡ (n, [])
unfolding decimal read_digits
read_digits-decimal n h = read_digits-decimal_loop 19 n [] (omega (arith, h))

from_chars-decimal : (n : ℕ) → n < 2 ^ 64 → from_chars (decimal n) ≡ some (n, [])
from_chars-decimal n h =
    from_chars_digits (decimal n) (decimal-AreDigits n) (decimal-nonempty n)
    ∙ rw (read_digits-decimal n h, lt→ltb n (2 ^ 64) h)

digit_no_unit : (c : ℕ) → is_digit c ≡ true → unit_of c ≡ none
digit_no_unit c h = ground arith

digits_no_unit : (xs : Bytes) → AreDigits xs → unit_at (last? xs) ≡ none
digits_no_unit [] are = refl
digits_no_unit (c ∷ []) (is, are) = digit_no_unit c is
digits_no_unit (c ∷ d ∷ cs) (is, are) = digits_no_unit (d ∷ cs) are

last?-append : (xs : Bytes) (c : ℕ) → last? (xs ++ c ∷ []) ≡ some c
last?-append [] c = refl
last?-append (x ∷ []) c = refl
last?-append (x ∷ y ∷ xs) c = last?-append (y ∷ xs) c

remove_last-append : (xs : Bytes) (c : ℕ) → remove_last (xs ++ c ∷ []) ≡ xs
remove_last-append [] c = refl
remove_last-append (x ∷ []) c = refl
remove_last-append (x ∷ y ∷ xs) c = ap (◌∷◌ x) (remove_last-append (y ∷ xs) c)

-- What may stand behind a number, and its factor: nothing, or one of the letters of the binary
-- multiples, in either case.
abbrev pub IsUnit : Bytes → ℕ → Type 0
IsUnit [] m = m ≡ 1
IsUnit (c ∷ []) m =
    (((c ≡ b'K') ⊎ (c ≡ b'k')) × (m ≡ 1024))
    ⊎ ((((c ≡ b'M') ⊎ (c ≡ b'm')) × (m ≡ 1024 * 1024))
        ⊎ (((c ≡ b'G') ⊎ (c ≡ b'g')) × (m ≡ 1024 * 1024 * 1024)))
IsUnit (c ∷ d ∷ cs) m = ⊥

unit_of_lem : (c m : ℕ) → IsUnit (c ∷ []) m → unit_of c ≡ some m
unit_of_lem c m (inl (inl c_is, m_is)) = rw (c_is, m_is) refl
unit_of_lem c m (inl (inr c_is, m_is)) = rw (c_is, m_is) refl
unit_of_lem c m (inr (inl (inl c_is, m_is))) = rw (c_is, m_is) refl
unit_of_lem c m (inr (inl (inr c_is, m_is))) = rw (c_is, m_is) refl
unit_of_lem c m (inr (inr (inl c_is, m_is))) = rw (c_is, m_is) refl
unit_of_lem c m (inr (inr (inr c_is, m_is))) = rw (c_is, m_is) refl

-- A number below 2^64 in decimal is read as itself, and with K or k behind it as the number times
-- 1024, with M or m times 1024 * 1024, and with G or g times 1024 * 1024 * 1024, modulo 2^64.
pub parse_size-decimal :
    (n m : ℕ) (suffix : Bytes)
    → n < 2 ^ 64
    → IsUnit suffix m
    → parse_size (decimal n ++ suffix) ≡ some (n * m % 2 ^ 64)
unfolding parse_size
parse_size-decimal n m [] h is = rw (
  append-nil (decimal n),
  split_unit,
  digits_no_unit (decimal n) (decimal-AreDigits n),
  from_chars-decimal n h,
  is,
)
parse_size-decimal n m (c ∷ []) h is = rw (
  split_unit,
  last?-append (decimal n) c,
  unit_of_lem c m is,
  remove_last-append (decimal n) c,
  from_chars-decimal n h,
)
parse_size-decimal n m (c ∷ d ∷ cs) h is = elim is [ ]
