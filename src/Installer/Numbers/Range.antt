-- ===== src/Installer/Numbers/Range.antt =====
-- The numbers that to_int reads fit into 32 bits, and it reads back what is printed.
use new_cli_installer.Base.{
  String, Char, code, ◌≡◌, refl, sym, ap, ◌∙◌, ℕ, zero, suc, ◌+◌, ◌-◌, ◌*◌, ◌/◌, ◌%◌, ◌^◌, ◌≤◌, ◌<◌,
  true, false, leb, same_char, Bool-cases, inl, inr, arith,
}
use new_cli_installer.Base.Decimal.{ℤ, pos, negsuc, to_string, digit, digits, code-digit}
use new_cli_installer.Installer.Numbers.{
  is_digit, read_digits, starts_with_digit, negative, from_chars, to_int,
}

-- The range of `std::int32_t`.
abbrev pub IsInt32 : ℤ → Type 0
IsInt32 (pos n) = n < 2 ^ 31
IsInt32 (negsuc n) = n < 2 ^ 31

negative-IsInt32 : (n : ℕ) → n ≤ 2 ^ 31 → IsInt32 (negative n)
unfolding negative
negative-IsInt32 zero h = omega arith
negative-IsInt32 (suc n) h = omega arith

from_chars-IsInt32 :
    (digits : String) (limit : ℕ) (sign : ℕ → ℤ)
    → ((n : ℕ) → n ≤ limit → IsInt32 (sign n))
    → IsInt32 (from_chars digits limit sign (pos 0))
unfolding from_chars
from_chars-IsInt32 digits limit sign fits = elim (Bool-cases (starts_with_digit digits)) [
  | inr none_there ↦ rw none_there (omega arith)
  | inl there ↦ elim (Bool-cases (leb (read_digits digits 0) limit)) [
    | inl small ↦ rw (there, small) (fits (read_digits digits 0) (ground arith))
    | inr large ↦ rw (there, large) (omega arith)
  ]
]

-- The number that to_int gives is in the range of `std::int32_t`, whatever the text is.
pub to_int-IsInt32 : (text : String) → IsInt32 (to_int text)
unfolding to_int
to_int-IsInt32 String.[] = omega arith
to_int-IsInt32 (String.◌∷◌ c s) = elim (Bool-cases (same_char c "-")) [
  | inl minus ↦ rw minus (from_chars-IsInt32 s (2 ^ 31) negative negative-IsInt32)
  | inr plain ↦ rw plain (from_chars-IsInt32 (String.◌∷◌ c s) (2 ^ 31 - 1) pos (λ n h. omega arith))
]

is_digit-digit : (n : ℕ) → n ≤ 9 → is_digit (digit n) ≡ true
is_digit-digit n h = ground (arith, code-digit n h)

read_digit :
    (n acc : ℕ) (out : String)
    → n ≤ 9
    → read_digits (String.◌∷◌ (digit n) out) acc ≡ read_digits out (acc * 10 + n)
unfolding read_digits
read_digit n acc out h =
    let e : code (digit n) - 48 ≡ n = omega (arith, code-digit n h) in
    rw (is_digit-digit n h, e) refl

-- Reading the digits of a number gives the number.
read_digits-digits :
    (fuel n : ℕ) (out : String) → n < fuel → read_digits (digits fuel n out) 0 ≡ read_digits out n
unfolding digits
read_digits-digits zero n out h = absurd (omega arith)
read_digits-digits (suc fuel) n out h = elim (Bool-cases (leb n 9)) [
  | inl one ↦
      let e : 0 * 10 + n ≡ n = omega arith in rw one (read_digit n 0 out (ground arith) ∙ rw e refl)
  | inr more ↦
      let last : n % 10 ≤ 9 = omega arith in
      let e : n / 10 * 10 + n % 10 ≡ n = omega arith in
      rw
        (
          more,
          read_digits-digits fuel (n / 10) (String.◌∷◌ (digit (n % 10)) out) (ground arith),
          read_digit (n % 10) (n / 10) out last,
          e,
        )
        refl
]

starts-digits :
    (fuel n : ℕ) (out : String)
    → n < fuel
    → (c : Char) × (s : String) × (digits fuel n out ≡ String.◌∷◌ c s) × (is_digit c ≡ true)
unfolding digits
starts-digits zero n out h = absurd (omega arith)
starts-digits (suc fuel) n out h = elim (Bool-cases (leb n 9)) [
  | inl one ↦ (digit n, out, rw one refl, is_digit-digit n (ground arith))
  | inr more ↦
      let (c, s, e, d) =
        starts-digits fuel (n / 10) (String.◌∷◌ (digit (n % 10)) out) (ground arith) in
      (c, s, rw more e, d)
]

from_chars-digits :
    (n limit : ℕ) (sign : ℕ → ℤ)
    → n ≤ limit
    → from_chars (digits (suc n) n "") limit sign (pos 0) ≡ sign n
unfolding from_chars read_digits
from_chars-digits n limit sign h =
    let (c, s, e, d) = starts-digits (suc n) n "" (omega arith) in
    let value : read_digits (digits (suc n) n "") 0 ≡ n =
      read_digits-digits (suc n) n "" (omega arith) in
    let start : starts_with_digit (digits (suc n) n "") ≡ true = rw e d in
    let small : leb n limit ≡ true = ground arith in rw (start, value, small) refl

to_int_plain :
    (c : Char) (s : String)
    → is_digit c ≡ true
    → to_int (String.◌∷◌ c s) ≡ from_chars (String.◌∷◌ c s) (2 ^ 31 - 1) pos (pos 0)
unfolding to_int
to_int_plain c s d = let plain : same_char c "-" ≡ false = ground arith in rw plain refl

to_string_pos : (n : ℕ) → to_string (pos n) ≡ digits (suc n) n ""
unfolding to_string
to_string_pos n = refl

to_int_minus :
    (n : ℕ)
    → to_int (to_string (negsuc n))
      ≡ from_chars (digits (suc (suc n)) (suc n) "") (2 ^ 31) negative (pos 0)
unfolding to_int to_string
to_int_minus n = refl

-- A number in the range of `std::int32_t` is read back from what is printed.
pub to_int-to_string : (z : ℤ) → IsInt32 z → to_int (to_string z) ≡ z
unfolding negative
to_int-to_string (pos n) h =
    let (c, s, e, d) = starts-digits (suc n) n "" (omega arith) in
    ap to_int (to_string_pos n ∙ e)
    ∙ to_int_plain c s d
    ∙ ap (λ t. from_chars t (2 ^ 31 - 1) pos (pos 0)) (sym e)
    ∙ from_chars-digits n (2 ^ 31 - 1) pos (omega arith)
to_int-to_string (negsuc n) h =
    to_int_minus n ∙ from_chars-digits (suc n) (2 ^ 31) negative (omega arith)
