-- ===== src/Installer/Numbers.antt =====
-- src/utils.hpp: to_int, which reads a number from a text with `std::from_chars`.
pub mod Range
use new_cli_installer.Base.{
  String, Char, code, ℕ, zero, suc, ◌+◌, ◌-◌, ◌*◌, ◌^◌, Bool, true, false, Option, none, some, leb,
  ◌&&◌, if◌then◌else◌, same_char,
}
use new_cli_installer.Base.Decimal.{ℤ, pos, negsuc}

abbrev pub is_digit : Char → Bool
is_digit c = leb 48 (code c) && leb (code c) 57

-- The number that the digits at the start of the text go on with.
unfoldable pub read_digits : String → ℕ → ℕ
read_digits String.[] n = n
read_digits (String.◌∷◌ c s) n =
    let more = read_digits s (n * 10 + (code c - 48)) in if is_digit c then more else n

abbrev pub starts_with_digit : String → Bool
starts_with_digit String.[] = false
starts_with_digit (String.◌∷◌ c s) = is_digit c

unfoldable pub negative : ℕ → ℤ
negative zero = pos zero
negative (suc n) = negsuc n

-- A number of digits that does not fit, or a text without them, leaves the result as it is.
unfoldable pub from_chars : String → ℕ → (ℕ → ℤ) → ℤ → ℤ
unfolding read_digits
from_chars digits limit sign result =
    let n = read_digits digits 0 in
    if starts_with_digit digits then (if leb n limit then sign n else result) else result

-- `to_int<std::int32_t>`
unfoldable pub to_int : String → ℤ
unfolding from_chars negative
to_int String.[] = pos 0
to_int (String.◌∷◌ c s) =
    if same_char c "-"
    then from_chars s (2 ^ 31) negative (pos 0)
    else from_chars (String.◌∷◌ c s) (2 ^ 31 - 1) pos (pos 0)
