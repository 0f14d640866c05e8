-- ===== src/Base/Decimal.antt =====
-- `std::to_string` and `{}` of a signed integer.
use Prim.Native.Nat.{ℕ, zero, suc, ◌+◌, ◌/◌, ◌%◌, ◌≤◌, ◌<◌}
use Prim.Native.Char.{Char, code}
use Prim.Native.String.{String, count}
use Prim.Native.String.count
use mathlib.Core.Path.{◌≡◌, refl, ap}
use mathlib.Core.Logic.{inl, inr, ◌↔◌}
use mathlib.Core.Logic.{◌≢◌}
use native.Mathlib.Omega.{arith}
use text.Mathlib.TextLemmas.{head-eq_of_cons-eq}
use new_cli_installer.Base.Tests.{leb, if◌then◌else◌, Bool-cases}

-- `negsuc n` is -(n + 1).
pub data ℤ : Type 0 where
  pos : ℕ → ℤ
  negsuc : ℕ → ℤ

pub digit : ℕ → Char
digit zero = "0"
digit (suc zero) = "1"
digit (suc (suc zero)) = "2"
digit (suc (suc (suc zero))) = "3"
digit (suc (suc (suc (suc zero)))) = "4"
digit (suc (suc (suc (suc (suc zero))))) = "5"
digit (suc (suc (suc (suc (suc (suc zero)))))) = "6"
digit (suc (suc (suc (suc (suc (suc (suc zero))))))) = "7"
digit (suc (suc (suc (suc (suc (suc (suc (suc zero)))))))) = "8"
digit _ = "9"

-- The digits of `n` in front of `out`; the fuel is a number above `n`.
unfoldable pub digits : ℕ → ℕ → String → String
unfolding digit
digits zero n out = out
digits (suc fuel) n out =
    let more = digits fuel (n / 10) (String.◌∷◌ (digit (n % 10)) out) in
    if leb n 9 then String.◌∷◌ (digit n) out else more

unfoldable pub to_string : ℤ → String
unfolding digits
to_string (pos n) = digits (suc n) n ""
to_string (negsuc n) = String.◌∷◌ "-" (digits (suc (suc n)) (suc n) "")

count-digits : (fuel n : ℕ) (out : String) → count out ≤ count (digits fuel n out)
unfolding digits
count-digits zero n out = omega arith
count-digits (suc fuel) n out = ground (
  arith,
  count.cons (digit n) out,
  count.cons (digit (n % 10)) out,
  count-digits fuel (n / 10) (String.◌∷◌ (digit (n % 10)) out),
)

count-lt-digits : (fuel n : ℕ) (out : String) → count out < count (digits (suc fuel) n out)
unfolding digits
count-lt-digits fuel n out = ground (
  arith,
  count.cons (digit n) out,
  count.cons (digit (n % 10)) out,
  count-digits fuel (n / 10) (String.◌∷◌ (digit (n % 10)) out),
)

pub code-digit : (n : ℕ) → n ≤ 9 → code (digit n) ≡ 48 + n
unfolding digit
code-digit zero h = refl
code-digit (suc zero) h = refl
code-digit (suc (suc zero)) h = refl
code-digit (suc (suc (suc zero))) h = refl
code-digit (suc (suc (suc (suc zero)))) h = refl
code-digit (suc (suc (suc (suc (suc zero))))) h = refl
code-digit (suc (suc (suc (suc (suc (suc zero)))))) h = refl
code-digit (suc (suc (suc (suc (suc (suc (suc zero))))))) h = refl
code-digit (suc (suc (suc (suc (suc (suc (suc (suc zero)))))))) h = refl
code-digit (suc (suc (suc (suc (suc (suc (suc (suc (suc n))))))))) h = omega arith

starts_other : (c : Char) (s : String) → code c ≢ 48 → String.◌∷◌ c s ≢ "0"
starts_other c s h e = h (ap code (head-eq_of_cons-eq e))

positive : (n : ℕ) → to_string (pos (suc n)) ≢ "0"
unfolding to_string
positive n e = elim (Bool-cases (leb (suc n) 9)) [
  | inl one ↦
      starts_other (digit (suc n)) "" (omega (arith, code-digit (suc n) (ground arith)))
        (rw one at e)
  | inr more ↦
      let d = digit (suc n % 10) in
      let long : digits (suc n) (suc n / 10) (String.◌∷◌ d "") ≡ "0" = rw more at e in
      omega
        (arith, ap count long, count-lt-digits n (suc n / 10) (String.◌∷◌ d ""), count.cons d "")
]

-- Only the number 0 is printed as `0`.
pub to_string-zero_iff : (z : ℤ) → (to_string z ≡ "0") ↔ (z ≡ pos 0)
unfolding to_string
to_string-zero_iff (pos zero) = (λ _. refl, λ _. refl)
to_string-zero_iff (pos (suc n)) = (λ e. absurd (positive n e), λ e. absurd (cc))
to_string-zero_iff (negsuc n) = (λ e. absurd (starts_other "-" _ (omega arith) e), λ e. absurd (cc))
