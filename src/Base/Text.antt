-- ===== src/Base/Text.antt =====
-- Texts are the native `String`. Appending and the prefix test are by clauses, so that proofs can
-- follow them at a text that begins with a literal.
use Prim.Native.Nat.{ℕ, zero, suc, ◌+◌, ◌-◌}
use Prim.Native.Char.{Char, code}
use Prim.Native.String.{String, count}
use Prim.Native.String.count
use mathlib.Core.Path.{◌≡◌, refl, ap}
use mathlib.Core.Bool.{Bool, true, false, ◌&&◌, ◌||◌}
use mathlib.Core.List.{List, [], ◌∷◌}
use native.Mathlib.Omega.{arith}
use text.Mathlib.TextEquality.{Char-path}
use new_cli_installer.Base.Tests.{eqb, leb, if◌then◌else◌}

-- `std::string` concatenation, and what `fmt::format` does with the pieces of a format string.
infixr 65 ◌<>◌
unfoldable pub ◌<>◌ : String → String → String
String.[] <> t = t
(String.◌∷◌ c s) <> t = String.◌∷◌ c (s <> t)

pub <>-nil : (s : String) → s <> "" ≡ s
unfolding ◌<>◌
<>-nil String.[] = refl
<>-nil (String.◌∷◌ c s) = ap (String.◌∷◌ c) (<>-nil s)

pub <>_assoc : (s t u : String) → (s <> t) <> u ≡ s <> (t <> u)
unfolding ◌<>◌
<>_assoc String.[] t u = refl
<>_assoc (String.◌∷◌ c s) t u = ap (String.◌∷◌ c) (<>_assoc s t u)

pub count-<> : (s t : String) → count (s <> t) ≡ count s + count t
unfolding ◌<>◌
count-<> String.[] t = omega (arith, count.nil)
count-<> (String.◌∷◌ c s) t = omega (arith, count.cons c s, count.cons c (s <> t), count-<> s t)

abbrev pub is_empty : String → Bool
is_empty String.[] = true
is_empty (String.◌∷◌ c s) = false

-- `==` on `char`.
abbrev pub same_char : Char → Char → Bool
same_char c d = eqb (code c) (code d)

pub same_char_sound : (c d : Char) → same_char c d ≡ true → c ≡ d
same_char_sound c d h = Char-path c d (ground arith)

pub same_char_refl : (c : Char) → same_char c c ≡ true
same_char_refl c = ground arith

-- `std::string_view::starts_with`, the text first.
unfoldable pub starts_with : String → String → Bool
starts_with s String.[] = true
starts_with String.[] (String.◌∷◌ d t) = false
starts_with (String.◌∷◌ c s) (String.◌∷◌ d t) = same_char c d && starts_with s t

pub starts_with-<> : (t s : String) → starts_with (t <> s) t ≡ true
unfolding starts_with ◌<>◌
starts_with-<> String.[] s = unfold starts_with in refl
starts_with-<> (String.◌∷◌ c t) s = rw (same_char_refl c) (starts_with-<> t s)

-- `std::string::find(needle) != npos`.
unfoldable pub contains_text : String → String → Bool
unfolding starts_with
contains_text String.[] t = is_empty t
contains_text (String.◌∷◌ c s) t = starts_with (String.◌∷◌ c s) t || contains_text s t

-- The text concatenated from its pieces.
unfoldable pub concat : List String → String
concat [] = ""
concat (s ∷ ss) = s <> concat ss

unfoldable pub spaces : ℕ → String
spaces zero = ""
spaces (suc n) = String.◌∷◌ " " (spaces n)

pub count-spaces : (n : ℕ) → count (spaces n) ≡ n
unfolding spaces
count-spaces zero = count.nil
count-spaces (suc n) = omega (arith, count.cons " " (spaces n), count-spaces n)

-- A replacement field `{:<w}`: the text, filled up with spaces on the right to `w` columns.
unfoldable pub pad_right : ℕ → String → String
unfolding spaces
pad_right w s = s <> spaces (w - count s)

nth : String → ℕ → Char → Char
nth String.[] n d = d
nth (String.◌∷◌ c s) zero d = c
nth (String.◌∷◌ c s) (suc n) d = nth s n d

-- `std::tolower` in the C locale.
unfoldable pub to_lower : Char → Char
unfolding nth
to_lower c =
    if leb b'A' (code c) && leb (code c) b'Z'
    then nth "abcdefghijklmnopqrstuvwxyz" (code c - b'A') c
    else c

-- The text backwards, in front of another.
unfoldable pub reversed : String → String → String
reversed String.[] out = out
reversed (String.◌∷◌ c s) out = reversed s (String.◌∷◌ c out)

-- `std::string_view::ends_with`, the text first.
unfoldable pub ends_with : String → String → Bool
unfolding starts_with reversed
ends_with s t = starts_with (reversed s "") (reversed t "")
