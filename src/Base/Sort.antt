-- ===== src/Base/Sort.antt =====
-- `std::ranges::sort` with a comparison of two texts: what the standard promises of it, as an
-- interface, since the order of equal elements is left open. Texts are ordered as `std::string`.
pub mod Insertion
use mathlib.Core.List.{Perm}
use new_cli_installer.Base.Tests.{ltb, if◌then◌else◌}
use new_cli_installer.Base.Lists.{All}
use Prim.Native.Char.{code}
use Prim.Native.String.{String}
use mathlib.Core.Path.{◌≡◌, refl}
use mathlib.Core.Bool.{Bool, true, false}
use mathlib.Core.List.{List, [], ◌∷◌}
use native.Mathlib.Omega.{arith}
use text.Mathlib.TextEquality.{Char-path}

-- `operator<` on `std::string`: code points compare as their bytes in UTF-8 do.
unfoldable pub lt_text : String → String → Bool
lt_text s String.[] = false
lt_text String.[] (String.◌∷◌ d t) = true
lt_text (String.◌∷◌ c s) (String.◌∷◌ d t) =
    if ltb (code c) (code d) then true else if ltb (code d) (code c) then false else lt_text s t

-- A strict weak order, which the standard asks of a comparison.
pub record StrictWeak {A : Type 0} (lt : A → A → Bool) : Type 0 where
  pub asym : (a b : A) → lt a b ≡ true → lt b a ≡ false
  pub transitive : (a b c : A) → lt b a ≡ false → lt c b ≡ false → lt c a ≡ false

lt_text_asym : (s t : String) → lt_text s t ≡ true → lt_text t s ≡ false
unfolding lt_text
lt_text_asym String.[] String.[] h = refl
lt_text_asym (String.◌∷◌ c s) String.[] h = ground arith
lt_text_asym String.[] (String.◌∷◌ d t) h = refl
lt_text_asym (String.◌∷◌ c s) (String.◌∷◌ d t) h = ground (arith, lt_text_asym s t)

lt_text_transitive :
    (s t u : String) → lt_text t s ≡ false → lt_text u t ≡ false → lt_text u s ≡ false
unfolding lt_text
lt_text_transitive String.[] t u h k = refl
lt_text_transitive (String.◌∷◌ c s) String.[] u h k = ground arith
lt_text_transitive (String.◌∷◌ c s) (String.◌∷◌ d t) String.[] h k = ground arith
lt_text_transitive (String.◌∷◌ c s) (String.◌∷◌ d t) (String.◌∷◌ e u) h k =
    ground (arith, lt_text_transitive s t u)

-- Texts of which neither is less are the same text.
pub lt_text_total : (s t : String) → lt_text s t ≡ false → lt_text t s ≡ false → s ≡ t
unfolding lt_text
lt_text_total String.[] String.[] h k = refl
lt_text_total (String.◌∷◌ c s) String.[] h k = ground arith
lt_text_total String.[] (String.◌∷◌ d t) h k = ground arith
lt_text_total (String.◌∷◌ c s) (String.◌∷◌ d t) h k =
    cc (Char-path c d (ground arith), lt_text_total s t (ground arith) (ground arith))

module _ {A : Type 0} where
  -- `std::less` and `std::greater` on a projection.
  abbrev pub less_by : (A → String) → A → A → Bool
  less_by key a b = lt_text (key a) (key b)

  abbrev pub greater_by : (A → String) → A → A → Bool
  greater_by key a b = lt_text (key b) (key a)

  pub less_by-StrictWeak : (key : A → String) → StrictWeak (less_by key)
  less_by-StrictWeak key = record {
    asym = λ a b. lt_text_asym (key a) (key b);
    transitive = λ a b c. lt_text_transitive (key a) (key b) (key c);
  }

  pub greater_by-StrictWeak : (key : A → String) → StrictWeak (greater_by key)
  greater_by-StrictWeak key = record {
    asym = λ a b. lt_text_asym (key b) (key a);
    transitive = λ a b c h k. lt_text_transitive (key c) (key b) (key a) k h;
  }

  -- No element is less than one that stands before it.
  abbrev pub Sorted : (A → A → Bool) → List A → Type 0
  Sorted lt [] = Unit
  Sorted lt (x ∷ xs) = All (λ y. lt y x ≡ false) xs × Sorted lt xs

-- A sorting routine: it permutes its input and orders it.
pub record Sorter : Type 1 where
  pub sort : (A : Type 0) → (A → A → Bool) → List A → List A
  pub sort-perm : (A : Type 0) (lt : A → A → Bool) (xs : List A) → Perm (sort A lt xs) xs
  pub sort-Sorted :
      (A : Type 0) (lt : A → A → Bool) → StrictWeak lt → (xs : List A) → Sorted lt (sort A lt xs)
