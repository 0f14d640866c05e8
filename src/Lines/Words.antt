-- ===== src/Lines/Words.antt =====
-- What `make_split_view` reads from a text that is written field by field.
use new_cli_installer.Base.{
  String, Char, All, ◌<>◌, <>_assoc, ◌≡◌, refl, ap, ◌∙◌, sym, false, true, not, List, [], ◌∷◌,
  is_empty, same_char_refl, keep_if, spaces, pad_right, ℕ, zero, suc, ◌-◌, count,
}
use new_cli_installer.Lines.{join, pieces, make_split_view}
use new_cli_installer.Lines.Split.{
  Lacks, IsLine, lacks, lacks_sound, pieces-Lacks_append, pieces_single, pieces-join,
}

abbrev lines_of : List String → List String
lines_of = keep_if (λ p. not (is_empty p))

module _ (delim : Char) where
  make_split_view-pieces : (s : String) → make_split_view s delim ≡ lines_of (pieces delim s)
  unfolding make_split_view
  make_split_view-pieces String.[] = refl
  make_split_view-pieces (String.◌∷◌ c s) = refl

  lines_of-cons :
      (p : String) (ps : List String) → is_empty p ≡ false → lines_of (p ∷ ps) ≡ p ∷ lines_of ps
  lines_of-cons p ps h = rw h

  -- Of lines that are joined, those that are not empty are read back.
  pub view-join :
      (lines : List String)
      → All (Lacks delim) lines
      → make_split_view (join lines delim) delim ≡ keep_if (λ p. not (is_empty p)) lines
  view-join [] h = unfold join in make_split_view-pieces "" ∙ unfold pieces in refl
  view-join (p ∷ ps) h =
      make_split_view-pieces (join (p ∷ ps) delim) ∙ ap lines_of (pieces-join delim p ps h)

  -- A delimiter in front is skipped.
  pub view-delim :
      (s : String) → make_split_view (String.◌∷◌ delim s) delim ≡ make_split_view s delim
  view-delim s =
      make_split_view-pieces (String.◌∷◌ delim s)
      ∙ unfold pieces in rw (same_char_refl delim) (sym (make_split_view-pieces s))

  -- A line in front of a delimiter is the first part.
  pub view-line :
      (p s : String)
      → IsLine delim p
      → make_split_view (p <> String.◌∷◌ delim s) delim ≡ p ∷ make_split_view s delim
  view-line p s (e, h) = rw (
    make_split_view-pieces,
    pieces-Lacks_append delim p s h,
    lines_of-cons p _ e,
    make_split_view-pieces,
  )

  -- The same for a text that is written out.
  pub view-line_literal :
      (p s : String)
      → is_empty p ≡ false
      → lacks delim p ≡ true
      → make_split_view (p <> String.◌∷◌ delim s) delim ≡ p ∷ make_split_view s delim
  view-line_literal p s e h = view-line p s (e, lacks_sound delim p h)

  -- A line alone is the only part.
  pub view_single : (p : String) → IsLine delim p → make_split_view p delim ≡ p ∷ []
  view_single p (e, h) = rw (make_split_view-pieces, pieces_single delim p h, lines_of-cons p _ e)

  pub Lacks-<> : (s t : String) → Lacks delim s → Lacks delim t → Lacks delim (s <> t)
  unfolding ◌<>◌
  Lacks-<> String.[] t h k = k
  Lacks-<> (String.◌∷◌ c s) t (n, h) k = (n, Lacks-<> s t h k)

view-spaces : (n : ℕ) (s : String) → make_split_view (spaces n <> s) " " ≡ make_split_view s " "
unfolding spaces ◌<>◌
view-spaces zero s = refl
view-spaces (suc n) s = view-delim " " (spaces n <> s) ∙ view-spaces n s

spaces-suc : (n : ℕ) (s : String) → spaces n <> (" " <> s) ≡ spaces (suc n) <> s
unfolding spaces ◌<>◌
spaces-suc zero s = refl
spaces-suc (suc n) s = ap (String.◌∷◌ " ") (spaces-suc n s)

spaces_step : (n : ℕ) (s : String) → spaces (suc n) <> s ≡ String.◌∷◌ " " (spaces n <> s)
unfolding spaces ◌<>◌
spaces_step n s = refl

-- A padded field in front of a space is read back without its padding.
pub view-pad_right :
    (w : ℕ) (p s : String)
    → IsLine " " p
    → make_split_view (pad_right w p <> (" " <> s)) " " ≡ p ∷ make_split_view s " "
unfolding pad_right
view-pad_right w p s h =
    rw (<>_assoc, spaces-suc, spaces_step)
      (view-line " " p _ h ∙ ap (λ l. p ∷ l) (view-spaces (w - count p) s))

pub Lacks-spaces : (n : ℕ) → Lacks "\n" (spaces n)
unfolding spaces
Lacks-spaces zero = tt
Lacks-spaces (suc n) = (refl, Lacks-spaces n)

pub Lacks-pad_right : (w : ℕ) (p : String) → Lacks "\n" p → Lacks "\n" (pad_right w p)
unfolding pad_right
Lacks-pad_right w p h = Lacks-<> "\n" p _ h (Lacks-spaces _)
