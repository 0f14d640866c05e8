-- ===== src/Lines/Split.antt =====
-- Splitting and joining undo one another, and the lines of a text hold no delimiter.
use Prim.Native.Char.{Char}
use mathlib.Core.List.{reverse_aux}
use new_cli_installer.Base.{
  String, ◌<>◌, ◌≡◌, ◌≢◌, refl, ap, ◌∙◌, Bool, true, false, not, ◌&&◌, List, [], ◌∷◌, is_empty,
  same_char, keep_if, All, Bool-cases, inl, inr, arith, same_char_sound, same_char_refl,
}
use new_cli_installer.Lines.{pieces, extend, split, make_split_view, make_multiline, join}

-- No character of the text is the delimiter.
abbrev pub Lacks : Char → String → Type 0
Lacks delim String.[] = Unit
Lacks delim (String.◌∷◌ c s) = (same_char c delim ≡ false) × Lacks delim s

-- A line as `make_split_view` gives them.
abbrev pub IsLine : Char → String → Type 0
IsLine delim p = (is_empty p ≡ false) × Lacks delim p

module _ (delim : Char) where
  -- joining
  extend-join :
      (c : Char) (ps : List String)
      → ps ≢ []
      → join (extend c ps) delim ≡ String.◌∷◌ c (join ps delim)
  unfolding extend join ◌<>◌
  extend-join c [] h = absurd (h refl)
  extend-join c (p ∷ []) h = refl
  extend-join c (p ∷ q ∷ ps) h = refl

  pub pieces-ne-nil : (s : String) → pieces delim s ≢ []
  unfolding pieces extend
  pieces-ne-nil String.[] h = cc
  pieces-ne-nil (String.◌∷◌ c s) h = elim (Bool-cases (same_char c delim)) [
    | inl e ↦ cc
    | inr n ↦ ground arith
  ]

  join-cons_empty :
      (ps : List String) → ps ≢ [] → join ("" ∷ ps) delim ≡ String.◌∷◌ delim (join ps delim)
  unfolding join ◌<>◌
  join-cons_empty [] h = absurd (h refl)
  join-cons_empty (p ∷ ps) h = refl

  pub join-pieces : (s : String) → join (pieces delim s) delim ≡ s
  unfolding pieces
  join-pieces String.[] = unfold join in refl
  join-pieces (String.◌∷◌ c s) = elim (Bool-cases (same_char c delim)) [
    | inl e ↦
        rw (e, join-cons_empty _ (pieces-ne-nil s), join-pieces s) (cc (same_char_sound c delim e))
    | inr n ↦ rw (n, extend-join c _ (pieces-ne-nil s), join-pieces s)
  ]

-- The parts of a split, joined.
pub join-split : (s : String) (delim : Char) → join (split s delim) delim ≡ s
unfolding split
join-split String.[] delim = unfold join in refl
join-split (String.◌∷◌ c s) delim = join-pieces delim (String.◌∷◌ c s)

module _ (delim : Char) where
  extend-Lacks :
      (c : Char) (ps : List String)
      → same_char c delim ≡ false
      → All (Lacks delim) ps
      → All (Lacks delim) (extend c ps)
  unfolding extend
  extend-Lacks c [] n h = ((n, tt), tt)
  extend-Lacks c (p ∷ ps) n (q, h) = ((n, q), h)

  pub pieces-Lacks : (s : String) → All (Lacks delim) (pieces delim s)
  unfolding pieces
  pieces-Lacks String.[] = (tt, tt)
  pieces-Lacks (String.◌∷◌ c s) = elim (Bool-cases (same_char c delim)) [
    | inl e ↦ rw e (tt, pieces-Lacks s)
    | inr n ↦ rw n (extend-Lacks c _ n (pieces-Lacks s))
  ]

  keep-IsLine :
      (ps : List String)
      → All (Lacks delim) ps
      → All (IsLine delim) (keep_if (λ p. not (is_empty p)) ps)
  keep-IsLine [] h = tt
  keep-IsLine (String.[] ∷ ps) (q, h) = keep-IsLine ps h
  keep-IsLine (String.◌∷◌ c s ∷ ps) (q, h) = ((refl, q), keep-IsLine ps h)

  keep_lines : (ps : List String) → All (IsLine delim) ps → keep_if (λ p. not (is_empty p)) ps ≡ ps
  keep_lines [] h = refl
  keep_lines (String.[] ∷ ps) ((e, q), h) = absurd (cc)
  keep_lines (String.◌∷◌ c s ∷ ps) ((e, q), h) = ap (λ l. String.◌∷◌ c s ∷ l) (keep_lines ps h)

  All-reverse_aux :
      (P : String → Type 0) (xs ys : List String) → All P xs → All P ys → All P (reverse_aux xs ys)
  All-reverse_aux P [] ys _ k = k
  All-reverse_aux P (x ∷ xs) ys (p, h) k = All-reverse_aux P xs (x ∷ ys) h (p, k)

  make_split_view-IsLine : (s : String) → All (IsLine delim) (make_split_view s delim)
  unfolding make_split_view
  make_split_view-IsLine String.[] = tt
  make_split_view-IsLine (String.◌∷◌ c s) = keep-IsLine _ (pieces-Lacks (String.◌∷◌ c s))

  -- Every line that `make_multiline` gives is not empty and lacks the delimiter, reversed or not.
  pub make_multiline-IsLine :
      (s : String) (rev : Bool) → All (IsLine delim) (make_multiline s rev delim)
  unfolding make_multiline
  make_multiline-IsLine s false = make_split_view-IsLine s
  make_multiline-IsLine s true =
      All-reverse_aux _ (make_split_view s delim) [] (make_split_view-IsLine s) tt

  pub pieces-Lacks_append :
      (p s : String) → Lacks delim p → pieces delim (p <> String.◌∷◌ delim s) ≡ p ∷ pieces delim s
  unfolding pieces ◌<>◌
  pieces-Lacks_append String.[] s h = rw (same_char_refl delim)
  pieces-Lacks_append (String.◌∷◌ c p) s (n, h) = rw (n, pieces-Lacks_append p s h)

  pub pieces_single : (p : String) → Lacks delim p → pieces delim p ≡ p ∷ []
  unfolding pieces
  pieces_single String.[] h = refl
  pieces_single (String.◌∷◌ c p) (n, h) = rw (n, pieces_single p h)

  pub pieces-join :
      (p : String) (ps : List String)
      → All (Lacks delim) (p ∷ ps)
      → pieces delim (join (p ∷ ps) delim) ≡ p ∷ ps
  unfolding join
  pieces-join p [] (h, hs) = pieces_single p h
  pieces-join p (q ∷ ps) (h, hs) = pieces-Lacks_append p _ h ∙ ap (λ l. p ∷ l) (pieces-join q ps hs)

  All-Lacks : (ps : List String) → All (IsLine delim) ps → All (Lacks delim) ps
  All-Lacks [] h = tt
  All-Lacks (p ∷ ps) ((e, q), h) = (q, All-Lacks ps h)

  pub split-pieces : (s : String) → is_empty s ≡ false → split s delim ≡ pieces delim s
  unfolding split
  split-pieces String.[] h = absurd (cc)
  split-pieces (String.◌∷◌ c s) h = refl

  join-is_empty :
      (p : String) (ps : List String) → is_empty p ≡ false → is_empty (join (p ∷ ps) delim) ≡ false
  unfolding join ◌<>◌
  join-is_empty String.[] ps h = absurd (cc)
  join-is_empty (String.◌∷◌ c p) [] h = refl
  join-is_empty (String.◌∷◌ c p) (q ∷ ps) h = refl

  -- Lines that are not empty and lack the delimiter are read back from their join.
  pub make_multiline-join :
      (lines : List String)
      → All (IsLine delim) lines
      → make_multiline (join lines delim) false delim ≡ lines
  unfolding make_multiline
  make_multiline-join [] h = unfold join in refl
  make_multiline-join (p ∷ ps) ((e, q), h) =
      rw (split-pieces _ (join-is_empty p ps e), pieces-join p ps (q, All-Lacks ps h))
        (keep_lines (p ∷ ps) ((e, q), h))

  -- Words are split as they were joined.
  pub split-join :
      (words : List String) → All (IsLine delim) words → split (join words delim) delim ≡ words
  split-join [] h = unfold join in unfold split in refl
  split-join (p ∷ ps) ((e, q), h) =
      split-pieces _ (join-is_empty p ps e) ∙ pieces-join p ps (q, All-Lacks ps h)

-- The test for `Lacks`, for texts that are written out.
abbrev pub lacks : Char → String → Bool
lacks delim String.[] = true
lacks delim (String.◌∷◌ c s) = not (same_char c delim) && lacks delim s

pub lacks_sound : (delim : Char) (s : String) → lacks delim s ≡ true → Lacks delim s
lacks_sound delim String.[] h = tt
lacks_sound delim (String.◌∷◌ c s) h = (ground arith, lacks_sound delim s (ground arith))
