-- ===== src/Boot/Initcpio/Parsing.antt =====
-- What is written to mkinitcpio.conf is read back.
use new_cli_installer.Base.{
  String, Char, ◌<>◌, ◌≡◌, refl, ap, ◌∙◌, false, some, List, [], ◌∷◌, All, same_char,
}
use new_cli_installer.Lines.{split, join}
use new_cli_installer.Lines.Split.{Lacks, IsLine, split-join}
use new_cli_installer.Lines.Words.{Lacks-<>}
use new_cli_installer.Boot.Initcpio.{behind, before, closes_first, parse_line}

-- A word of a field: it is not empty and has no space, no closing bracket and no newline.
abbrev pub IsWord : String → Type 0
IsWord w = IsLine " " w × Lacks ")" w × Lacks "\n" w

pub join-Lacks :
    (delim c : Char) (ws : List String)
    → same_char c delim ≡ false
    → All (Lacks delim) ws
    → Lacks delim (join ws c)
unfolding join
join-Lacks delim c [] n h = tt
join-Lacks delim c (w ∷ []) n (h, _) = h
join-Lacks delim c (w ∷ v ∷ ws) n (h, hs) =
    Lacks-<> delim w _ h (n, join-Lacks delim c (v ∷ ws) n hs)

before-Lacks : (s : String) → Lacks ")" s → before ")" (s <> ")") ≡ s
unfolding before ◌<>◌
before-Lacks String.[] h = refl
before-Lacks (String.◌∷◌ c s) (n, h) = rw n (ap (String.◌∷◌ c) (before-Lacks s h))

behind-end : (s : String) → Lacks ")" s → behind ")" (s <> ")") ≡ some ""
unfolding behind ◌<>◌
behind-end String.[] h = refl
behind-end (String.◌∷◌ c s) (n, h) = rw n (behind-end s h)

-- Between the brackets of a line stand the words of a field.
parse_line_lem :
    (line s : String)
    → Lacks ")" s
    → behind "(" line ≡ some (s <> ")")
    → behind ")" line ≡ some ""
    → closes_first line ≡ false
    → parse_line line ≡ split s " "
unfolding parse_line
parse_line_lem line s h opens closes first = rw (parse_line, opens, closes, first, before-Lacks s h)

pub Words-Lacks :
    (ws : List String)
    → All IsWord ws
    → All (IsLine " ") ws × All (Lacks ")") ws × All (Lacks "\n") ws
Words-Lacks [] h = (tt, tt, tt)
Words-Lacks (w ∷ ws) ((a, b, c), h) = let r = Words-Lacks ws h in ((a, r.0), (b, r.1), (c, r.2))

module _ (ws : List String) (h : All IsWord ws) where
  closed : Lacks ")" (join ws " ")
  closed = join-Lacks ")" " " ws refl (Words-Lacks ws h).1

  words : split (join ws " ") " " ≡ ws
  words = split-join " " ws (Words-Lacks ws h).0

  pub modules_line : parse_line ("MODULES=(" <> (join ws " " <> ")")) ≡ ws
  unfolding behind closes_first ◌<>◌
  modules_line =
      parse_line_lem _ (join ws " ") closed refl (behind-end (join ws " ") closed) refl ∙ words

  pub files_line : parse_line ("FILES=(" <> (join ws " " <> ")")) ≡ ws
  unfolding behind closes_first ◌<>◌
  files_line =
      parse_line_lem _ (join ws " ") closed refl (behind-end (join ws " ") closed) refl ∙ words

  pub hooks_line : parse_line ("HOOKS=(" <> (join ws " " <> ")")) ≡ ws
  unfolding behind closes_first ◌<>◌
  hooks_line =
      parse_line_lem _ (join ws " ") closed refl (behind-end (join ws " ") closed) refl ∙ words
