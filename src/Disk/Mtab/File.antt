-- ===== src/Disk/Mtab/File.antt =====
-- Reading the mount table from its file.
use Prim.Native.Char.{Char}
use new_cli_installer.Base.{
  String, ◌≡◌, refl, sym, ap, ◌∙◌, ◌≢◌, Bool, true, false, not, none, some, List, [], ◌∷◌, ◌++◌,
  Bool-cases, Option-cases, inl, inr, is_empty, keep_if, same_char, append-nil,
}
use new_cli_installer.Lines.{pieces, extend, split, join, make_split_view}
use new_cli_installer.Lines.Split.{pieces-ne-nil, join-pieces}
use new_cli_installer.Disk.Mtab.{
  getlines, read_mtab, parse_mtab, parse_mtab_content, parsed_content,
}
use new_cli_installer.Sys.{Os, Log, read}

-- The content with a newline behind a last line that has none.
ended : Bool → String → String
ended true String.[] = "\n"
ended false String.[] = ""
ended started (String.◌∷◌ c s) = String.◌∷◌ c (ended (not (same_char c "\n")) s)

-- The empty line that is read behind such a line.
behind : Bool → String → List String
behind true String.[] = "" ∷ []
behind false String.[] = []
behind started (String.◌∷◌ c s) = behind (not (same_char c "\n")) s

pieces-ended : (started : Bool) (s : String) → pieces "\n" (ended started s) ≡ getlines started s
unfolding pieces ended getlines
pieces-ended true String.[] = refl
pieces-ended false String.[] = refl
pieces-ended started (String.◌∷◌ c s) = rw (pieces-ended (not (same_char c "\n")) s) refl

extend-append : (c : Char) (ps qs : List String) → ps ≢ [] → extend c (ps ++ qs) ≡ extend c ps ++ qs
unfolding extend
extend-append c [] qs h = absurd (h refl)
extend-append c (p ∷ ps) qs h = refl

getlines-pieces :
    (started : Bool) (s : String) → getlines started s ≡ pieces "\n" s ++ behind started s
unfolding pieces behind getlines
getlines-pieces true String.[] = refl
getlines-pieces false String.[] = refl
getlines-pieces started (String.◌∷◌ c s) = elim (Bool-cases (same_char c "\n")) [
  | inl e ↦ rw (e, getlines-pieces false s) refl
  | inr n ↦
      rw (n, getlines-pieces true s)
        (extend-append c (pieces "\n" s) (behind true s) (pieces-ne-nil "\n" s))
]

keep_if-append :
    (t : String → Bool) (ps qs : List String) → keep_if t (ps ++ qs) ≡ keep_if t ps ++ keep_if t qs
keep_if-append t [] qs = refl
keep_if-append t (p ∷ ps) qs = elim (Bool-cases (t p)) [
  | inl e ↦ rw (e, keep_if-append t ps qs) refl
  | inr n ↦ rw (n, keep_if-append t ps qs) refl
]

abbrev filled : List String → List String
filled = keep_if (λ p. not (is_empty p))

filled-behind : (started : Bool) (s : String) → filled (behind started s) ≡ []
unfolding behind
filled-behind true String.[] = refl
filled-behind false String.[] = refl
filled-behind started (String.◌∷◌ c s) = filled-behind (not (same_char c "\n")) s

make_split_view-pieces : (s : String) → make_split_view s "\n" ≡ filled (pieces "\n" s)
unfolding make_split_view split pieces
make_split_view-pieces String.[] = refl
make_split_view-pieces (String.◌∷◌ c s) = refl

-- The empty line does not count.
make_split_view-ended : (s : String) → make_split_view (ended false s) "\n" ≡ make_split_view s "\n"
make_split_view-ended s =
    make_split_view-pieces (ended false s)
    ∙ ap filled (pieces-ended false s ∙ getlines-pieces false s)
    ∙ keep_if-append _ (pieces "\n" s) (behind false s)
    ∙ ap (λ l. filled (pieces "\n" s) ++ l) (filled-behind false s)
    ∙ append-nil (filled (pieces "\n" s))
    ∙ sym (make_split_view-pieces s)

ended-is_empty : (s : String) → is_empty (ended false s) ≡ is_empty s
unfolding ended
ended-is_empty String.[] = refl
ended-is_empty (String.◌∷◌ c s) = refl

read_mtab-ended :
    (path : String) (os : Os) (log : Log)
    → read_mtab path os log ≡ (
      elim (os.content_of log path) [ none ↦ none | some content ↦ some (ended false content) ],
      read path ∷ log,
    )
unfolding read_mtab
read_mtab-ended path os log = elim (Option-cases (os.content_of log path)) [
  | inl e ↦ rw e refl
  | inr (content, e) ↦ rw e (
      ap (λ c. (some c, read path ∷ log))
        (sym (ap (λ l. join l "\n") (pieces-ended false content))
          ∙ join-pieces "\n" (ended false content)))
]

-- Parsing a mount table from its file, for a root mountpoint and a path that are not empty, gives what
-- its whole content gives, whether or not the last line has a newline, and `std::nullopt` if it cannot
-- be read or is empty; the file is read once.
pub parse_mtab-parsed_content :
    (root path : String) (os : Os) (log : Log)
    → is_empty root ≡ false
    → is_empty path ≡ false
    → parse_mtab root path os log ≡ (parsed_content (os.content_of log path) root, read path ∷ log)
unfolding parse_mtab parsed_content parse_mtab_content
parse_mtab-parsed_content root path os log r p = elim (Option-cases (os.content_of log path)) [
  | inl e ↦ rw (r, p, read_mtab-ended path os log, e) refl
  | inr (content, e) ↦
      rw
        (
          r,
          p,
          read_mtab-ended path os log,
          e,
          ended-is_empty content,
          make_split_view-ended content,
        )
        refl
]
