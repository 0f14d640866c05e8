-- ===== src/Lines.antt =====
-- gucc/src/string_utils.cpp and gucc/include/gucc/string_utils.hpp: texts as lists of lines.
pub mod Split
pub mod Trim
pub mod Words
use Prim.Native.Char.{Char}
use new_cli_installer.Base.{
  String, ◌<>◌, Bool, true, false, not, List, [], ◌∷◌, reverse, if◌then◌else◌, is_empty, same_char,
  keep_if, ◌||◌, ◌&&◌,
}

unfoldable pub extend : Char → List String → List String
extend c [] = String.◌∷◌ c "" ∷ []
extend c (p ∷ ps) = String.◌∷◌ c p ∷ ps

-- The parts between the delimiters, at least one: also the lines that `std::getline` reads up to the
-- end of a file, whose last one may be empty.
unfoldable pub pieces : Char → String → List String
unfolding extend
pieces delim String.[] = "" ∷ []
pieces delim (String.◌∷◌ c s) =
    let rest = pieces delim s in if same_char c delim then "" ∷ rest else extend c rest

-- `views::split(delim)`: an empty range has no part.
unfoldable pub split : String → Char → List String
unfolding pieces
split String.[] delim = []
split (String.◌∷◌ c s) delim = pieces delim (String.◌∷◌ c s)

-- `utils::make_split_view`: the parts that are not empty.
unfoldable pub make_split_view : String → Char → List String
unfolding split
make_split_view str delim = keep_if (λ rng. not (is_empty rng)) (split str delim)

-- `utils::make_multiline` and `utils::make_multiline_view` of a text.
unfoldable pub make_multiline : String → Bool → Char → List String
unfolding make_split_view
make_multiline str rev delim =
    let lines = make_split_view str delim in if rev then reverse lines else lines

-- Every line followed by the delimiter.
unfoldable pub lines_text : List String → String → String
lines_text [] delim = ""
lines_text (line ∷ lines) delim = line <> delim <> lines_text lines delim

unfoldable pub reverse_text : String → String → String
reverse_text String.[] out = out
reverse_text (String.◌∷◌ c s) out = reverse_text s (String.◌∷◌ c out)

-- `utils::make_multiline` of a vector: the whole text is reversed, its lines too.
unfoldable pub combine_lines : List String → Bool → String → String
unfolding lines_text reverse_text
combine_lines multiline rev delim =
    let res = lines_text multiline delim in if rev then reverse_text res "" else res

-- `utils::join`
unfoldable pub join : List String → Char → String
join [] delim = ""
join (line ∷ []) delim = line
join (line ∷ next ∷ lines) delim = line <> String.◌∷◌ delim (join (next ∷ lines) delim)

unfoldable pub is_space : Char → Bool
is_space c = same_char c " " || same_char c "\t" || same_char c "\n" || same_char c "\r"

-- From `find_first_not_of` on.
unfoldable pub trim_start : String → String
unfolding is_space
trim_start String.[] = ""
trim_start (String.◌∷◌ c s) = let rest = trim_start s in if is_space c then rest else String.◌∷◌ c s

-- Up to `find_last_not_of`.
unfoldable pub trim_end : String → String
unfolding is_space
trim_end String.[] = ""
trim_end (String.◌∷◌ c s) =
    let rest = trim_end s in if is_empty rest && is_space c then "" else String.◌∷◌ c rest

-- `utils::trim`
unfoldable pub trim : String → String
unfolding trim_start trim_end
trim str = trim_end (trim_start str)
