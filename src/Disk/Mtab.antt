-- ===== src/Disk/Mtab.antt =====
-- gucc/src/mtab.cpp: the mounted file systems below a mountpoint.
pub mod Reading
pub mod File
use new_cli_installer.Base.{
  String, ◌==◌, Bool, true, false, not, ◌&&◌, ◌||◌, Option, none, some, List, [], ◌∷◌, ◌++◌,
  if◌then◌else◌, is_empty, starts_with, length, leb, same_char,
}
use new_cli_installer.Lines.{extend, join, make_split_view}
use new_cli_installer.Sys.{M, ask, pure, ◌>>=◌, read}

pub record MTabEntry : Type 0 where
  pub device : String
  pub mountpoint : String

-- The fields of a line. `none` stands for the read of the first field of a line that has none, which
-- the language leaves undefined.
unfoldable pub fields_entry : List String → String → Option (List MTabEntry)
fields_entry [] root_mountpoint = none
fields_entry (device ∷ []) root_mountpoint = some []
fields_entry (device ∷ mountpoint ∷ rest) root_mountpoint =
    if leb 3 (length (device ∷ mountpoint ∷ rest))
      && not (starts_with device "#")
      && starts_with mountpoint root_mountpoint
    then some (record { device = device; mountpoint = mountpoint } ∷ [])
    else some []

unfoldable pub line_entry : String → String → Option (List MTabEntry)
line_entry line root_mountpoint =
    if is_empty line || starts_with line "#"
    then some []
    else fields_entry (make_split_view line " ") root_mountpoint

unfoldable pub append_entries :
    Option (List MTabEntry) → Option (List MTabEntry) → Option (List MTabEntry)
append_entries none _ = none
append_entries (some entries) none = none
append_entries (some entries) (some more) = some (entries ++ more)

unfoldable pub lines_entries : List String → String → Option (List MTabEntry)
lines_entries [] root_mountpoint = some []
lines_entries (line ∷ lines) root_mountpoint =
    append_entries (line_entry line root_mountpoint) (lines_entries lines root_mountpoint)

unfoldable pub parse_mtab_content : String → String → Option (List MTabEntry)
parse_mtab_content mtab_content root_mountpoint =
    lines_entries (make_split_view mtab_content "\n") root_mountpoint

-- What `std::getline` reads while the stream is good, where a line has been started or not. At the end of
-- the file it reads an empty line, also behind a last line that has no newline.
unfoldable pub getlines : Bool → String → List String
getlines true String.[] = "" ∷ "" ∷ []
getlines false String.[] = "" ∷ []
getlines started (String.◌∷◌ c s) =
    let rest = getlines (not (same_char c "\n")) s in
    if same_char c "\n" then "" ∷ rest else extend c rest

-- Reads line by line up to the end of the file.
unfoldable pub read_mtab : String → M (Option String)
read_mtab mtab_path = ask (read mtab_path) (λ os log. elim (os.content_of log mtab_path) [
  | none ↦ none
  | some content ↦ some (join (getlines false content) "\n")
])

-- `std::nullopt`, the undefined behaviour of a line of spaces, or the entries.
pub data Parsed : Type 0 where
  nullopt undefined : Parsed
  entries : List MTabEntry → Parsed

unfoldable pub parsed_content : Option String → String → Parsed
parsed_content none root_mountpoint = nullopt
parsed_content (some content) root_mountpoint =
    if is_empty content then nullopt else elim (parse_mtab_content content root_mountpoint) [
      | none ↦ undefined
      | some found ↦ entries found
    ]

unfoldable pub parse_mtab : String → String → M Parsed
parse_mtab root_mountpoint mtab_path =
    if is_empty root_mountpoint || is_empty mtab_path
    then pure nullopt
    else do file_content ← read_mtab mtab_path; pure (parsed_content file_content root_mountpoint)
