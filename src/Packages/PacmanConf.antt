-- ===== src/Packages/PacmanConf.antt =====
-- gucc/src/pacmanconf_repo.cpp: the repositories in pacman.conf.
pub mod Insertion
use new_cli_installer.Base.{
  String, Char, ◌<>◌, Bool, true, false, not, ◌&&◌, Option, none, some, List, [], ◌∷◌,
  if◌then◌else◌, is_empty, starts_with, find_if, keep_if,
}
use new_cli_installer.Lines.{split, make_split_view}
use new_cli_installer.Sys.{M, pure, ◌>>=◌}
use new_cli_installer.Sys.Io.{read_whole_file, create_file_for_overwrite}

-- A line that opens a section other than `[options]`.
unfoldable pub is_repo_line : String → Bool
is_repo_line line =
    not (is_empty line)
    && not (starts_with line "#")
    && starts_with line "["
    && not (starts_with line "[options]")

unfoldable pub insert_later : String → String → String → Option String
insert_later line text String.[] = none
insert_later line text (String.◌∷◌ c s) =
    let rest : Option String = elim (insert_later line text s) [
      | none ↦ none
      | some s' ↦ some (String.◌∷◌ c s')
    ] in
    if starts_with s line then some (text <> String.◌∷◌ c s) else rest

-- `content.insert(content.find(line) - 1, text)`; `none` if the line is found at position 0, where the
-- exception ends the program.
unfoldable pub insert_one_before : String → String → String → Option String
insert_one_before line text content =
    if starts_with content line then none else insert_later line text content

-- What became of the call.
pub data Pushed : Type 0 where
  returned : Bool → Pushed
  terminated : Pushed

unfoldable pub push_content : String → String → String → M Pushed
push_content file_path value file_content =
    elim (find_if is_repo_line (make_split_view file_content "\n")) [
      | none ↦ pure (returned false)
      | some line ↦ elim (insert_one_before line ("\n" <> value <> "\n") file_content) [
        | none ↦ pure terminated
        | some content ↦ do
          written ← create_file_for_overwrite file_path content
          pure (returned written)
      ]
    ]

unfoldable pub push_repos_front : String → String → M Pushed
push_repos_front file_path value = do
  file_content ← read_whole_file file_path
  if is_empty file_content then pure (returned false) else push_content file_path value file_content

unfoldable pub get_repo_list : String → M (List String)
get_repo_list file_path = do
  file_content ← read_whole_file file_path
  pure (if is_empty file_content then [] else keep_if is_repo_line (split file_content "\n"))
