-- ===== src/Boot/Initcpio.antt =====
-- gucc/src/initcpio.cpp and gucc/include/gucc/initcpio.hpp: the editor of mkinitcpio.conf.
pub mod Parsing
pub mod Editing
pub mod Hooks
pub mod Stored
use new_cli_installer.Base.{
  String, Char, ◌==◌, ◌<>◌, Bool, true, false, not, ◌&&◌, Option, none, some, List, [], ◌∷◌, ◌++◌,
  map, if◌then◌else◌, is_empty, same_char, starts_with, contains, keep_if,
}
use new_cli_installer.Lines.{split, join, make_split_view}
use new_cli_installer.Sys.{M, ask, pure, ◌>>=◌, exists}
use new_cli_installer.Sys.Io.{read_whole_file, create_file_for_overwrite}

pub record Initcpio : Type 0 where
  pub modules : List String
  pub files : List String
  pub hooks : List String
  pub m_file_path : String

unfoldable pub modify_initcpio_line : String → String → String → String → String
modify_initcpio_line line modules files hooks =
    if starts_with line "MODULES"
    then "MODULES=(" <> modules <> ")"
    else if starts_with line "FILES"
    then "FILES=(" <> files <> ")"
    else if starts_with line "HOOKS"
    then "HOOKS=(" <> hooks <> ")"
    else line

-- The lines of the file are rewritten and joined as the file had them.
unfoldable pub modify_initcpio_fields : String → String → String → String → String
modify_initcpio_fields file_content modules files hooks =
    join (map (λ line. modify_initcpio_line line modules files hooks) (split file_content "\n"))
      "\n"

unfoldable pub file_exists : String → M Bool
file_exists path = ask (exists path) (λ os log. os.succeeds log (exists path))

unfoldable pub write : Initcpio → M Bool
write s = do
  there ← file_exists s.m_file_path
  if not there then pure false else do
    file_content ← read_whole_file s.m_file_path
    if is_empty file_content
        then pure false
        else create_file_for_overwrite s.m_file_path (
            modify_initcpio_fields file_content (join s.modules " ") (join s.files " ")
              (join s.hooks " "))

-- The text behind the first such character.
unfoldable pub behind : Char → String → Option String
behind bracket String.[] = none
behind bracket (String.◌∷◌ c s) = if same_char c bracket then some s else behind bracket s

-- The text in front of the first such character.
unfoldable pub before : Char → String → String
before bracket String.[] = ""
before bracket (String.◌∷◌ c s) =
    let rest = String.◌∷◌ c (before bracket s) in if same_char c bracket then "" else rest

-- Whether the first closing bracket stands before the first opening one.
unfoldable pub closes_first : String → Bool
closes_first String.[] = false
closes_first (String.◌∷◌ c s) =
    if same_char c ")" then true else if same_char c "(" then false else closes_first s

-- `parse_line` between its brackets. The length is counted back from the closing bracket; where that
-- stands first, it wraps around, and the text is taken to its end.
unfoldable pub parse_line : String → List String
parse_line line = elim (behind "(" line) [
  | none ↦ []
  | some rest ↦ elim (behind ")" line) [
    | none ↦ []
    | some _ ↦ split (if closes_first line then rest else before ")" rest) " "
  ]
]

unfoldable pub parse_field : String → Initcpio → Initcpio
parse_field line s =
    if starts_with line "MODULES"
    then record s { modules = parse_line line }
    else if starts_with line "FILES"
    then record s { files = parse_line line }
    else if starts_with line "HOOKS"
    then record s { hooks = parse_line line }
    else s

unfoldable pub parse_fields : List String → Initcpio → Initcpio
parse_fields [] s = s
parse_fields (line ∷ lines) s = parse_fields lines (parse_field line s)

-- The state after the call, and whether the file could be read.
unfoldable pub parse_file : Initcpio → M (Bool × Initcpio)
parse_file s = do
  there ← file_exists s.m_file_path
  if not there then pure (false, s) else do
    file_content ← read_whole_file s.m_file_path
    if is_empty file_content
        then pure (false, s)
        else pure (true, parse_fields (make_split_view file_content "\n") s)

abbrev pub save : Initcpio → M (Bool × Initcpio)
save s = do written ← write s; pure (written, s)

-- What an operation does with the fields that it has read: `none` if there is nothing to write.
unfoldable pub edit : (Initcpio → Option Initcpio) → Initcpio → M (Bool × Initcpio)
edit change s = do
  parsed ← parse_file s
  if not parsed.0
      then pure parsed
      else elim (change parsed.1) [ none ↦ pure (false, parsed.1) | some s' ↦ save s' ]

-- The elements that are not there yet.
unfoldable pub missing : List String → List String → List String
missing present elements = keep_if (λ el. not (contains present el)) elements

-- Inserts in front of the first `needle`, else at the end.
unfoldable pub insert_before : String → List String → List String → List String
insert_before needle elements [] = elements
insert_before needle elements (x ∷ xs) =
    let rest = x ∷ insert_before needle elements xs in
    if x == needle then elements ++ x ∷ xs else rest

-- Erases the first such element; `none` if there is none.
unfoldable pub erase_first : String → List String → Option (List String)
erase_first needle [] = none
erase_first needle (x ∷ xs) =
    let rest : Option (List String) = elim (erase_first needle xs) [
      | none ↦ none
      | some xs' ↦ some (x ∷ xs')
    ] in
    if x == needle then some xs else rest

unfoldable pub add_module : String → Initcpio → Option Initcpio
add_module module_name s =
    if contains s.modules module_name
    then none
    else some (record s { modules = s.modules ++ module_name ∷ [] })

unfoldable pub add_file : String → Initcpio → Option Initcpio
add_file file s =
    if contains s.files file then none else some (record s { files = s.files ++ file ∷ [] })

unfoldable pub add_hook : String → Initcpio → Option Initcpio
add_hook hook s =
    if contains s.hooks hook then none else some (record s { hooks = s.hooks ++ hook ∷ [] })

unfoldable pub add_hooks : List String → Initcpio → Option Initcpio
add_hooks hook s = elim (missing s.hooks hook) [
  | [] ↦ none
  | el ∷ els ↦ some (record s { hooks = s.hooks ++ el ∷ els })
]

unfoldable pub place_hook : String → String → Initcpio → Option Initcpio
place_hook needle hook s =
    if contains s.hooks hook
    then none
    else some (record s { hooks = insert_before needle (hook ∷ []) s.hooks })

unfoldable pub place_hooks : String → List String → Initcpio → Option Initcpio
place_hooks needle hook s = elim (missing s.hooks hook) [
  | [] ↦ none
  | el ∷ els ↦ some (record s { hooks = insert_before needle (el ∷ els) s.hooks })
]

unfoldable pub drop_module : String → Initcpio → Option Initcpio
drop_module module_name s = elim (erase_first module_name s.modules) [
  | none ↦ none
  | some modules ↦ some (record s { modules = modules })
]

unfoldable pub drop_hook : String → Initcpio → Option Initcpio
drop_hook hook s = elim (erase_first hook s.hooks) [
  | none ↦ none
  | some hooks ↦ some (record s { hooks = hooks })
]

unfoldable pub append_module : String → Initcpio → M (Bool × Initcpio)
append_module module_name = edit (add_module module_name)

unfoldable pub append_file : String → Initcpio → M (Bool × Initcpio)
append_file file = edit (add_file file)

unfoldable pub append_hook : String → Initcpio → M (Bool × Initcpio)
append_hook hook = edit (add_hook hook)

unfoldable pub append_hooks : List String → Initcpio → M (Bool × Initcpio)
append_hooks hook = edit (add_hooks hook)

unfoldable pub insert_hook : String → String → Initcpio → M (Bool × Initcpio)
insert_hook needle hook = edit (place_hook needle hook)

unfoldable pub insert_hooks : String → List String → Initcpio → M (Bool × Initcpio)
insert_hooks needle hook = edit (place_hooks needle hook)

unfoldable pub remove_module : String → Initcpio → M (Bool × Initcpio)
remove_module module_name = edit (drop_module module_name)

unfoldable pub remove_hook : String → Initcpio → M (Bool × Initcpio)
remove_hook hook = edit (drop_hook hook)
