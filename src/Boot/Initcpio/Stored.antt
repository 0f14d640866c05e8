-- ===== src/Boot/Initcpio/Stored.antt =====
-- An operation on a configuration whose file system keeps what is written.
use new_cli_installer.Base.{
  String, ◌==◌, ◌<>◌, ◌≡◌, refl, ap, ◌∙◌, true, false, Option, none, some, List, [], ◌∷◌, ◌++◌, map,
  if◌then◌else◌, is_empty, starts_with, eq_refl, contains, value_or, Bool-cases, inl, inr,
}
use new_cli_installer.Lines.{split, join, make_split_view}
use new_cli_installer.Lines.Split.{join-split}
use new_cli_installer.Boot.Initcpio.{
  Initcpio, modify_initcpio_fields, modify_initcpio_line, parse_field, parse_fields, parse_file,
  file_exists, write, edit, add_hook, append_hook,
}
use new_cli_installer.Boot.Initcpio.Editing.{
  IsWritable, has_field, parse_fields-modify_initcpio_fields,
}
use new_cli_installer.Sys.{
  Os, Log, Event, system, popen, read, exists, is_regular_file, create_directories, download,
  copy_file, rename, permissions, spawn, is_directory, create_directory, remove, umount, dialog,
  mount,
}
use new_cli_installer.Sys as Sys
use new_cli_installer.Sys.Io.{read_whole_file, create_file_for_overwrite}

-- The text that an event writes to a file.
abbrev written : String → Event → Option String
written path (Sys.write q text) = if q == path then some text else none
written path (system c) = none
written path (popen c) = none
written path (read q) = none
written path (exists q) = none
written path (is_regular_file q) = none
written path (create_directories q) = none
written path (download q) = none
written path (copy_file q r) = none
written path (rename q r) = none
written path (permissions q r) = none
written path (spawn args) = none
written path (is_directory q) = none
written path (create_directory q) = none
written path (remove q) = none
written path (umount q) = none
written path (dialog q) = none
written path (mount q r) = none

-- The content of a file after a log: what was last written, else what it was.
abbrev pub file_at : String → String → Log → String
file_at path content [] = content
file_at path content (e ∷ log) = value_or (written path e) (file_at path content log)

-- The file is there, it can be written, and it reads as what was last written to it.
pub record Keeps (os : Os) (path content : String) : Type 0 where
  pub there : (log : Log) → os.succeeds log (exists path) ≡ true
  pub writes : (log : Log) (text : String) → os.succeeds log (Sys.write path text) ≡ true
  pub reads : (log : Log) → os.content_of log path ≡ some (file_at path content log)

module _ (os : Os) (path content : String) (k : Keeps os path content) where
  parse_file_kept :
      (s : Initcpio) (log : Log)
      → s.m_file_path ≡ path
      → is_empty (file_at path content log) ≡ false
      → parse_file s os log ≡ (
        (true, parse_fields (make_split_view (file_at path content log) "\n") s),
        read path ∷ exists path ∷ log,
      )
  unfolding parse_file file_exists read_whole_file
  parse_file_kept s log p n = rw (p, k.there log, k.reads (exists path ∷ log)) (rw n)

  write_kept :
      (s : Initcpio) (log : Log)
      → s.m_file_path ≡ path
      → is_empty (file_at path content log) ≡ false
      → let text =
          modify_initcpio_fields
            (file_at path content log)
            (join s.modules " ")
            (join s.files " ")
            (join s.hooks " ") in
        write s os log ≡ (true, Sys.write path text ∷ read path ∷ exists path ∷ log)
  unfolding write file_exists read_whole_file create_file_for_overwrite
  write_kept s log p n = rw (p, k.there log, k.reads (exists path ∷ log)) (rw n (rw (k.writes)))

is_empty-join :
    (f : String → String) (lines : List String)
    → ((line : String) → is_empty line ≡ false → is_empty (f line) ≡ false)
    → is_empty (join lines "\n") ≡ false
    → is_empty (join (map f lines) "\n") ≡ false
unfolding join
is_empty-join f [] g h = absurd (cc)
is_empty-join f (p ∷ []) g h = g p h
is_empty-join f (p ∷ q ∷ ps) g h = before_newline (f p) (join (f q ∷ map f ps) "\n")
  where
    before_newline : (x y : String) → is_empty (x <> String.◌∷◌ "\n" y) ≡ false
    before_newline String.[] y = unfold ◌<>◌ in refl
    before_newline (String.◌∷◌ c x) y = unfold ◌<>◌ in refl

is_empty-modify_initcpio_line :
    (m f h line : String)
    → is_empty line ≡ false
    → is_empty (modify_initcpio_line line m f h) ≡ false
unfolding modify_initcpio_line starts_with ◌<>◌
is_empty-modify_initcpio_line m f h line n = elim (Bool-cases (starts_with line "MODULES")) [
  | inl e ↦ rw e refl
  | inr a ↦ elim (Bool-cases (starts_with line "FILES")) [
    | inl e ↦ rw (a, e) refl
    | inr b ↦ elim (Bool-cases (starts_with line "HOOKS")) [
      | inl e ↦ rw (a, b, e) refl
      | inr c ↦ rw (a, b, c) n
    ]
  ]
]

is_empty-modify_initcpio_fields :
    (m f h text : String)
    → is_empty text ≡ false
    → is_empty (modify_initcpio_fields text m f h) ≡ false
unfolding modify_initcpio_fields
is_empty-modify_initcpio_fields m f h text n =
    is_empty-join (λ line. modify_initcpio_line line m f h) (split text "\n")
      (is_empty-modify_initcpio_line m f h) (ap is_empty (join-split text "\n") ∙ n)

parse_field-m_file_path :
    (line : String) (s : Initcpio) → (parse_field line s).m_file_path ≡ s.m_file_path
unfolding parse_field
parse_field-m_file_path line s = elim (Bool-cases (starts_with line "MODULES")) [
  | inl e ↦ rw e refl
  | inr a ↦ elim (Bool-cases (starts_with line "FILES")) [
    | inl e ↦ rw (a, e) refl
    | inr b ↦ elim (Bool-cases (starts_with line "HOOKS")) [
      | inl e ↦ rw (a, b, e) refl
      | inr c ↦ rw (a, b, c) refl
    ]
  ]
]

parse_fields-m_file_path :
    (lines : List String) (s : Initcpio) → (parse_fields lines s).m_file_path ≡ s.m_file_path
unfolding parse_fields
parse_fields-m_file_path [] s = refl
parse_fields-m_file_path (line ∷ lines) s =
    parse_fields-m_file_path lines (parse_field line s) ∙ parse_field-m_file_path line s

-- The fields that an operation reads from a text, and the same with one more hook.
abbrev pub fields_of : String → Initcpio → Initcpio
fields_of text s = parse_fields (make_split_view text "\n") s

abbrev pub with_hook : String → Initcpio → Initcpio
with_hook hook s = record s { hooks = s.hooks ++ hook ∷ [] }

-- What is read from a text in which the fields of `q` were written over those of the lines it has.
abbrev pub overlaid : String → Initcpio → Initcpio → Initcpio
overlaid text q t =
    let lines = split text "\n" in
    record t {
      modules = if has_field "MODULES" lines then q.modules else t.modules;
      files = if has_field "FILES" lines then q.files else t.files;
      hooks = if has_field "HOOKS" lines then q.hooks else t.hooks;
    }

-- The text that is written for the fields.
new_text : Initcpio → String → String
new_text q text =
    modify_initcpio_fields text (join q.modules " ") (join q.files " ") (join q.hooks " ")

append_hook_kept :
    (os : Os) (path content : String)
    → Keeps os path content
    → (s : Initcpio) (hook : String) (log : Log) → s.m_file_path ≡ path
    → is_empty (file_at path content log) ≡ false
    → contains (fields_of (file_at path content log) s).hooks hook ≡ false
    → let q = with_hook hook (fields_of (file_at path content log) s) in
      append_hook hook s os log ≡ (
        (true, q),
        Sys.write path (new_text q (file_at path content log))
            ∷ read path
            ∷ exists path
            ∷ read path
            ∷ exists path
            ∷ log,
      )
unfolding append_hook edit add_hook new_text
append_hook_kept os path content k s hook log p n absent =
    let text = file_at path content log in
    let q = with_hook hook (fields_of text s) in
    let log' : Log = read path ∷ exists path ∷ log in
    let same : q.m_file_path ≡ path = parse_fields-m_file_path (make_split_view text "\n") s ∙ p in
    rw (
      parse_file_kept os path content k s log p n,
      absent,
      write_kept os path content k q log' same n,
    )

parse_new_text :
    (os : Os) (path content : String)
    → Keeps os path content
    → (q t : Initcpio) (text : String) (log : Log) → t.m_file_path ≡ path
    → is_empty text ≡ false
    → IsWritable q
    → (parse_file t os (Sys.write path (new_text q text) ∷ log)).0 ≡ (true, overlaid text q t)
unfolding new_text
parse_new_text os path content k q t text log pt n w =
    let log' : Log = Sys.write path (new_text q text) ∷ log in
    let here : file_at path content log' ≡ new_text q text = rw (eq_refl path) refl in
    let more =
      is_empty-modify_initcpio_fields (join q.modules " ") (join q.files " ") (join q.hooks " ")
        text n in
    ap (λ x. x.0) (parse_file_kept os path content k t log' pt (ap is_empty here ∙ more))
    ∙ ap (λ x. (true, fields_of x t)) here
    ∙ ap (λ x. (true, x)) (parse_fields-modify_initcpio_fields q t text w)

-- A hook is appended to a configuration whose file is there, is not empty, can be written and reads as
-- what was last written to it. If the fields read do not have the hook and all words can be written,
-- the call returns true with the hook behind the others, and whoever parses the file behind it reads
-- these fields, as far as the file has lines for them.
pub append_hook-parse_file :
    (os : Os) (path content : String) (s t : Initcpio) (hook : String) (log : Log)
    → Keeps os path content
    → s.m_file_path ≡ path
    → t.m_file_path ≡ path
    → is_empty (file_at path content log) ≡ false
    → contains (fields_of (file_at path content log) s).hooks hook ≡ false
    → IsWritable (with_hook hook (fields_of (file_at path content log) s))
    → let q = with_hook hook (fields_of (file_at path content log) s) in
      ((append_hook hook s os log).0 ≡ (true, q))
      × ((parse_file t os (append_hook hook s os log).1).0
          ≡ (true, overlaid (file_at path content log) q t))
append_hook-parse_file os path content s t hook log k ps pt n absent w =
    let text = file_at path content log in
    let q = with_hook hook (fields_of text s) in
    let r = append_hook_kept os path content k s hook log ps n absent in
    (
      ap (λ x. x.0) r,
      ap (λ l. (parse_file t os l).0) (ap (λ x. x.1) r)
          ∙ parse_new_text os path content k q t text
              (read path ∷ exists path ∷ read path ∷ exists path ∷ log) pt n w,
    )
