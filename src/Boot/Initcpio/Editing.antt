-- ===== src/Boot/Initcpio/Editing.antt =====
-- A configuration that was rewritten is read back field by field.
use new_cli_installer.Base.{
  String, ◌<>◌, ◌≡◌, refl, ap, ◌∙◌, Bool, true, false, not, List, [], ◌∷◌, map, All, any, arith,
  Bool-cases, inl, inr, starts_with, is_empty, keep_if, if◌then◌else◌,
}
use new_cli_installer.Lines.{split, join, make_split_view}
use new_cli_installer.Lines.Split.{Lacks, lacks, lacks_sound, pieces-Lacks}
use new_cli_installer.Lines.Words.{Lacks-<>, view-join}
use new_cli_installer.Boot.Initcpio.{
  Initcpio, modify_initcpio_line, modify_initcpio_fields, parse_line, parse_field, parse_fields,
}
use new_cli_installer.Boot.Initcpio.Parsing.{
  IsWord, join-Lacks, Words-Lacks, modules_line, files_line, hooks_line,
}

-- All words of the three fields can be written.
pub record IsWritable (s : Initcpio) : Type 0 where
  pub modules : All IsWord s.modules
  pub files : All IsWord s.files
  pub hooks : All IsWord s.hooks

-- The rewriting of one line with the fields of the object.
abbrev pub rewritten : Initcpio → String → String
rewritten s line =
    modify_initcpio_line line (join s.modules " ") (join s.files " ") (join s.hooks " ")

-- Whether some line of the content is that of a field.
abbrev pub has_field : String → List String → Bool
has_field name lines = any (λ line. starts_with line name) lines

-- A line sets the field that it is the line of.
set_field : Initcpio → String → Initcpio → Initcpio
set_field s line t =
    if starts_with line "MODULES"
    then record t { modules = s.modules }
    else if starts_with line "FILES"
    then record t { files = s.files }
    else if starts_with line "HOOKS"
    then record t { hooks = s.hooks }
    else t

set_fields : Initcpio → List String → Initcpio → Initcpio
set_fields s [] t = t
set_fields s (line ∷ lines) t = set_fields s lines (set_field s line t)

parse_modules :
    (x : String) (t : Initcpio)
    → parse_field ("MODULES=(" <> x) t ≡ record t { modules = parse_line ("MODULES=(" <> x) }
unfolding parse_field starts_with ◌<>◌
parse_modules x t = refl

parse_files :
    (x : String) (t : Initcpio)
    → parse_field ("FILES=(" <> x) t ≡ record t { files = parse_line ("FILES=(" <> x) }
unfolding parse_field starts_with ◌<>◌
parse_files x t = refl

parse_hooks :
    (x : String) (t : Initcpio)
    → parse_field ("HOOKS=(" <> x) t ≡ record t { hooks = parse_line ("HOOKS=(" <> x) }
unfolding parse_field starts_with ◌<>◌
parse_hooks x t = refl

module _ (s : Initcpio) (w : IsWritable s) where
  parse-rewritten :
      (line : String) (t : Initcpio) → parse_field (rewritten s line) t ≡ set_field s line t
  unfolding modify_initcpio_line set_field
  parse-rewritten line t = elim (Bool-cases (starts_with line "MODULES")) [
    | inl m ↦
        rw m (
          parse_modules _ t ∙ ap (λ l. record t { modules = l }) (modules_line s.modules w.modules))
    | inr nm ↦ elim (Bool-cases (starts_with line "FILES")) [
      | inl f ↦
          rw (nm, f)
            (parse_files _ t ∙ ap (λ l. record t { files = l }) (files_line s.files w.files))
      | inr nf ↦ elim (Bool-cases (starts_with line "HOOKS")) [
        | inl h ↦
            rw (nm, nf, h)
              (parse_hooks _ t ∙ ap (λ l. record t { hooks = l }) (hooks_line s.hooks w.hooks))
        | inr nh ↦ rw (nm, nf, nh) (unfold parse_field in rw (nm, nf, nh))
      ]
    ]
  ]

  parse_fields-rewritten :
      (lines : List String) (t : Initcpio)
      → parse_fields (map (rewritten s) lines) t ≡ set_fields s lines t
  unfolding parse_fields set_fields
  parse_fields-rewritten [] t = refl
  parse_fields-rewritten (line ∷ lines) t =
      ap (parse_fields (map (rewritten s) lines)) (parse-rewritten line t)
      ∙ parse_fields-rewritten lines (set_field s line t)

parse_fields-keep_if :
    (lines : List String) (t : Initcpio)
    → parse_fields (keep_if (λ p. not (is_empty p)) lines) t ≡ parse_fields lines t
unfolding parse_fields parse_field starts_with
parse_fields-keep_if [] t = refl
parse_fields-keep_if (String.[] ∷ lines) t = parse_fields-keep_if lines t
parse_fields-keep_if (String.◌∷◌ c s ∷ lines) t =
    parse_fields-keep_if lines (parse_field (String.◌∷◌ c s) t)

line-Lacks :
    (name : String) (ws : List String)
    → lacks "\n" name ≡ true
    → All IsWord ws
    → Lacks "\n" (name <> (join ws " " <> ")"))
line-Lacks name ws l h =
    Lacks-<> "\n" name _ (lacks_sound "\n" name l) (
      Lacks-<> "\n" (join ws " ") ")" (join-Lacks "\n" " " ws refl (Words-Lacks ws h).2) (refl, tt))

rewritten-Lacks :
    (s : Initcpio)
    → IsWritable s
    → (line : String) → Lacks "\n" line
    → Lacks "\n" (rewritten s line)
unfolding modify_initcpio_line
rewritten-Lacks s w line h = elim (Bool-cases (starts_with line "MODULES")) [
  | inl m ↦ rw m (line-Lacks "MODULES=(" s.modules refl w.modules)
  | inr nm ↦ elim (Bool-cases (starts_with line "FILES")) [
    | inl f ↦ rw (nm, f) (line-Lacks "FILES=(" s.files refl w.files)
    | inr nf ↦ elim (Bool-cases (starts_with line "HOOKS")) [
      | inl k ↦ rw (nm, nf, k) (line-Lacks "HOOKS=(" s.hooks refl w.hooks)
      | inr nk ↦ rw (nm, nf, nk) h
    ]
  ]
]

map-Lacks :
    (s : Initcpio)
    → IsWritable s
    → (lines : List String) → All (Lacks "\n") lines
    → All (Lacks "\n") (map (rewritten s) lines)
map-Lacks s w [] h = tt
map-Lacks s w (line ∷ lines) (h, hs) = (rewritten-Lacks s w line h, map-Lacks s w lines hs)

split-Lacks : (content : String) → All (Lacks "\n") (split content "\n")
unfolding split
split-Lacks String.[] = tt
split-Lacks (String.◌∷◌ c s) = pieces-Lacks "\n" (String.◌∷◌ c s)

not_files : (line : String) → starts_with line "MODULES" ≡ true → starts_with line "FILES" ≡ false
unfolding starts_with
not_files String.[] h = refl
not_files (String.◌∷◌ c s) h = ground arith

not_hooks : (line : String) → starts_with line "MODULES" ≡ true → starts_with line "HOOKS" ≡ false
unfolding starts_with
not_hooks String.[] h = refl
not_hooks (String.◌∷◌ c s) h = ground arith

files_not_hooks :
    (line : String) → starts_with line "FILES" ≡ true → starts_with line "HOOKS" ≡ false
unfolding starts_with
files_not_hooks String.[] h = refl
files_not_hooks (String.◌∷◌ c s) h = ground arith

if_same : {A : Type 0} (b : Bool) (a : A) → (if b then a else a) ≡ a
if_same true a = refl
if_same false a = refl

set_fields_lem :
    (s : Initcpio) (lines : List String) (t : Initcpio)
    → set_fields s lines t ≡ record t {
      modules = if has_field "MODULES" lines then s.modules else t.modules;
      files = if has_field "FILES" lines then s.files else t.files;
      hooks = if has_field "HOOKS" lines then s.hooks else t.hooks;
    }
unfolding set_fields set_field
set_fields_lem s [] t = refl
set_fields_lem s (line ∷ lines) t = elim (Bool-cases (starts_with line "MODULES")) [
  | inl m ↦
      rw (m, not_files line m, not_hooks line m)
        (set_fields_lem s lines (record t { modules = s.modules })
          ∙ ap
              (λ x. record t {
                modules = x;
                files = if has_field "FILES" lines then s.files else t.files;
                hooks = if has_field "HOOKS" lines then s.hooks else t.hooks;
              })
              (if_same (has_field "MODULES" lines) s.modules))
  | inr nm ↦ elim (Bool-cases (starts_with line "FILES")) [
    | inl f ↦
        rw (nm, f, files_not_hooks line f)
          (set_fields_lem s lines (record t { files = s.files })
            ∙ ap
                (λ x. record t {
                  modules = if has_field "MODULES" lines then s.modules else t.modules;
                  files = x;
                  hooks = if has_field "HOOKS" lines then s.hooks else t.hooks;
                })
                (if_same (has_field "FILES" lines) s.files))
    | inr nf ↦ elim (Bool-cases (starts_with line "HOOKS")) [
      | inl h ↦
          rw (nm, nf, h)
            (set_fields_lem s lines (record t { hooks = s.hooks })
              ∙ ap
                  (λ x. record t {
                    modules = if has_field "MODULES" lines then s.modules else t.modules;
                    files = if has_field "FILES" lines then s.files else t.files;
                    hooks = x;
                  })
                  (if_same (has_field "HOOKS" lines) s.hooks))
      | inr nh ↦ rw (nm, nf, nh) (set_fields_lem s lines t)
    ]
  ]
]

-- Reading a file that was rewritten: each of the three fields is the one that was written, if the
-- file has a line for it, else as it was before; here the words of the fields have no space, closing bracket
-- or newline in them.
pub parse_fields-modify_initcpio_fields :
    (s t : Initcpio) (content : String)
    → IsWritable s
    → let lines = split content "\n" in
      parse_fields
        (make_split_view
          (modify_initcpio_fields content
            (join s.modules " ")
            (join s.files " ")
            (join s.hooks " "))
          "\n")
        t
      ≡ record t {
        modules = if has_field "MODULES" lines then s.modules else t.modules;
        files = if has_field "FILES" lines then s.files else t.files;
        hooks = if has_field "HOOKS" lines then s.hooks else t.hooks;
      }
unfolding modify_initcpio_fields
parse_fields-modify_initcpio_fields s t content w =
    let lines = split content "\n" in
    ap (λ ls. parse_fields ls t)
      (view-join "\n" (map (rewritten s) lines) (map-Lacks s w lines (split-Lacks content)))
    ∙ parse_fields-keep_if (map (rewritten s) lines) t
    ∙ parse_fields-rewritten s w lines t
    ∙ set_fields_lem s lines t
