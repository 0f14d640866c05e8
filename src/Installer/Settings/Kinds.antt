-- ===== src/Installer/Settings/Kinds.antt =====
-- Reading settings.json leaves every setting with the alternative of its kind.
use new_cli_installer.Base.{
  String, ◌≡◌, refl, Bool, ◌&&◌, List, [], ◌∷◌, All, Bool-cases, Option-cases, inl, inr,
}
use new_cli_installer.Base.Decimal.{ℤ}
use new_cli_installer.Sys.{Os}
use new_cli_installer.Installer.State.{
  Config, text, number, texts, put, State, as_text, as_number, get_text, is_set,
}
use new_cli_installer.Installer.State.Kinds.{
  kind_of, text_kind, number_kind, HasKinds, put-HasKinds,
}
use new_cli_installer.Installer.Settings.{
  RapidJson, Reading, going, refused, ended, ◌and_thence◌, Field, first_fields, middle_fields,
  last_fields, string_member, has_member, read_text, read_texts, read_flag, read_menus,
  read_entries, read_partitions, read_user, read_fields, read_in_mode, read_headless, read_document,
  result, parse_config,
}
use new_cli_installer.Installer.Settings.Fields.{Entries-cases}

-- The settings at the end, however it ended.
abbrev pub settled : Reading → Config
settled (going config) = config
settled (refused config) = config
settled (ended config) = config

and_thence-HasKinds :
    (r : Reading) (f : Config → Reading)
    → HasKinds (settled r)
    → ((c : Config) → HasKinds c → HasKinds (settled (f c)))
    → HasKinds (settled (r and_thence f))
and_thence-HasKinds (going c) f h k = k c h
and_thence-HasKinds (refused c) f h k = h
and_thence-HasKinds (ended c) f h k = h

put_text-HasKinds :
    (key t : String) (c : Config)
    → kind_of key ≡ text_kind
    → HasKinds c
    → HasKinds (put key (text t) c)
put_text-HasKinds key t c e h = put-HasKinds key (text t) c (rw e refl) h

put_number-HasKinds :
    (key : String) (n : ℤ) (c : Config)
    → kind_of key ≡ number_kind
    → HasKinds c
    → HasKinds (put key (number n) c)
put_number-HasKinds key n c e h = put-HasKinds key (number n) c (rw e refl) h

AreTexts : List Field → Type 0
AreTexts = All (λ field. kind_of field.key ≡ text_kind)

module _ (json : RapidJson) (doc : json.Json) where
  read_text-HasKinds :
      (headless : Bool) (field : Field) (c : Config)
      → kind_of field.key ≡ text_kind
      → HasKinds c
      → HasKinds (settled (read_text json doc headless field c))
  unfolding read_text
  read_text-HasKinds headless field c e h = elim (Option-cases (json.find_member doc field.name)) [
    | inl gone ↦ elim (Bool-cases (field.required && headless)) [
      | inl needed ↦ rw (read_text, gone, needed) h
      | inr free ↦ rw (read_text, gone, free) h
    ]
    | inr (v, there) ↦ elim (Option-cases (json.as_string v)) [
      | inl other ↦ rw (read_text, there, other) h
      | inr (t, is) ↦ rw (read_text, there, is) (put_text-HasKinds field.key t c e h)
    ]
  ]

  read_texts-HasKinds :
      (headless : Bool) (fields : List Field) (c : Config)
      → AreTexts fields
      → HasKinds c
      → HasKinds (settled (read_texts json doc headless fields c))
  unfolding read_texts AreTexts
  read_texts-HasKinds headless [] c e h = h
  read_texts-HasKinds headless (field ∷ fields) c e h =
      and_thence-HasKinds (read_text json doc headless field c)
        (read_texts json doc headless fields) (read_text-HasKinds headless field c e.0 h)
        (λ c'. read_texts-HasKinds headless fields c' e.1)

  read_flag-HasKinds :
      (name key : String) (c : Config)
      → kind_of key ≡ number_kind
      → HasKinds c
      → HasKinds (settled (read_flag json doc name key c))
  unfolding read_flag
  read_flag-HasKinds name key c e h = elim (Option-cases (json.find_member doc name)) [
    | inl gone ↦ rw (read_flag, gone) h
    | inr (v, there) ↦ elim (Option-cases (json.as_bool v)) [
      | inl other ↦ rw (read_flag, there, other) h
      | inr (b, is) ↦ rw (read_flag, there, is) (put_number-HasKinds key _ c e h)
    ]
  ]

  read_menus-HasKinds : (c : Config) → HasKinds c → HasKinds (settled (read_menus json doc c))
  unfolding read_menus
  read_menus-HasKinds c h = elim (Option-cases (json.find_member doc "menus")) [
    | inl gone ↦ rw (read_menus, gone) h
    | inr (v, there) ↦ elim (Option-cases (json.as_int v)) [
      | inl other ↦ rw (read_menus, there, other) h
      | inr (n, is) ↦
          rw (read_menus, there, is) (put_number-HasKinds "menus" n c (unfold kind_of in refl) h)
    ]
  ]

  read_partitions-HasKinds :
      (headless : Bool) (c : Config)
      → HasKinds c
      → HasKinds (settled (read_partitions json doc headless c))
  unfolding read_partitions
  read_partitions-HasKinds headless c h = elim (Option-cases (as_text (c "FILESYSTEM_NAME"))) [
    | inl bad ↦ rw (read_partitions, bad) h
    | inr (root_fstype, e) ↦ elim (Option-cases (json.find_member doc "partitions")) [
      | inl gone ↦ elim (Bool-cases headless) [
        | inl set ↦ rw (read_partitions, e, gone, set) h
        | inr unset ↦ rw (read_partitions, e, gone, unset) h
      ]
      | inr (v, there) ↦ elim (Option-cases (json.as_array v)) [
        | inl other ↦ rw (read_partitions, e, there, other) h
        | inr (ps, array) ↦ elim (Entries-cases (read_entries json ps root_fstype)) [
          | inl (l, r) ↦
              rw (read_partitions, e, there, array, r)
                (put-HasKinds "READY_PARTITIONS" (texts l) c (unfold kind_of in refl) h)
          | inr (inl r) ↦ rw (read_partitions, e, there, array, r) h
          | inr (inr r) ↦ rw (read_partitions, e, there, array, r) h
        ]
      ]
    ]
  ]

  read_user-HasKinds :
      (headless : Bool) (c : Config)
      → HasKinds c
      → HasKinds (settled (read_user json doc headless c))
  unfolding read_user kind_of
  read_user-HasKinds headless c h =
      elim (Bool-cases (
        has_member json doc "user_name"
        && (has_member json doc "user_pass" && has_member json doc "user_shell"))) [
          | inr gone ↦ elim (Bool-cases headless) [
            | inl set ↦ rw (read_user, gone, set) h
            | inr unset ↦ rw (read_user, gone, unset) h
          ]
          | inl there ↦ elim (Option-cases (string_member json doc "user_name")) [
            | inl bad ↦ rw (read_user, there, bad) h
            | inr (n, name) ↦ elim (Option-cases (string_member json doc "user_pass")) [
              | inl bad ↦ rw (read_user, there, name, bad) h
              | inr (p, pass) ↦ elim (Option-cases (string_member json doc "user_shell")) [
                | inl bad ↦ rw (read_user, there, name, pass, bad) h
                | inr (s, shell) ↦
                    rw (read_user, there, name, pass, shell)
                      (put_text-HasKinds "USER_SHELL" s _ refl (
                        put_text-HasKinds "USER_PASS" p _ refl
                          (put_text-HasKinds "USER_NAME" n c refl h)))
              ]
            ]
          ]
        ]

  read_fields-HasKinds :
      (headless : Bool) (c : Config)
      → HasKinds c
      → HasKinds (settled (read_fields json doc headless c))
  unfolding read_fields AreTexts kind_of
  read_fields-HasKinds headless c h =
      let r1 = read_texts json doc headless first_fields c in
      let r2 = r1 and_thence read_partitions json doc headless in
      let r3 = r2 and_thence read_texts json doc headless middle_fields in
      let r4 = r3 and_thence read_user json doc headless in
      let h1 = read_texts-HasKinds headless first_fields c (refl, (refl, tt)) h in
      let h2 =
        and_thence-HasKinds r1 (read_partitions json doc headless) h1
          (read_partitions-HasKinds headless) in
      let h3 = and_thence-HasKinds r2 (read_texts json doc headless middle_fields) h2 (λ c'.
        read_texts-HasKinds headless middle_fields c' (refl, (refl, (refl, (refl, (refl, tt)))))) in
      let h4 =
        and_thence-HasKinds r3 (read_user json doc headless) h3 (read_user-HasKinds headless) in
      and_thence-HasKinds r4 (read_texts json doc headless last_fields) h4 (λ c'.
        read_texts-HasKinds headless last_fields c' (refl, (refl, (refl, (refl, (refl, tt))))))

  read_in_mode-HasKinds : (c : Config) → HasKinds c → HasKinds (settled (read_in_mode json doc c))
  unfolding read_in_mode
  read_in_mode-HasKinds c h = elim (Option-cases (as_number (c "HEADLESS_MODE"))) [
    | inl bad ↦ rw (read_in_mode, bad) h
    | inr (n, e) ↦ elim (Option-cases (as_number (c "SERVER_MODE"))) [
      | inl bad ↦ rw (read_in_mode, e, bad) h
      | inr (m, e') ↦
          rw (read_in_mode, e, e')
            (and_thence-HasKinds (read_flag json doc "server_mode" "SERVER_MODE" c)
              (read_fields json doc (is_set n))
              (read_flag-HasKinds "server_mode" "SERVER_MODE" c (unfold kind_of in refl) h)
              (read_fields-HasKinds (is_set n)))
    ]
  ]

  read_headless-HasKinds : (c : Config) → HasKinds c → HasKinds (settled (read_headless json doc c))
  unfolding read_headless
  read_headless-HasKinds c h = elim (Option-cases (as_number (c "HEADLESS_MODE"))) [
    | inl bad ↦ rw (read_headless, bad) h
    | inr (n, e) ↦
        rw (read_headless, e)
          (read_flag-HasKinds "headless_mode" "HEADLESS_MODE" c (unfold kind_of in refl) h)
  ]

  read_document-HasKinds : (c : Config) → HasKinds c → HasKinds (settled (read_document json doc c))
  unfolding read_document
  read_document-HasKinds c h = elim (Bool-cases (json.is_object doc)) [
    | inr bad ↦ rw (read_document, bad) h
    | inl object ↦
        rw (read_document, object)
          (and_thence-HasKinds (read_menus json doc c and_thence read_headless json doc)
            (read_in_mode json doc)
            (and_thence-HasKinds (read_menus json doc c) (read_headless json doc)
              (read_menus-HasKinds c h) read_headless-HasKinds)
            read_in_mode-HasKinds)
  ]

  result-settled : (r : Reading) → (result json r).1 ≡ settled r
  result-settled (going c) = refl
  result-settled (refused c) = refl
  result-settled (ended c) = refl

-- parse_config leaves every setting with the alternative of its kind, in whatever way it ends, if
-- they had it before.
pub parse_config-HasKinds :
    (json : RapidJson) (os : Os) (s : State)
    → HasKinds s.config
    → HasKinds (parse_config json os s).1.config
unfolding parse_config get_text
parse_config-HasKinds json os s h = elim (Option-cases (as_text (s.config "SYSTEM"))) [
  | inl bad ↦ rw bad h
  | inr (t, e) ↦ elim (Option-cases (os.content_of s.log "settings.json")) [
    | inl gone ↦ rw (e, gone) h
    | inr (stream, content) ↦
        let doc = json.parse_stream stream in
        rw (e, content, result-settled json doc (read_document json doc s.config))
          (read_document-HasKinds json doc s.config h)
  ]
]
