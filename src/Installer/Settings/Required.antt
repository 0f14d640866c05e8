-- ===== src/Installer/Settings/Required.antt =====
-- What a settings.json in HEADLESS mode has given once parse_config returns true.
use new_cli_installer.Base.{
  String, ◌≡◌, refl, ◌∙◌, ap, true, ◌&&◌, some, List, [], ◌∷◌, arith, All, Option-cases, Bool-cases,
  inl, inr,
}
use new_cli_installer.Base.Decimal.{pos}
use new_cli_installer.Installer.State.{
  Config, State, text, texts, number, put, as_text, as_number, get_text,
}
use new_cli_installer.Installer.Settings.{
  RapidJson, Reading, going, refused, ended, Field, required_field, first_fields, middle_fields,
  last_fields, all_ready, some_invalid, some_failed, string_member, has_member, read_texts,
  read_flag, read_menus, read_entries, read_partitions, read_user, read_fields, read_in_mode,
  read_headless, read_document, parse_config, result,
}
use new_cli_installer.Sys.{Os, read}
use new_cli_installer.Installer.Settings.Fields.{
  and_thence_going, Entries-cases, Held, Other, read_texts_keeps, read_texts-Held, All-Held-keep,
  texts_keep,
}

-- What HEADLESS mode requires: the members and the settings that they become.
abbrev pub required_members : List (String × String)
required_members =
    ("device", "DEVICE")
    ∷ ("fs_name", "FILESYSTEM_NAME")
    ∷ ("hostname", "HOSTNAME")
    ∷ ("locale", "LOCALE")
    ∷ ("xkbmap", "XKBMAP")
    ∷ ("timezone", "TIMEZONE")
    ∷ ("user_name", "USER_NAME")
    ∷ ("user_pass", "USER_PASS")
    ∷ ("user_shell", "USER_SHELL")
    ∷ ("root_pass", "ROOT_PASS")
    ∷ ("kernel", "KERNEL")
    ∷ ("desktop", "DE")
    ∷ ("bootloader", "BOOTLOADER")
    ∷ []

module _ (json : RapidJson) (doc : json.Json) where
  -- The partitions are there in HEADLESS mode.
  read_partitions_going :
      (c : Config) {c' : Config}
      → read_partitions json doc true c ≡ going c'
      → (ready_parts : List String) × (c' ≡ put "READY_PARTITIONS" (texts ready_parts) c)
  unfolding read_partitions
  read_partitions_going c {c'} h = elim (Option-cases (as_text (c "FILESYSTEM_NAME"))) [
    | inl bad ↦ absurd (cc (rw (read_partitions, bad) at h))
    | inr (root_fstype, e) ↦ elim (Option-cases (json.find_member doc "partitions")) [
      | inl gone ↦ absurd (cc (rw (read_partitions, e, gone) at h))
      | inr (v, there) ↦ elim (Option-cases (json.as_array v)) [
        | inl other ↦ absurd (cc (rw (read_partitions, e, there, other) at h))
        | inr (ps, array) ↦ by_entries root_fstype ps (rw (read_partitions, e, there, array) at h)
      ]
    ]
  ]
    where
      by_entries :
          (root_fstype : String) (ps : List json.Json)
          → (elim (read_entries json ps root_fstype) [
            | all_ready ready_parts ↦ going (put "READY_PARTITIONS" (texts ready_parts) c)
            | some_invalid ↦ refused c
            | some_failed ↦ ended c
          ])
            ≡ going c'
          → (ready_parts : List String) × (c' ≡ put "READY_PARTITIONS" (texts ready_parts) c)
      by_entries root_fstype ps e = elim (Entries-cases (read_entries json ps root_fstype)) [
        | inl (l, r) ↦ (l, cc (rw r at e))
        | inr (inl r) ↦ absurd (cc (rw r at e))
        | inr (inr r) ↦ absurd (cc (rw r at e))
      ]

  abbrev pub user_fields : List Field
  user_fields =
      required_field "user_name" "USER_NAME"
      ∷ required_field "user_pass" "USER_PASS"
      ∷ required_field "user_shell" "USER_SHELL"
      ∷ []

  read_user_going :
      (c : Config) {c' : Config}
      → read_user json doc true c ≡ going c'
      → All (Held json doc c') user_fields
        × ((k : String) → Other json doc k user_fields → c' k ≡ c k)
  unfolding read_user
  read_user_going c {c'} h =
      elim (Bool-cases (
        has_member json doc "user_name"
        && (has_member json doc "user_pass" && has_member json doc "user_shell"))) [
          | inr gone ↦ absurd (cc (rw (read_user, gone) at h))
          | inl there ↦ elim (Option-cases (string_member json doc "user_name")) [
            | inl bad ↦ absurd (cc (rw (read_user, there, bad) at h))
            | inr (n, name) ↦ elim (Option-cases (string_member json doc "user_pass")) [
              | inl bad ↦ absurd (cc (rw (read_user, there, name, bad) at h))
              | inr (p, pass) ↦ elim (Option-cases (string_member json doc "user_shell")) [
                | inl bad ↦ absurd (cc (rw (read_user, there, name, pass, bad) at h))
                | inr (s, shell) ↦
                    let put_user : Config =
                      put "USER_SHELL" (text s)
                        (put "USER_PASS" (text p) (put "USER_NAME" (text n) c)) in
                    let e : going put_user ≡ going c' =
                      rw (read_user, there, name, pass, shell) at h in
                    let e' : c' ≡ put_user = cc in
                    rw e' (
                      ((n, name, refl), ((p, pass, refl), ((s, shell, refl), tt))),
                      λ k o. rw (o.1.1.0, o.1.0, o.0) refl,
                    )
              ]
            ]
          ]
        ]

  -- Every field that is required is there behind each part of the function, and the partitions.
  abbrev pub AllStages : Config → Type 0
  AllStages c =
      All (Held json doc c) first_fields
      × All (Held json doc c) middle_fields
      × All (Held json doc c) user_fields
      × All (Held json doc c) last_fields
      × ((ready_parts : List String) × (c "READY_PARTITIONS" ≡ texts ready_parts))

  -- The parts of the function one after another.
  stages :
      (c c1 c2 c3 c4 : Config) {c' : Config}
      → read_texts json doc true first_fields c ≡ going c1
      → read_partitions json doc true c1 ≡ going c2
      → read_texts json doc true middle_fields c2 ≡ going c3
      → read_user json doc true c3 ≡ going c4
      → read_texts json doc true last_fields c4 ≡ going c'
      → AllStages c'
  stages c c1 c2 c3 c4 {c'} e1 e2 e3 e4 e5 =
      let (parts, set) = read_partitions_going c1 e2 in
      let (user, others) = read_user_going c3 e4 in
      let first1 = read_texts-Held json doc first_fields c e1 (ground arith) in
      let first2 = All-Held-keep json doc c1 c2 first_fields (rw set (refl, (refl, tt))) first1 in
      let ready2 : c2 "READY_PARTITIONS" ≡ texts parts = ap (λ d. d "READY_PARTITIONS") set in
      let first3 =
        All-Held-keep json doc c2 c3 first_fields
          (texts_keep json doc true middle_fields first_fields c2 e3 (ground arith)) first2 in
      let middle3 = read_texts-Held json doc middle_fields c2 e3 (ground arith) in
      let ready3 =
        read_texts_keeps json doc true middle_fields c2 "READY_PARTITIONS" e3 (ground arith)
        ∙ ready2 in
      let first4 =
        All-Held-keep json doc c3 c4 first_fields
          (others "DEVICE" (ground arith), (others "FILESYSTEM_NAME" (ground arith), tt)) first3 in
      let middle4 =
        All-Held-keep json doc c3 c4 middle_fields
          (
            others "MOUNT_OPTS" (ground arith),
            (
              others "HOSTNAME" (ground arith),
              (
                others "LOCALE" (ground arith),
                (others "XKBMAP" (ground arith), (others "TIMEZONE" (ground arith), tt)),
              ),
            ),
          )
          middle3 in
      let ready4 = others "READY_PARTITIONS" (ground arith) ∙ ready3 in
      let last : (keys : List Field)
          → All (λ field. Other json doc field.key last_fields) keys
          → All (Held json doc c4) keys
          → All (Held json doc c') keys =
        λ keys apart.
          All-Held-keep json doc c4 c' keys
            (texts_keep json doc true last_fields keys c4 e5 apart) in
      (
        last first_fields (ground arith) first4,
        last middle_fields (ground arith) middle4,
        last user_fields (ground arith) user,
        read_texts-Held json doc last_fields c4 e5 (ground arith),
        (
          parts,
          read_texts_keeps json doc true last_fields c4 "READY_PARTITIONS" e5 (ground arith)
              ∙ ready4,
        ),
      )

  read_fields-AllStages :
      (c : Config) {c' : Config} → read_fields json doc true c ≡ going c' → AllStages c'
  unfolding read_fields
  read_fields-AllStages c h =
      let (c4, h4, e5) = and_thence_going _ (read_texts json doc true last_fields) h in
      let (c3, h3, e4) = and_thence_going _ (read_user json doc true) h4 in
      let (c2, h2, e3) = and_thence_going _ (read_texts json doc true middle_fields) h3 in
      let (c1, e1, e2) = and_thence_going _ (read_partitions json doc true) h2 in
      stages c c1 c2 c3 c4 e1 e2 e3 e4 e5

  -- The text of every member is its setting, and the partitions are set.
  abbrev pub HasRequired : Config → Type 0
  HasRequired c =
      All
        (λ member.
          (t : String) × (string_member json doc member.0 ≡ some t) × (c member.1 ≡ text t))
        required_members
      × ((ready_parts : List String) × (c "READY_PARTITIONS" ≡ texts ready_parts))

  stages-HasRequired : (c : Config) → AllStages c → HasRequired c
  stages-HasRequired c
        (
          (device, (fs_name, _)),
          (_, (hostname, (locale, (xkbmap, (timezone, _))))),
          (user_name, (user_pass, (user_shell, _))),
          (root_pass, (kernel, (desktop, (bootloader, _)))),
          parts,
        ) =
      (
        (
          device,
          (
            fs_name,
            (
              hostname,
              (
                locale,
                (
                  xkbmap,
                  (
                    timezone,
                    (
                      user_name,
                      (user_pass, (user_shell, (root_pass, (kernel, (desktop, (bootloader, tt)))))),
                    ),
                  ),
                ),
              ),
            ),
          ),
        ),
        parts,
      )

  -- The document asks for HEADLESS mode.
  abbrev pub IsHeadless : Type 0
  IsHeadless =
      (v : json.Json) × (json.find_member doc "headless_mode" ≡ some v)
      × (json.as_bool v ≡ some true)

  read_in_mode-AllStages :
      (c : Config) {c' : Config}
      → c "HEADLESS_MODE" ≡ number (pos 1)
      → read_in_mode json doc c ≡ going c'
      → AllStages c'
  unfolding read_in_mode
  read_in_mode-AllStages c e h = elim (Option-cases (as_number (c "SERVER_MODE"))) [
    | inl bad ↦ absurd (cc (rw (read_in_mode, e, bad) at h))
    | inr (n, server) ↦
        let (c1, _, rest) =
          and_thence_going (read_flag json doc "server_mode" "SERVER_MODE" c)
            (read_fields json doc true) (rw (read_in_mode, e, server) at h) in
        read_fields-AllStages c1 rest
  ]

  read_headless_going :
      (c : Config) {c' : Config}
      → IsHeadless
      → read_headless json doc c ≡ going c'
      → c' "HEADLESS_MODE" ≡ number (pos 1)
  unfolding read_headless read_flag
  read_headless_going c {c'} (v, there, b) h = elim (Option-cases (as_number (c "HEADLESS_MODE"))) [
    | inl bad ↦ absurd (cc (rw (read_headless, bad) at h))
    | inr (n, e) ↦
        let set : going (put "HEADLESS_MODE" (number (pos 1)) c) ≡ going c' =
          rw (read_headless, e, read_flag, there, b) at h in
        let set' : c' ≡ put "HEADLESS_MODE" (number (pos 1)) c = cc in
        ap (λ d. d "HEADLESS_MODE") set'
  ]

  read_document-AllStages :
      (c : Config) {c' : Config} → IsHeadless → read_document json doc c ≡ going c' → AllStages c'
  unfolding read_document
  read_document-AllStages c headless h = elim (Bool-cases (json.is_object doc)) [
    | inr bad ↦ absurd (cc (rw (read_document, bad) at h))
    | inl object ↦
        let (c2, h2, e) =
          and_thence_going _ (read_in_mode json doc) (rw (read_document, object) at h) in
        let (c1, _, flag) = and_thence_going (read_menus json doc c) (read_headless json doc) h2 in
        read_in_mode-AllStages c2 (read_headless_going c1 headless flag) e
  ]

  by_result :
      (c : Config) (r : Reading)
      → IsHeadless
      → read_document json doc c ≡ r
      → (result json r).0 ≡ some true
      → AllStages (result json r).1
  by_result c (going c') headless e h = read_document-AllStages c headless e
  by_result c (refused c') headless e h = absurd (cc)
  by_result c (ended c') headless e h = absurd (cc)

-- The settings are those that reading the document gives, if there is a file.
parse_config_read :
    (json : RapidJson) (os : Os) (s : State) {system_info stream : String}
    → s.config "SYSTEM" ≡ text system_info
    → os.content_of s.log "settings.json" ≡ some stream
    → let r = result json (read_document json (json.parse_stream stream) s.config) in
      parse_config json os s ≡ (r.0, record { config = r.1; log = read "settings.json" ∷ s.log })
unfolding parse_config get_text
parse_config_read json os s e content = rw (e, content) refl

-- If settings.json asks for HEADLESS mode and parse_config returns true without the condition of an
-- assertion being false, the thirteen members of device, file system, host, locale, keyboard, time zone,
-- user, root password, kernel, desktop and boot loader are texts of the document, each is the setting of
-- its key, and the partitions are set.
pub parse_config-HasRequired :
    (json : RapidJson) (os : Os) (s : State) {system_info stream : String}
    → s.config "SYSTEM" ≡ text system_info
    → os.content_of s.log "settings.json" ≡ some stream
    → IsHeadless json (json.parse_stream stream)
    → (parse_config json os s).0 ≡ some true
    → HasRequired json (json.parse_stream stream) (parse_config json os s).1.config
parse_config-HasRequired json os s {system_info} {stream} e content headless h =
    let doc = json.parse_stream stream in
    let r = result json (read_document json doc s.config) in
    rw (parse_config_read json os s e content) (
      stages-HasRequired json doc r.1 (
        by_result json doc s.config (read_document json doc s.config) headless refl
          (rw (parse_config_read json os s e content) at h)))
