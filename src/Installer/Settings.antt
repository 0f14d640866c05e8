-- ===== src/Installer/Settings.antt =====
-- src/utils.cpp: parse_config, which reads settings.json. RapidJSON is a parameter.
pub mod Fields
pub mod Required
pub mod Kinds
pub mod Partitions
use new_cli_installer.Base.{
  String, ◌==◌, ◌<>◌, Bool, true, false, not, ◌&&◌, ◌||◌, Option, none, some, List, [], ◌∷◌,
  if◌then◌else◌, is_empty, is_some, contains,
}
use new_cli_installer.Base.Decimal.{ℤ, pos}
use new_cli_installer.Sys.{ask, read}
use new_cli_installer.Installer.State.{
  Config, text, number, texts, put, Run, ◌>>=◌, lift, get_text, as_text, as_number, is_set,
}

-- What RapidJSON answers: the document of a stream, the member of a name (`HasMember` and
-- `operator[]`), and what a value holds if it is of that type. `operator[]` of a missing member and the
-- accessor of another type fail an assertion.
pub record RapidJson : Type 1 where
  pub Json : Type 0
  pub parse_stream : String → Json
  pub is_object : Json → Bool
  pub find_member : Json → String → Option Json
  pub as_int : Json → Option ℤ
  pub as_bool : Json → Option Bool
  pub as_string : Json → Option String
  pub as_array : Json → Option (List Json)

-- The settings after a part of the function: it goes on, it has returned false, or the condition of an
-- assertion is false: then the program ends or, where NDEBUG leaves the assertions out, what follows is
-- undefined.
pub data Reading : Type 0 where
  going refused ended : Config → Reading

infixl 5 ◌and_thence◌
abbrev pub ◌and_thence◌ : Reading → (Config → Reading) → Reading
going config and_thence f = f config
refused config and_thence f = refused config
ended config and_thence f = ended config

-- A member that is a text, the setting that it becomes, and whether HEADLESS mode requires it.
pub record Field : Type 0 where
  pub name : String
  pub key : String
  pub required : Bool

abbrev pub required_field : String → String → Field
required_field name key = record { name = name; key = key; required = true }

abbrev pub optional_field : String → String → Field
optional_field name key = record { name = name; key = key; required = false }

-- The fields in front of the partitions, between them and the user, and behind the user.
abbrev pub first_fields : List Field
first_fields = required_field "device" "DEVICE" ∷ required_field "fs_name" "FILESYSTEM_NAME" ∷ []

abbrev pub middle_fields : List Field
middle_fields =
    optional_field "mount_opts" "MOUNT_OPTS"
    ∷ required_field "hostname" "HOSTNAME"
    ∷ required_field "locale" "LOCALE"
    ∷ required_field "xkbmap" "XKBMAP"
    ∷ required_field "timezone" "TIMEZONE"
    ∷ []

abbrev pub last_fields : List Field
last_fields =
    required_field "root_pass" "ROOT_PASS"
    ∷ required_field "kernel" "KERNEL"
    ∷ required_field "desktop" "DE"
    ∷ required_field "bootloader" "BOOTLOADER"
    ∷ optional_field "post_install" "POST_INSTALL"
    ∷ []

abbrev pub valid_types : List String
valid_types = "root" ∷ "boot" ∷ "additional" ∷ []

-- A partition as one text.
unfoldable pub part_data : String → String → String → String → String → String
part_data name mountpoint size part_fs_name part_type =
    name <> "\t" <> mountpoint <> "\t" <> size <> "\t" <> part_fs_name <> "\t" <> part_type

-- One element of the partitions: its text, an error that returns false, or a condition of an
-- assertion that is false.
pub data Entry : Type 0 where
  ready : String → Entry
  invalid failed : Entry

pub data Entries : Type 0 where
  all_ready : List String → Entries
  some_invalid some_failed : Entries

module _ (json : RapidJson) where
  -- `doc[name].GetString()` behind its assertion.
  unfoldable pub string_member : json.Json → String → Option String
  string_member doc name = elim (json.find_member doc name) [
    | none ↦ none
    | some value ↦ json.as_string value
  ]

  unfoldable pub has_member : json.Json → String → Bool
  has_member doc name = is_some (json.find_member doc name)

  unfoldable pub read_text : json.Json → Bool → Field → Config → Reading
  read_text doc headless field config = elim (json.find_member doc field.name) [
    | some value ↦ elim (json.as_string value) [
      | some t ↦ going (put field.key (text t) config)
      | none ↦ ended config
    ]
    | none ↦ if field.required && headless then refused config else going config
  ]

  unfoldable pub read_texts : json.Json → Bool → List Field → Config → Reading
  read_texts doc headless [] config = going config
  read_texts doc headless (field ∷ fields) config =
      read_text doc headless field config and_thence read_texts doc headless fields

  -- The flags `headless_mode` and `server_mode`.
  unfoldable pub read_flag : json.Json → String → String → Config → Reading
  read_flag doc name key config = elim (json.find_member doc name) [
    | none ↦ going config
    | some value ↦ elim (json.as_bool value) [
      | some b ↦ going (put key (number (if b then pos 1 else pos 0)) config)
      | none ↦ ended config
    ]
  ]

  unfoldable pub read_menus : json.Json → Config → Reading
  read_menus doc config = elim (json.find_member doc "menus") [
    | none ↦ ended config
    | some value ↦ elim (json.as_int value) [
      | some n ↦ going (put "menus" (number n) config)
      | none ↦ ended config
    ]
  ]

  -- The name of the file system of a partition: its own, else the root's.
  unfoldable pub read_part_fs : json.Json → String → String → Option String
  read_part_fs partition_map root_fstype part_type =
      if has_member partition_map "fs_name"
      then string_member partition_map "fs_name"
      else some root_fstype

  unfoldable pub lacks_fs_name : json.Json → String → String → Bool
  lacks_fs_name partition_map root_fstype part_type =
      not (has_member partition_map "fs_name")
      && (not (part_type == "root") || (is_empty root_fstype && part_type == "root"))

  unfoldable pub check_entry : json.Json → String → String → String → String → String → Entry
  check_entry partition_map root_fstype name mountpoint size part_type =
      if not (contains valid_types part_type)
      then invalid
      else if lacks_fs_name partition_map root_fstype part_type
      then invalid
      else elim (read_part_fs partition_map root_fstype part_type) [
        | none ↦ failed
        | some part_fs_name ↦ ready (part_data name mountpoint size part_fs_name part_type)
      ]

  unfoldable pub read_entry : json.Json → String → Entry
  read_entry partition_map root_fstype =
      if not (json.is_object partition_map)
      then failed
      else elim (string_member partition_map "name") [
        | none ↦ failed
        | some name ↦ elim (string_member partition_map "mountpoint") [
          | none ↦ failed
          | some mountpoint ↦ elim (string_member partition_map "size") [
            | none ↦ failed
            | some size ↦ elim (string_member partition_map "type") [
              | none ↦ failed
              | some part_type ↦
                  check_entry partition_map root_fstype name mountpoint size part_type
            ]
          ]
        ]
      ]

  -- The loop over the partitions, which stops at the first that is not right.
  unfoldable pub read_entries : List json.Json → String → Entries
  read_entries [] root_fstype = all_ready []
  read_entries (partition_map ∷ rest) root_fstype = elim (read_entry partition_map root_fstype) [
    | invalid ↦ some_invalid
    | failed ↦ some_failed
    | ready line ↦ elim (read_entries rest root_fstype) [
      | all_ready ready_parts ↦ all_ready (line ∷ ready_parts)
      | some_invalid ↦ some_invalid
      | some_failed ↦ some_failed
    ]
  ]

  -- `root_fstype` is the setting FILESYSTEM_NAME.
  unfoldable pub read_partitions : json.Json → Bool → Config → Reading
  read_partitions doc headless config = elim (as_text (config "FILESYSTEM_NAME")) [
    | none ↦ ended config
    | some root_fstype ↦ elim (json.find_member doc "partitions") [
      | none ↦ if headless then refused config else going config
      | some value ↦ elim (json.as_array value) [
        | none ↦ ended config
        | some partitions ↦ elim (read_entries partitions root_fstype) [
          | all_ready ready_parts ↦ going (put "READY_PARTITIONS" (texts ready_parts) config)
          | some_invalid ↦ refused config
          | some_failed ↦ ended config
        ]
      ]
    ]
  ]

  -- The user is taken if all of the three members are there.
  unfoldable pub read_user : json.Json → Bool → Config → Reading
  read_user doc headless config =
      if has_member doc "user_name" && (has_member doc "user_pass" && has_member doc "user_shell")
      then elim (string_member doc "user_name") [
        | none ↦ ended config
        | some user_name ↦ elim (string_member doc "user_pass") [
          | none ↦ ended config
          | some user_pass ↦ elim (string_member doc "user_shell") [
            | none ↦ ended config
            | some user_shell ↦ going (
                put "USER_SHELL" (text user_shell)
                  (put "USER_PASS" (text user_pass) (put "USER_NAME" (text user_name) config)))
          ]
        ]
      ]
      else if headless
      then refused config
      else going config

  -- What follows the flags, for the mode that they set.
  unfoldable pub read_fields : json.Json → Bool → Config → Reading
  read_fields doc headless config =
      read_texts doc headless first_fields config
      and_thence read_partitions doc headless
      and_thence read_texts doc headless middle_fields
      and_thence read_user doc headless
      and_thence read_texts doc headless last_fields

  -- `std::get` of the setting HEADLESS_MODE, and the flag that is written to it.
  unfoldable pub read_headless : json.Json → Config → Reading
  read_headless doc config = elim (as_number (config "HEADLESS_MODE")) [
    | none ↦ ended config
    | some headless_mode ↦ read_flag doc "headless_mode" "HEADLESS_MODE" config
  ]

  -- The mode is read through the reference, and `std::get` of SERVER_MODE comes before its flag.
  unfoldable pub read_in_mode : json.Json → Config → Reading
  read_in_mode doc config = elim (as_number (config "HEADLESS_MODE")) [
    | none ↦ ended config
    | some headless_mode ↦ elim (as_number (config "SERVER_MODE")) [
      | none ↦ ended config
      | some server_mode ↦
          read_flag doc "server_mode" "SERVER_MODE" config
          and_thence read_fields doc (is_set headless_mode)
    ]
  ]

  unfoldable pub read_document : json.Json → Config → Reading
  read_document doc config =
      if not (json.is_object doc)
      then ended config
      else read_menus doc config and_thence read_headless doc and_thence read_in_mode doc

  abbrev pub result : Reading → Option Bool × Config
  result (going config) = (some true, config)
  result (refused config) = (some false, config)
  result (ended config) = (none, config)

  unfoldable pub parse_config : Run Bool
  parse_config = do
    system_info ← get_text "SYSTEM"
    content ← lift (ask (read "settings.json") (λ os log. os.content_of log "settings.json"))
    λ os s. elim content [
      | none ↦ (some true, s)
      | some stream ↦
          let r = result (read_document (json.parse_stream stream) s.config) in
          (r.0, record { config = r.1; log = s.log })
    ]
