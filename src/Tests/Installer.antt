-- ===== src/Tests/Installer.antt =====
-- Witnesses for the installer: a settings.json, a scheme, a connection that comes up and an encrypted
-- partition.
use new_cli_installer.Base.{
  String, ◌==◌, ◌≡◌, refl, Bool, true, false, Option, none, some, List, [], ◌∷◌, arith, contains,
  contains_text, leb, length, if◌then◌else◌,
}
use new_cli_installer.Base.Decimal.{ℤ, pos, negsuc, to_string}
use new_cli_installer.Base.Sort.Insertion.{insertion_sorter}
use new_cli_installer.Disk.{Partition}
use new_cli_installer.Disk.Btrfs.{is_root_btrfs_part}
use new_cli_installer.Disk.Zfs.{zfs_create_with_config}
use new_cli_installer.Sys.{Os, dialog}
use new_cli_installer.Installer.Connection.{connect}
use new_cli_installer.Installer.Connection.Polling.{
  connect_found, connect-Within, tried, with_log, Within,
}
use new_cli_installer.Installer.Disk.{btrfs_create_subvols, default_subvolumes}
use new_cli_installer.Installer.Disk.Default.{Outcome, accepted, btrfs_create_subvols-Outcome}
use new_cli_installer.Installer.Luks.{
  luks_cryptname_body, luks_pass_body, get_credentials, luks_encrypt,
}
use new_cli_installer.Installer.Luks.Encrypted.{
  with_credentials, encrypted, credentials-luks_encrypt,
}
use new_cli_installer.Installer.Misc.{confirm_mount}
use new_cli_installer.Installer.Misc.Counted.{Confirmed, confirm_mount-Confirmed}
use new_cli_installer.Installer.Numbers.{to_int}
use new_cli_installer.Installer.Numbers.Range.{to_int-to_string}
use new_cli_installer.Installer.Settings.{
  RapidJson, parse_config, read_document, read_menus, read_flag, read_in_mode, read_headless,
  read_fields, read_texts, read_text, read_partitions, read_entries, read_user, has_member,
  check_entry, lacks_fs_name, valid_types, string_member, read_part_fs, read_entry, part_data,
}
use new_cli_installer.Installer.Settings.Kinds.{parse_config-HasKinds}
use new_cli_installer.Installer.Settings.Required.{HasRequired, parse_config-HasRequired}
use new_cli_installer.Installer.Simple.{read_part}
use new_cli_installer.Installer.Simple.Ready.{read_entry-read_part}
use new_cli_installer.Installer.State.{
  State, text, number, texts, put, put_all, initial_entries, empty_config, get_text, ◌>>◌,
}
use new_cli_installer.Installer.State.Kinds.{HasKinds, initial-HasKinds}
use new_cli_installer.Installer.Zfs.{zfs_setup_config, zfs_auto_pres}
use new_cli_installer.Installer.Zfs.Pool.{with_pool, zfs_auto_pres_lem}
use new_cli_installer.Tests.{willing, scheme}

-- A document with one partition.
data Doc : Type 0 where
  document part parts : Doc
  word : String → Doc
  flag : Bool → Doc
  int : ℤ → Doc

abbrev members : List (String × Doc)
members =
    ("menus", int (pos 2))
    ∷ ("headless_mode", flag true)
    ∷ ("device", word "/dev/sda")
    ∷ ("fs_name", word "btrfs")
    ∷ ("partitions", parts)
    ∷ ("hostname", word "cachyos")
    ∷ ("locale", word "en_US")
    ∷ ("xkbmap", word "us")
    ∷ ("timezone", word "UTC")
    ∷ ("user_name", word "alice")
    ∷ ("user_pass", word "secret")
    ∷ ("user_shell", word "/bin/fish")
    ∷ ("root_pass", word "root")
    ∷ ("kernel", word "linux-cachyos")
    ∷ ("desktop", word "kde")
    ∷ ("bootloader", word "grub")
    ∷ []

abbrev part_members : List (String × Doc)
part_members =
    ("name", word "/dev/sda1")
    ∷ ("mountpoint", word "/")
    ∷ ("size", word "64G")
    ∷ ("type", word "root")
    ∷ []

abbrev look_up : List (String × Doc) → String → Option Doc
look_up [] name = none
look_up ((key, value) ∷ rest) name = if name == key then some value else look_up rest name

abbrev doc_member : Doc → String → Option Doc
doc_member document name = look_up members name
doc_member part name = look_up part_members name
doc_member parts name = none
doc_member (word t) name = none
doc_member (flag b) name = none
doc_member (int n) name = none

abbrev doc_string : Doc → Option String
doc_string (word t) = some t
doc_string _ = none

abbrev doc_bool : Doc → Option Bool
doc_bool (flag b) = some b
doc_bool _ = none

abbrev doc_int : Doc → Option ℤ
doc_int (int n) = some n
doc_int _ = none

abbrev doc_array : Doc → Option (List Doc)
doc_array parts = some (part ∷ [])
doc_array _ = none

abbrev json : RapidJson
json = record {
  Json = Doc;
  parse_stream = λ text. document;
  is_object = λ doc. true;
  find_member = doc_member;
  as_int = doc_int;
  as_bool = doc_bool;
  as_string = doc_string;
  as_array = doc_array;
}

-- A system with a settings.json.
abbrev with_settings : Os
with_settings = record willing { content_of = λ log path. some "{}" }

abbrev first_state : State
first_state = record { config = put_all (initial_entries true) empty_config; log = [] }

parsed : (parse_config json with_settings first_state).0 ≡ some true
unfolding put_all initial_entries empty_config parse_config get_text read_document read_menus
    read_flag read_headless read_in_mode read_fields read_texts read_text read_partitions
    read_entries read_entry read_user has_member string_member check_entry lacks_fs_name
    read_part_fs
parsed = refl

parse_config-HasRequired_example :
    HasRequired json document (parse_config json with_settings first_state).1.config
unfolding put_all initial_entries empty_config
parse_config-HasRequired_example =
    parse_config-HasRequired json with_settings first_state {system_info = "BIOS"} {stream = "{}"}
      refl refl (flag true, refl, refl) parsed

parse_config-HasKinds_example : HasKinds (parse_config json with_settings first_state).1.config
parse_config-HasKinds_example =
    parse_config-HasKinds json with_settings first_state (initial-HasKinds true)

read_entry-read_part_example :
    (contains valid_types "root" ≡ true)
    × (read_part (part_data "/dev/sda1" "/" "64G" "btrfs" "root")
        ≡ some (record {
          name = "/dev/sda1";
          mountpoint = "/";
          size = "64G";
          fs = "btrfs";
          type = "root";
        }))
unfolding string_member read_part_fs has_member read_entry check_entry lacks_fs_name
read_entry-read_part_example =
    read_entry-read_part json part "btrfs" refl refl refl refl refl refl (ground arith)

-- The site answers from the third try on.
abbrev slow : Os
slow = record willing { succeeds = λ log event. leb 2 (length log) }

connect_found_example :
    connect slow (with_log empty_config []) ≡ (some true, with_log empty_config (tried 3 []))
connect_found_example =
    connect_found slow refl empty_config 2 [] (omega arith) (refl, (refl, tt)) refl

connect-Within_example :
    Within slow refl empty_config 18 [] (connect slow (with_log empty_config []))
connect-Within_example = connect-Within slow refl empty_config []

to_int-to_string_example : to_int (to_string (negsuc 2_147_483_647)) ≡ negsuc 2_147_483_647
to_int-to_string_example = to_int-to_string (negsuc 2_147_483_647) (omega arith)

btrfs_create_subvols-Outcome_example :
    (ps' : List Partition) × ((btrfs_create_subvols insertion_sorter scheme "automatic" false
        willing first_state).0
      ≡ some ps')
    × Outcome (accepted false willing first_state) insertion_sorter scheme ps'
unfolding default_subvolumes is_root_btrfs_part
btrfs_create_subvols-Outcome_example =
    btrfs_create_subvols-Outcome insertion_sorter scheme false willing first_state refl

zfs_auto_pres_lem_example : zfs_auto_pres "/dev/sda1" "zpcachyos" willing first_state ≡ (
  some (zfs_create_with_config "/dev/sda1" (zfs_setup_config "zpcachyos") willing []).0,
  record {
    config =
        if (zfs_create_with_config "/dev/sda1" (zfs_setup_config "zpcachyos") willing []).0
        then with_pool "zpcachyos" [] first_state.config
        else first_state.config;
    log = (zfs_create_with_config "/dev/sda1" (zfs_setup_config "zpcachyos") willing []).1;
  },
)
unfolding put_all initial_entries empty_config
zfs_auto_pres_lem_example =
    zfs_auto_pres_lem "/dev/sda1" "zpcachyos" [] willing first_state refl refl

-- A name and a password are entered for a partition that was selected.
abbrev entering : Os
entering = record willing {
  input_of =
      λ log prompt. if prompt == luks_cryptname_body then some "cryptroot" else some "secret";
}

abbrev selected : State
selected = record {
  config = put "PARTITION" (text "/dev/sda2") (put_all (initial_entries true) empty_config);
  log = [];
}

credentials-luks_encrypt_example : (get_credentials >> luks_encrypt "-s 512") entering selected ≡ (
  some tt,
  record {
    config = with_credentials "cryptroot" "secret" selected.config;
    log =
        (encrypted "/dev/sda2" "cryptroot" "secret" "-s 512" entering
          (dialog luks_pass_body ∷ dialog luks_cryptname_body ∷ [])).1;
  },
)
unfolding put_all initial_entries empty_config
credentials-luks_encrypt_example =
    credentials-luks_encrypt "/dev/sda2" "" "" "cryptroot" "secret" "-s 512" entering selected refl
      refl refl refl refl refl

-- One of two partitions was mounted.
abbrev mounted_lines : List String
mounted_lines = "/dev/sda1 1G" ∷ "/dev/sda2 64G" ∷ []

abbrev mounted : State
mounted = record {
  config =
      put "PARTITIONS" (texts mounted_lines)
        (put "NUMBER_PARTITIONS" (number (pos 2)) selected.config);
  log = [];
}

confirm_mount-Confirmed_example :
    Confirmed
      (confirm_mount "/mnt" false willing mounted).0
      "/dev/sda2"
      mounted_lines
      (confirm_mount "/mnt" false willing mounted).1.config
unfolding put_all initial_entries empty_config contains_text
confirm_mount-Confirmed_example =
    confirm_mount-Confirmed "/mnt" "/dev/sda2" false mounted_lines willing mounted refl refl refl
      refl
