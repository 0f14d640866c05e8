-- ===== src/Installer/Luks/Encrypted.antt =====
-- src/crypto.cpp: encrypting the partition with the name and the password that were entered.
use new_cli_installer.Base.{
  String, ◌≡◌, refl, Bool, true, some, ◌∷◌, if◌then◌else◌, Bool-cases, inl, inr,
}
use new_cli_installer.Disk.Luks.{luks1_open, luks1_format}
use new_cli_installer.Sys.{Os, M, dialog}
use new_cli_installer.Installer.Luks.{
  luks_cryptname_body, luks_pass_body, ask_setting, get_cryptname, get_crypt_password,
  get_credentials, open_partition, format_partition, luks_encrypt,
}
use new_cli_installer.Installer.State.{Config, State, text, put, get_text, set, ◌>>◌}

-- The settings with a name and a password.
abbrev pub with_credentials : String → String → Config → Config
with_credentials name password config =
    put "PASSWD" (text password) (put "LUKS_ROOT_NAME" (text name) config)

abbrev pub format_failed : String
format_failed = "\nFailed to format luks1 partition\n"

abbrev pub open_failed : String
open_failed = "\nFailed to open luks1 partition\n"

-- A message behind a step that fails.
abbrev pub shown_if_failed : String → M Bool → M (Unit {0})
shown_if_failed message step os log =
    let r = step os log in (tt, if r.0 then r.1 else dialog message ∷ r.1)

-- Formatting a partition and opening it, each with a message if it fails.
unfoldable pub encrypted : String → String → String → String → M (Unit {0})
encrypted partition name password flags os log =
    let formatted = shown_if_failed format_failed (luks1_format password partition flags) os log in
    shown_if_failed open_failed (luks1_open password partition name) os formatted.1

ask_setting_lem :
    (key body value : String) (os : Os) (s : State)
    → os.input_of s.log body ≡ some value
    → ask_setting key body os s
      ≡ (some true, record { config = put key (text value) s.config; log = dialog body ∷ s.log })
unfolding ask_setting set
ask_setting_lem key body value os s e = simp e

format_partition_lem :
    (partition name password flags : String) (os : Os) (s : State)
    → s.config "PARTITION" ≡ text partition
    → s.config "LUKS_ROOT_NAME" ≡ text name
    → s.config "PASSWD" ≡ text password
    → format_partition flags os s ≡ (
      some tt,
      record {
        config = s.config;
        log = (shown_if_failed format_failed (luks1_format password partition flags) os s.log).1;
      },
    )
unfolding format_partition get_text
format_partition_lem partition name password flags os s part root pass =
    elim (Bool-cases (luks1_format password partition flags os s.log).0) [
      | inl ok ↦ simp (part, root, pass, ok)
      | inr failed ↦ simp (part, root, pass, failed)
    ]

open_partition_lem :
    (partition name password : String) (os : Os) (s : State)
    → s.config "PARTITION" ≡ text partition
    → s.config "LUKS_ROOT_NAME" ≡ text name
    → s.config "PASSWD" ≡ text password
    → open_partition os s ≡ (
      some (luks1_open password partition name os s.log).0,
      record {
        config = s.config;
        log = (shown_if_failed open_failed (luks1_open password partition name) os s.log).1;
      },
    )
unfolding open_partition get_text
open_partition_lem partition name password os s part root pass =
    elim (Bool-cases (luks1_open password partition name os s.log).0) [
      | inl ok ↦ simp (part, root, pass, ok)
      | inr failed ↦ simp (part, root, pass, failed)
    ]

luks_encrypt_lem :
    (partition name password flags : String) (os : Os) (s : State)
    → os.ndevenv ≡ true
    → s.config "PARTITION" ≡ text partition
    → s.config "LUKS_ROOT_NAME" ≡ text name
    → s.config "PASSWD" ≡ text password
    → luks_encrypt flags os s ≡ (
      some tt,
      record { config = s.config; log = (encrypted partition name password flags os s.log).1 },
    )
unfolding luks_encrypt encrypted
luks_encrypt_lem partition name password flags os s built part root pass =
    let formatted =
      (shown_if_failed format_failed (luks1_format password partition flags) os s.log).1 in
    let behind : State = record { config = s.config; log = formatted } in
    simp (
      built,
      format_partition_lem partition name password flags os s part root pass,
      open_partition_lem partition name password os behind part root pass,
    )

get_credentials_lem :
    (old_name old_password name password : String) (os : Os) (s : State)
    → s.config "LUKS_ROOT_NAME" ≡ text old_name
    → s.config "PASSWD" ≡ text old_password
    → os.input_of s.log luks_cryptname_body ≡ some name
    → os.input_of (dialog luks_cryptname_body ∷ s.log) luks_pass_body ≡ some password
    → get_credentials os s ≡ (
      some true,
      record {
        config = with_credentials name password s.config;
        log = dialog luks_pass_body ∷ dialog luks_cryptname_body ∷ s.log;
      },
    )
unfolding get_credentials get_cryptname get_crypt_password get_text
get_credentials_lem old_name old_password name password os s root pass named given =
    let asked : State = record {
      config = put "LUKS_ROOT_NAME" (text name) s.config;
      log = dialog luks_cryptname_body ∷ s.log;
    } in
    simp (
      root,
      pass,
      ask_setting_lem "LUKS_ROOT_NAME" luks_cryptname_body name os s named,
      ask_setting_lem "PASSWD" luks_pass_body password os asked given,
    )

-- In a build with NDEVENV, after a name and a password were entered, the partition that was selected
-- before is formatted with the password and the flags and then opened with the password under the
-- name, with a message behind each of these that fails; the settings keep both texts and are
-- otherwise as before.
pub credentials-luks_encrypt :
    (partition old_name old_password name password flags : String) (os : Os) (s : State)
    → os.ndevenv ≡ true
    → s.config "PARTITION" ≡ text partition
    → s.config "LUKS_ROOT_NAME" ≡ text old_name
    → s.config "PASSWD" ≡ text old_password
    → os.input_of s.log luks_cryptname_body ≡ some name
    → os.input_of (dialog luks_cryptname_body ∷ s.log) luks_pass_body ≡ some password
    → let prompts = dialog luks_pass_body ∷ dialog luks_cryptname_body ∷ s.log in
      (get_credentials >> luks_encrypt flags) os s ≡ (
        some tt,
        record {
          config = with_credentials name password s.config;
          log = (encrypted partition name password flags os prompts).1;
        },
      )
credentials-luks_encrypt partition old_name old_password name password flags os s built part root
      pass named given =
    let ready : State = record {
      config = with_credentials name password s.config;
      log = dialog luks_pass_body ∷ dialog luks_cryptname_body ∷ s.log;
    } in
    simp (
      get_credentials_lem old_name old_password name password os s root pass named given,
      luks_encrypt_lem partition name password flags os ready built part refl refl,
    )
