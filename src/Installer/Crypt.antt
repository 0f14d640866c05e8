-- ===== src/Installer/Crypt.antt =====
-- src/utils.cpp: what is encrypted of the new system, and the keyfile.
use new_cli_installer.Base.{
  String, ◌<>◌, Bool, true, false, not, List, [], ◌∷◌, if◌then◌else◌, is_empty, contains_text,
}
use new_cli_installer.Base.Decimal.{pos}
use new_cli_installer.Lines.{make_multiline}
use new_cli_installer.Disk.Luks.{luks1_setup_keyfile}
use new_cli_installer.Installer.Numbers.{to_int}
use new_cli_installer.Installer.Checks.{below}
use new_cli_installer.Installer.Filesystems.{root_name_command}
use new_cli_installer.Installer.Steps.{logged}
use new_cli_installer.Installer.State.{
  Run, text, number, pure, ◌>>=◌, ◌>>◌, lift, if_ndevenv, get_text, get_number, set, is_int,
}
use new_cli_installer.Installer.System.{output, succeeds}

-- `a && b` and `a || b` of commands, of which the second may not be run.
abbrev pub both : Run Bool → Run Bool → Run Bool
both a b = do first ← a; if first then b else pure false

abbrev pub either : Run Bool → Run Bool → Run Bool
either a b = do first ← a; if first then pure true else b

abbrev pub above_command : String → String → String
above_command name last =
    "lsblk -i | tac | sed -r 's/^[^[:alnum:]]+//' | sed -n -e '/" <> name <> "/,/" <> last <> "/p'"

-- Whether a disk with something encrypted stands above a name.
abbrev pub crypt_above : String → Run Bool
crypt_above name = succeeds (above_command name "disk" <> " | awk '{print $6}' | grep -q crypt")

-- the keyfile

abbrev pub root_part_command : String → String
root_part_command root_name =
    above_command root_name "part" <> " | awk '/part/ {print $1}' | tr -cd '[:alnum:]'"

unfoldable pub setup_luks_keyfile : Run (Unit {0})
setup_luks_keyfile = do
  root_name ← output root_name_command
  root_part ← output (root_part_command root_name)
  let partition = "/dev/" <> root_part
  keys ← output ("cryptsetup luksDump '" <> partition <> "' | grep 'ENABLED' | wc -l")
  if below (to_int keys) 4
      then if_ndevenv
          (logged (
            lift (
              luks1_setup_keyfile "/mnt/crypto_keyfile.bin" "/mnt" partition
                "--pbkdf-force-iterations 200000")))
          (pure tt)
      else pure tt

-- the root

-- Runs the functor for each of the partitions that the name belongs to.
unfoldable pub check_cryptparts : List String → String → (String → Run (Unit {0})) → Run (Unit {0})
check_cryptparts [] luks_name functor = pure tt
check_cryptparts (cryptpart ∷ cryptparts) luks_name functor = do
  found ← succeeds ("lsblk -lno NAME " <> cryptpart <> " | grep -q '" <> luks_name <> "'")
  (if found then functor cryptpart else pure tt)
  check_cryptparts cryptparts luks_name functor

-- `cryptdevice=UUID=...` with the UUID that a command prints.
unfoldable pub set_uuid_device : String → String → Run (Unit {0})
set_uuid_device command luks_name = do
  luks_uuid ← output command
  set "LUKS_UUID" (text luks_uuid)
  set "LUKS_DEV" (text ("cryptdevice=UUID=" <> luks_uuid <> ":" <> luks_name))

abbrev pub lvm_on_luks_uuid : String
lvm_on_luks_uuid =
    "lsblk -ino NAME,FSTYPE,TYPE,MOUNTPOINT,UUID | tac | sed -r 's/^[^[:alnum:]]+//' | sed -n -e \"/\\/mnt /,/part/p\" | awk '/crypto_LUKS/ {print $4}'"

-- LUKS alone.
unfoldable pub luks_alone : String → Run (Unit {0})
luks_alone luks_name = do
  temp_out ←
      output
        "lsblk -lno NAME,FSTYPE,TYPE,MOUNTPOINT | grep \"/mnt$\" | grep \"part\" | grep -i \"crypto_luks\" | uniq | awk '{print \"/dev/\"$1}'"
  check_cryptparts (make_multiline temp_out false "\n") luks_name λ cryptpart.
      set_uuid_device
        ("lsblk -lno UUID,TYPE,FSTYPE " <> cryptpart
          <> " | grep 'part' | grep -i 'crypto_luks' | awk '{print $1}'")
        luks_name

unfoldable pub lvm_on_luks : String → Run (Unit {0})
lvm_on_luks luks_name = do
  temp_out ←
      output
        "lsblk -lno NAME,FSTYPE,TYPE | grep \" crypt$\" | grep -i \"LVM2_member\" | uniq | awk '{print \"/dev/mapper/\"$1}'"
  if is_empty temp_out
      then luks_alone luks_name
      else check_cryptparts (make_multiline temp_out false "\n") luks_name
          (λ cryptpart. set_uuid_device lvm_on_luks_uuid luks_name >> set "LVM" (number (pos 1)))

unfoldable pub luks_on_lvm : String → Run (Unit {0})
luks_on_lvm luks_name = do
  temp_out ←
      output
        "lsblk -lno NAME,FSTYPE,TYPE,MOUNTPOINT | grep \"lvm\" | grep \"/mnt$\" | grep -i \"crypto_luks\" | uniq | awk '{print \"/dev/mapper/\"$1}'"
  if is_empty temp_out
      then lvm_on_luks luks_name
      else check_cryptparts (make_multiline temp_out false "\n") luks_name (λ cryptpart.
        set "LUKS_DEV" (text ("cryptdevice=" <> cryptpart <> ":" <> luks_name))
        >> set "LVM" (number (pos 1)))

-- The name of the device, or of what is encrypted above it.
unfoldable pub find_luks_name : Run String
find_luks_name = do
  name ← output root_name_command
  set "LUKS_ROOT_NAME" (text name)
  direct ← succeeds "lsblk -i | grep -q -e 'crypt /mnt'"
  if direct then pure name else do
    above ←
        output
          "lsblk -i | tac | sed -r 's/^[^[:alnum:]]+//' | sed -n -e '/\\/mnt$/,/crypt/p' | awk '/crypt/ {print $1}'"
    set "LUKS_ROOT_NAME" (text above)
    pure above

unfoldable pub get_cryptroot : Run (Unit {0})
get_cryptroot = do
  crypt ←
      both
        (succeeds
          "lsblk | sed -r 's/^[^[:alnum:]]+//' | awk '/\\/mnt$/ {print $6}' | grep -q crypt")
        (succeeds
          "lsblk -i | tac | sed -r 's/^[^[:alnum:]]+//' | sed -n -e '/\\/mnt$/,/part/p' | awk '{print $6}' | grep -q crypt")
  if not crypt
      then pure tt
      else do set "LUKS" (number (pos 1)); luks_name ← find_luks_name; luks_on_lvm luks_name

-- `/boot`

abbrev pub boot_crypt_command : String
boot_crypt_command = "lsblk | grep '/mnt/boot' | grep -q 'crypt'"

abbrev pub root_crypt_command : String
root_crypt_command = "lsblk | grep '/mnt$' | grep -q 'crypt'"

abbrev pub separate_boot_command : String
separate_boot_command = "lsblk | grep -q '/mnt/boot$'"

unfoldable pub recheck_luks : Run (Unit {0})
recheck_luks = do
  root_name ← output root_name_command
  crypt ← either (succeeds boot_crypt_command) (
      either
        (both (succeeds root_crypt_command)
          (do boot ← succeeds separate_boot_command; pure (not boot)))
        (both (succeeds boot_crypt_command) (crypt_above root_name)))
  if crypt then set "LUKS" (number (pos 1)) else pure tt

abbrev pub boot_name_command : String
boot_name_command =
    "mount | awk '/\\/mnt\\/boot / {print $1}' | sed s~/dev/mapper/~~g | sed s~/dev/~~g"

-- The name and the UUID of the encrypted `/boot`.
unfoldable pub find_boot : Run (String × String)
find_boot = do
  boot_name ← output boot_name_command
  boot_uuid ← output "lsblk -lno UUID,MOUNTPOINT | awk '/\\mnt\\/boot$/ {print $1}'"
  direct ← succeeds "lsblk -i | grep -q -e 'crypt /mnt'"
  if direct then pure (boot_name, boot_uuid) else do
    name_above ←
        output
          "lsblk -i | tac | sed -r 's/^[^[:alnum:]]+//' | sed -n -e '/\\/mnt\\/boot$/,/crypt/p' | awk '/crypt/ {print $1}'"
    uuid_above ←
        output
          "lsblk -ino NAME,FSTYPE,TYPE,MOUNTPOINT,UUID | tac | sed -r 's/^[^[:alnum:]]+//' | sed -n -e '/\\/mnt\\/boot /,/part/p' | awk '/crypto_LUKS/ {print $4}'"
    pure (name_above, uuid_above)

-- `std::ranges::search` for an empty text finds an empty range, as if it were absent.
unfoldable pub with_boot : String → String → String → String
with_boot luks_dev boot_name boot_uuid =
    if contains_text luks_dev boot_uuid
    then (if is_empty boot_uuid
        then luks_dev <> " cryptdevice=UUID=" <> boot_uuid <> ":" <> boot_name
        else luks_dev)
    else luks_dev <> " cryptdevice=UUID=" <> boot_uuid <> ":" <> boot_name

unfoldable pub get_cryptboot : Run (Unit {0})
get_cryptboot = do
  crypt ←
      both
        (succeeds
          "lsblk | sed -r 's/^[^[:alnum:]]+//' | awk '/\\/mnt\\/boot$/ {print $6}' | grep -q crypt")
        (succeeds
          "lsblk -i | tac | sed -r 's/^[^[:alnum:]]+//' | sed -n -e '/\\/mnt\\/boot$/,/part/p' | awk '{print $6}' | grep -q crypt")
  if not crypt then pure tt else do
    set "LUKS" (number (pos 1))
    (boot_name, boot_uuid) ← find_boot
    on_lvm ← succeeds "lsblk -lno TYPE,MOUNTPOINT | grep '/mnt/boot$' | grep -q lvm"
    (if on_lvm then set "LVM" (number (pos 1)) else pure tt)
    luks_dev ← get_text "LUKS_DEV"
    set "LUKS_DEV" (text (with_boot luks_dev boot_name boot_uuid))

-- full disk encryption

abbrev pub mapper_crypt : String → Run Bool
mapper_crypt name = succeeds ("lsblk '/dev/mapper/" <> name <> "' | grep -q 'crypt'")

-- Whether the root is encrypted, where `/boot` is not separate.
unfoldable pub root_encrypted : Run Bool
root_encrypted = do
  root_name ← output root_name_command
  luks ← get_number "LUKS"
  either (pure (is_int luks (pos 1))) (
      either (mapper_crypt root_name)
        (either (succeeds root_crypt_command) (crypt_above root_name)))

unfoldable pub boot_encrypted : Run Bool
boot_encrypted = do
  boot_name ← output boot_name_command
  either (succeeds boot_crypt_command) (either (crypt_above boot_name) (mapper_crypt boot_name))

unfoldable pub boot_encrypted_setting : Run (Unit {0})
boot_encrypted_setting = do
  set "fde" (number (pos 0))
  separate ← succeeds separate_boot_command
  encrypted ← if separate then boot_encrypted else root_encrypted
  if encrypted then (set "fde" (number (pos 1)) >> setup_luks_keyfile) else pure tt
