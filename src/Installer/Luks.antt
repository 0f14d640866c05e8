-- ===== src/Installer/Luks.antt =====
-- src/crypto.cpp: the menu that opens and makes encrypted partitions.
pub mod Encrypted
use new_cli_installer.Base.{
  ℕ, zero, suc, String, ◌<>◌, Bool, true, false, not, Option, none, some, List, [], ◌∷◌,
  if◌then◌else◌, eqb,
}
use new_cli_installer.Base.Sort.{Sorter}
use new_cli_installer.Lines.{make_multiline}
use new_cli_installer.Disk.Luks.{luks1_open, luks1_format}
use new_cli_installer.Installer.Simple.{no_parts}
use new_cli_installer.Installer.Checks.{find_partitions, msgbox_widget}
use new_cli_installer.Installer.Crypt.{both}
use new_cli_installer.Installer.Disk.{inputbox_widget}
use new_cli_installer.Installer.State.{
  Run, text, pure, ◌>>=◌, ◌>>◌, quit, lift, if_ndevenv, get_text, get_texts, set,
}
use new_cli_installer.Installer.Steps.{umount_partitions}
use new_cli_installer.Installer.System.{output}

-- The menus of src/widgets.cpp: one in which an entry is chosen, or which is left without a choice;
-- and one that stays open, with a callback that says whether the chosen entry closes it.
pub record Menus : Type 0 where
  pub choose : List String → String → Run (Option ℕ)
  pub stay : List String → String → (ℕ → Run Bool) → Run (Unit {0})

-- `v[i]`, which is not defined beyond the end.
unfoldable pub get_elem? : List String → ℕ → Run String
get_elem? [] i = quit
get_elem? (x ∷ xs) zero = pure x
get_elem? (x ∷ xs) (suc i) = get_elem? xs i

abbrev pub luks_menu_body : String
luks_menu_body =
    "Devices and volumes encrypted using dm_crypt cannot be accessed or\neven seen without being unlocked via a key or password."

abbrev pub luks_menu_body2 : String
luks_menu_body2 =
    "A seperate boot partition without encryption or logical volume management\n(LVM - unless using BIOS Grub) is required."

abbrev pub luks_menu_body3 : String
luks_menu_body3 =
    "The Automatic option uses default encryption settings,\nand is recommended for beginners.\nOtherwise, it is possible to specify cypher and key size parameters manually."

abbrev pub luks_cryptname_body : String
luks_cryptname_body =
    "\nSpecify a name for the encrypted block device.\n \nIt is not necessary to prefix it with /dev/mapper/.\nAn example has been provided.\n"

abbrev pub luks_pass_body : String
luks_pass_body =
    "\nEnter a password to un/encrypt the partition.\n \nThis should not be the same as\nthe Root account or user account passwords.\n"

abbrev pub luks_cipher_key : String
luks_cipher_key =
    "\nOnce the specified flags have been amended,\nthey will automatically be used with the 'cryptsetup -q luksFormat /dev/...' command.\n \nNOTE: Key files are not supported;\nthey can be added manually post-installation.\nDo not specify any additional flags such as -v (--verbose) or -y (--verify-passphrase)."

-- What is entered is written to a setting, which is given by reference.
unfoldable pub ask_setting : String → String → Run Bool
ask_setting key body = do
  entered ← inputbox_widget body
  elim entered [ none ↦ pure false | some value ↦ set key (text value) >> pure true ]

unfoldable pub get_cryptname : String → Run Bool
get_cryptname key = ask_setting key luks_cryptname_body

unfoldable pub get_crypt_password : String → Run Bool
get_crypt_password key = ask_setting key luks_pass_body

-- The name and the password of an encrypted partition.
unfoldable pub get_credentials : Run Bool
get_credentials = do
  get_text "LUKS_ROOT_NAME"
  get_text "PASSWD"
  both (get_cryptname "LUKS_ROOT_NAME") (get_crypt_password "PASSWD")

-- `luks1_open` by the settings, with a message if it fails.
unfoldable pub open_partition : Run Bool
open_partition = do
  partition ← get_text "PARTITION"
  luks_root_name ← get_text "LUKS_ROOT_NAME"
  luks_password ← get_text "PASSWD"
  opened ← lift (luks1_open luks_password partition luks_root_name)
  if opened then pure true else msgbox_widget "\nFailed to open luks1 partition\n" >> pure false

unfoldable pub format_partition : String → Run (Unit {0})
format_partition command = do
  partition ← get_text "PARTITION"
  get_text "LUKS_ROOT_NAME"
  luks_password ← get_text "PASSWD"
  formatted ← lift (luks1_format luks_password partition command)
  if formatted then pure tt else msgbox_widget "\nFailed to format luks1 partition\n"

-- The partition is opened even if it could not be formatted.
unfoldable pub luks_encrypt : String → Run (Unit {0})
luks_encrypt command = if_ndevenv (do format_partition command; open_partition; pure tt) (pure tt)

unfoldable pub luks_default : Run (Unit {0})
luks_default = luks_encrypt ""

unfoldable pub luks_key_define : Run Bool
luks_key_define = do
  entered ← inputbox_widget luks_cipher_key
  elim entered [ none ↦ pure false | some value ↦ luks_encrypt value >> pure true ]

unfoldable pub luks_express : Run (Unit {0})
luks_express = luks_encrypt "--pbkdf-force-iterations 200000"

unfoldable pub luks_show : Run (Unit {0})
luks_show = do
  lsblk ←
      output "lsblk -o NAME,TYPE,FSTYPE,SIZE | grep \"part\\|crypt\\|NAME\\|TYPE\\|FSTYPE\\|SIZE\""
  msgbox_widget ("\nDone!\n \n" <> lsblk)

abbrev pub luks_menu_entries : List String
luks_menu_entries =
    "Open Encrypted Partition" ∷ "Automatic LUKS Encryption" ∷ "Define Key-Size and Cypher"
    ∷ "Express LUKS" ∷ "Back" ∷ []

module _ (menus : Menus) (sorter : Sorter) (create_partitions : Run (Unit {0})) where
  unfoldable pub select_crypt_partition : String → Run Bool
  select_crypt_partition body = do
    partitions ← get_texts "PARTITIONS"
    selected ← menus.choose partitions ("\n" <> body <> "\n")
    elim selected [
      | none ↦ pure false
      | some i ↦ do
        src ← get_elem? partitions i
        partition ← get_elem? (make_multiline src false " ") 0
        set "PARTITION" (text partition)
        pure true
    ]

  -- The partitions are listed anew.
  unfoldable pub list_partitions : String → Run (Unit {0})
  list_partitions include_part = do
    set "INCLUDE_PART" (text include_part)
    umount_partitions sorter
    find_partitions create_partitions

  -- Opens the selected partition and shows the devices.
  unfoldable pub open_selected : Run Bool
  open_selected = do
    given ← get_credentials
    if not given then pure false else do
      opened ← if_ndevenv open_partition (pure true)
      if not opened then pure false else do
        partition ← get_text "PARTITION"
        devlist ← output (
            "lsblk -o NAME,TYPE,FSTYPE,SIZE,MOUNTPOINT " <> partition
            <> " | grep \"crypt\\|NAME\\|MODEL\\|TYPE\\|FSTYPE\\|SIZE\"")
        msgbox_widget devlist
        pure true

  unfoldable pub luks_open : Run Bool
  luks_open = do
    set "LUKS_ROOT_NAME" (text "")
    list_partitions "part\\|crypt\\|lvm"
    partitions ← get_texts "PARTITIONS"
    if no_parts partitions
        then msgbox_widget "\nNo LUKS-encrypted partition found.\n" >> pure false
        else both (select_crypt_partition luks_menu_body) open_selected

  unfoldable pub luks_setup : Run Bool
  luks_setup = do
    if_ndevenv (output "modprobe -a dm-mod dm_crypt" >> pure tt) (pure tt)
    list_partitions "part\\|lvm"
    both (select_crypt_partition "Select a partition to encrypt.") get_credentials

  -- The entries of the menu by their positions. `Define Key-Size and Cypher` asks for the flags only
  -- if the setup was left: `!luks_setup() && !luks_key_define()`.
  unfoldable pub luks_entry : ℕ → Run (Unit {0})
  luks_entry selected =
      if eqb selected 0
      then luks_open >> pure tt
      else if eqb selected 1
      then (do ready ← luks_setup; if ready then luks_default >> luks_show else pure tt)
      else if eqb selected 2
      then (do
        left ←
            both (do ready ← luks_setup; pure (not ready))
              (do defined ← luks_key_define; pure (not defined))
        if left then pure tt else luks_show)
      else if eqb selected 3
      then (do ready ← luks_setup; if ready then luks_express >> luks_show else pure tt)
      else pure tt

  unfoldable pub luks_menu_advanced : Run (Unit {0})
  luks_menu_advanced = do
    let content =
        "\n" <> luks_menu_body <> "\n \n" <> luks_menu_body2 <> "\n \n" <> luks_menu_body3 <> "\n"
    selected ← menus.choose luks_menu_entries content
    elim selected [ none ↦ pure tt | some i ↦ luks_entry i ]
