-- ===== src/Disk/Crypttab.antt =====
-- gucc/src/crypttab.cpp: the text of /etc/crypttab.
pub mod Entries
use new_cli_installer.Base.{
  String, ◌==◌, ◌<>◌, Bool, true, false, not, ◌&&◌, ◌||◌, Option, none, some, List, [], ◌∷◌,
  if◌then◌else◌, is_empty, pad_right, any,
}
use new_cli_installer.Base.Sort.{Sorter, less_by}
use new_cli_installer.Disk.{Partition, has_mapper}
use new_cli_installer.Sys.{M, ◌>>=◌, pure}
use new_cli_installer.Sys.Io.{create_file_for_overwrite}

abbrev pub crypttab_header : String
crypttab_header =
    "# Configuration for encrypted block devices\n# See crypttab(5) for details.\n\n# NOTE: Do not list your root (/) partition here, it must be set up\n#       beforehand by the initramfs (/etc/mkinitcpio.conf).\n\n# <name>       <device>                                     <password>              <options>\n"

-- The password and the options of an entry.
unfoldable pub password_and_options : Partition → String → Bool → Bool → String × String
password_and_options partition crypttab_opts is_root_encrypted is_boot_encrypted =
    if not is_root_encrypted || (partition.mountpoint == "/" && not is_boot_encrypted)
    then ("none", "")
    else ("/crypto_keyfile.bin", " " <> crypttab_opts)

-- `"{:21} {:<45} {}{}\n"`
unfoldable pub format_entry : String → String → String × String → String
format_entry name luks_uuid password =
    pad_right 21 name
    <> " "
    <> pad_right 45 ("UUID=" <> luks_uuid)
    <> " "
    <> password.0
    <> password.1
    <> "\n"

-- The entry of a partition whose LUKS name and UUID are there.
unfoldable pub entry_of : Option String → Option String → String × String → Option String
entry_of none luks_uuid password = none
entry_of (some name) none password = none
entry_of (some name) (some luks_uuid) password =
    if is_empty name || is_empty luks_uuid
    then none
    else some (format_entry name luks_uuid password)

unfoldable pub gen_crypttab_entry : Partition → String → Bool → Bool → Option String
gen_crypttab_entry partition crypttab_opts is_root_encrypted is_boot_encrypted =
    entry_of partition.luks_mapper_name partition.luks_uuid
      (password_and_options partition crypttab_opts is_root_encrypted is_boot_encrypted)

-- `std::ranges::unique_copy` by device, behind an element that was copied.
unfoldable pub copy_behind : Partition → List Partition → List Partition
copy_behind kept [] = []
copy_behind kept (p ∷ ps) =
    let same = copy_behind kept ps in
    let other = p ∷ copy_behind p ps in if kept.device == p.device then same else other

unfoldable pub unique_devices : List Partition → List Partition
unique_devices [] = []
unique_devices (p ∷ ps) = p ∷ copy_behind p ps

abbrev pub is_encrypted_at : String → Partition → Bool
is_encrypted_at mountpoint part = part.mountpoint == mountpoint && has_mapper part

unfoldable pub add_entries : List Partition → String → Bool → Bool → String → String
add_entries [] crypttab_opts root boot crypttab_content = crypttab_content
add_entries (partition ∷ partitions) crypttab_opts root boot crypttab_content =
    add_entries partitions crypttab_opts root boot
      (elim (gen_crypttab_entry partition crypttab_opts root boot) [
        | none ↦ crypttab_content
        | some crypttab_entry ↦ crypttab_content <> crypttab_entry
      ])

module _ (sorter : Sorter) where
  -- The partitions sorted by mountpoint, then by device, without repeated devices.
  unfoldable pub partitions_filtered : List Partition → List Partition
  partitions_filtered partitions = unique_devices (
      sorter.sort Partition (less_by (λ p. p.device))
        (sorter.sort Partition (less_by (λ p. p.mountpoint)) partitions))

  unfoldable pub generate_crypttab_content : List Partition → String → String
  generate_crypttab_content partitions crypttab_opts =
      let is_root_encrypted = any (is_encrypted_at "/") partitions in
      let is_boot_encrypted = any (is_encrypted_at "/bool") partitions in
      add_entries (partitions_filtered partitions) crypttab_opts is_root_encrypted is_boot_encrypted
        crypttab_header

  unfoldable pub generate_crypttab : List Partition → String → String → M Bool
  generate_crypttab partitions root_mountpoint crypttab_opts =
      create_file_for_overwrite (root_mountpoint <> "/etc/crypttab")
        (generate_crypttab_content partitions crypttab_opts)
