-- ===== src/Disk/Partitioning.antt =====
-- gucc/src/partitioning.cpp: the partition table of a disk.
pub mod Schema
pub mod Input
use new_cli_installer.Base.{
  String, ◌==◌, ◌<>◌, Bool, true, false, ◌||◌, List, [], ◌∷◌, if◌then◌else◌, is_empty,
}
use new_cli_installer.Base.Sort.{Sorter, less_by, greater_by}
use new_cli_installer.Disk.{Partition, empty_partition}
use new_cli_installer.Disk.Crypttab.{unique_devices}
use new_cli_installer.Sys.{M, pure, and_then}
use new_cli_installer.Sys.Io.{exec_checked}

unfoldable pub convert_fsname : String → String
convert_fsname fsname =
    if fsname == "fat16" || fsname == "fat32"
    then "vfat"
    else if fsname == "linuxswap"
    then "swap"
    else fsname

unfoldable pub get_part_type_alias : String → String
get_part_type_alias fsname = if fsname == "vfat" then "U" else if fsname == "swap" then "S" else "L"

-- The line of a partition.
unfoldable pub sfdisk_line : Partition → String
sfdisk_line part =
    let fsname = convert_fsname part.fstype in
    "type="
    <> get_part_type_alias fsname
    <> (if is_empty part.size then "" else ",size=" <> part.size)
    <> (if fsname == "vfat" then ",bootable" else "")
    <> "\n"

unfoldable pub add_lines : List Partition → String → String
add_lines [] sfdisk_commands = sfdisk_commands
add_lines (part ∷ parts) sfdisk_commands = add_lines parts (sfdisk_commands <> sfdisk_line part)

-- Sorted by mountpoint, then by device, then with the sized ones first; repeated devices are dropped.
unfoldable pub partitions_filtered : Sorter → List Partition → List Partition
partitions_filtered sorter partitions =
    let by_mountpoint = sorter.sort Partition (less_by (λ p. p.mountpoint)) partitions in
    let by_device = sorter.sort Partition (less_by (λ p. p.device)) by_mountpoint in
    unique_devices (sorter.sort Partition (greater_by (λ p. p.size)) by_device)

unfoldable pub gen_sfdisk_command : Sorter → List Partition → Bool → String
gen_sfdisk_command sorter partitions is_efi =
    add_lines (partitions_filtered sorter partitions)
      (if is_efi then "label: gpt\n" else "label: dos\n")

abbrev pub sfdisk_cmd : String → String → String
sfdisk_cmd commands device =
    "echo -e '" <> commands <> "' | sfdisk -w always '" <> device
    <> "' &>>/tmp/cachyos-install.log &>/dev/null"

unfoldable pub run_sfdisk_part : String → String → M Bool
run_sfdisk_part commands device = exec_checked (sfdisk_cmd commands device)

abbrev pub dd_cmd : String → String
dd_cmd device =
    "dd if=/dev/zero of='" <> device <> "' bs=512 count=1 2>>/tmp/cachyos-install.log &>/dev/null"

abbrev pub wipe_cmd : String → String
wipe_cmd device = "wipefs -af '" <> device <> "' 2>>/tmp/cachyos-install.log &>/dev/null"

abbrev pub sgdisk_cmd : String → String
sgdisk_cmd device = "sgdisk -Zo '" <> device <> "' 2>>/tmp/cachyos-install.log &>/dev/null"

unfoldable pub erase_disk : String → M Bool
erase_disk device = and_then (exec_checked (dd_cmd device)) (
    and_then (exec_checked (wipe_cmd device))
      (and_then (exec_checked (sgdisk_cmd device)) (pure true)))

unfoldable pub generate_default_partition_schema : String → String → Bool → List Partition
generate_default_partition_schema device boot_mountpoint is_efi =
    let root_partition : Partition = record empty_partition {
      fstype = "btrfs";
      mountpoint = "/";
      device = device <> "1";
    } in
    let efi_partition : Partition = record empty_partition {
      fstype = "vfat";
      mountpoint = boot_mountpoint;
      device = device <> "1";
      size = "2GiB";
    } in
    let last_partition : Partition = record empty_partition {
      fstype = "btrfs";
      mountpoint = "/";
      device = device <> "2";
    } in
    if is_efi then efi_partition ∷ last_partition ∷ [] else root_partition ∷ []

unfoldable pub make_clean_partschema : Sorter → String → List Partition → Bool → M Bool
make_clean_partschema sorter device partitions is_efi =
    and_then (erase_disk device)
      (and_then (run_sfdisk_part (gen_sfdisk_command sorter partitions is_efi) device) (pure true))
