-- ===== src/Installer/Simple.antt =====
-- src/simple_tui.cpp: preparing the partitions of an installation.
pub mod Ready
use new_cli_installer.Base.{
  String, ◌==◌, ◌<>◌, Bool, true, false, not, ◌&&◌, ◌||◌, Option, none, some, List, [], ◌∷◌, ◌++◌,
  if◌then◌else◌, is_empty,
}
use new_cli_installer.Base.Decimal.{pos}
use new_cli_installer.Base.Sort.{Sorter}
use new_cli_installer.Lines.{make_multiline}
use new_cli_installer.Disk.{Partition, empty_partition}
use new_cli_installer.Disk.Swap.{get_mountpoint_fs, get_device_uuid}
use new_cli_installer.Installer.Crypt.{get_cryptroot, get_cryptboot}
use new_cli_installer.Installer.Disk.{btrfs_create_subvols, mount_existing_subvols}
use new_cli_installer.Installer.Filesystems.{select_filesystem}
use new_cli_installer.Installer.State.{
  Run, text, number, pure, ◌>>=◌, ◌>>◌, quit, lift, if_ndevenv, get_text, set,
}
use new_cli_installer.Installer.System.{output, succeeds, bootloader_default_mount}

-- The five parts of a partition that is ready. Fewer are read beyond their end.
pub record Part : Type 0 where
  pub name : String
  pub mountpoint : String
  pub size : String
  pub fs : String
  pub type : String

unfoldable pub part_info : List String → Option Part
part_info [] = none
part_info (a ∷ []) = none
part_info (a ∷ b ∷ []) = none
part_info (a ∷ b ∷ c ∷ []) = none
part_info (a ∷ b ∷ c ∷ d ∷ []) = none
part_info (a ∷ b ∷ c ∷ d ∷ e ∷ rest) =
    some (record { name = a; mountpoint = b; size = c; fs = d; type = e })

unfoldable pub read_part : String → Option Part
read_part ready_part = part_info (make_multiline ready_part false "\t")

-- Formats the partition as fat if it is not yet.
unfoldable pub format_esp : String → Bool → Run (Unit {0})
format_esp partition reformat_part = do
  is_fat_part ← succeeds ("fsck -N " <> partition <> " | grep -q fat")
  if not is_fat_part && reformat_part
      then if_ndevenv (output ("mkfs.vfat -F32 " <> partition <> " &>/dev/null") >> pure tt)
          (pure tt)
      else pure tt

unfoldable pub mount_esp : String → String → Run (Unit {0})
mount_esp partition part_mountpoint =
    if_ndevenv
      (do
        output ("mkdir -p " <> part_mountpoint)
        output ("mount " <> partition <> " " <> part_mountpoint)
        pure tt)
      (pure tt)

unfoldable pub esp_mount : String → String → String → String
esp_mount boot_part_mountpoint bootloader_name sys_info =
    if boot_part_mountpoint == "(empty)"
    then bootloader_default_mount bootloader_name sys_info
    else boot_part_mountpoint

-- On UEFI systems the boot partition is formatted, mounted and added.
unfoldable pub make_esp : List Partition → String → String → Bool → String → Run (List Partition)
make_esp partitions part_name bootloader_name reformat_part boot_part_mountpoint = do
  sys_info ← get_text "SYSTEM"
  if not (sys_info == "UEFI") then pure partitions else do
    let uefi_mount = esp_mount boot_part_mountpoint bootloader_name sys_info
    set "PARTITION" (text part_name)
    set "UEFI_MOUNT" (text uefi_mount)
    set "UEFI_PART" (text part_name)
    format_esp part_name reformat_part
    mountpoint_info ← get_text "MOUNTPOINT"
    mount_esp part_name (mountpoint_info <> uefi_mount)
    part_fs ← lift (get_mountpoint_fs (mountpoint_info <> uefi_mount))
    part_uuid ← lift (get_device_uuid part_name)
    pure (
        partitions
        ++ record empty_partition {
          fstype = part_fs;
          mountpoint = uefi_mount;
          uuid_str = part_uuid;
          device = part_name;
          mount_opts = "defaults";
        }
          ∷ [])

abbrev pub if_text : String → Option String
if_text t = if is_empty t then none else some t

-- The partition of a part that is mounted, with what the settings say of LUKS.
unfoldable pub part_struct : Part → String → Run Partition
part_struct part mount_opts_info = do
  part_uuid ← lift (get_device_uuid part.name)
  luks_name ← get_text "LUKS_NAME"
  luks_uuid ← get_text "LUKS_UUID"
  pure (record empty_partition {
    fstype = part.fs;
    mountpoint = part.mountpoint;
    uuid_str = part_uuid;
    device = part.name;
    mount_opts = mount_opts_info;
    luks_mapper_name = if_text luks_name;
    luks_uuid = if_text luks_uuid;
  })

-- 0 without a separate /boot, 1 if it is not on LVM, 2 if it is.
unfoldable pub note_boot : Part → Run (Unit {0})
note_boot part =
    if part.mountpoint == "/boot"
    then (do
      set "LVM_SEP_BOOT" (number (pos 1))
      is_boot_lvm ← succeeds ("lsblk -lno TYPE " <> part.name <> " | grep -q 'lvm'")
      if is_boot_lvm then set "LVM_SEP_BOOT" (number (pos 2)) else pure tt)
    else pure tt

abbrev pub no_parts : List String → Bool
no_parts [] = true
no_parts (p ∷ ps) = false

module _ (sorter : Sorter) (mount_current_partition : Run (Unit {0})) where
  -- `mount_current_partition` is the dialog of that name, which formats and mounts the partition in
  -- the settings.
  unfoldable pub root_subvols : Part → String → List Partition → Run (List Partition)
  root_subvols part root_fs partitions =
      if root_fs == "btrfs"
      then (do
        mountpoint_info ← get_text "MOUNTPOINT"
        subvolumes ← output (
            "btrfs subvolume list '" <> mountpoint_info <> part.mountpoint
            <> "' 2>/dev/null | cut -d' ' -f9")
        if is_empty subvolumes
            then btrfs_create_subvols sorter partitions "automatic" true
            else mount_existing_subvols sorter partitions)
      else pure partitions

  unfoldable pub prepare_boot : Part → String → List Partition → Run (List Partition)
  prepare_boot part bootloader partitions = do
    set "UEFI_MOUNT" (text part.mountpoint)
    set "UEFI_PART" (text part.name)
    made ← make_esp partitions part.name bootloader true part.mountpoint
    get_cryptroot
    get_cryptboot
    pure made

  unfoldable pub prepare_root : Part → String → String → List Partition → Run (List Partition)
  prepare_root part root_fs mount_opts_info partitions = do
    set "PARTITION" (text part.name)
    set "ROOT_PART" (text part.name)
    set "MOUNT" (text part.mountpoint)
    select_filesystem root_fs
    mount_current_partition
    added ← part_struct part mount_opts_info
    root_subvols part root_fs (partitions ++ added ∷ [])

  unfoldable pub prepare_additional : Part → String → List Partition → Run (List Partition)
  prepare_additional part mount_opts_info partitions = do
    set "MOUNT" (text part.mountpoint)
    set "PARTITION" (text part.name)
    select_filesystem part.fs
    mount_current_partition
    added ← part_struct part mount_opts_info
    note_boot part
    pure (partitions ++ added ∷ [])

  -- One round of the loop; another type is passed over.
  unfoldable pub prepare_part :
      Part → String → String → String → List Partition → Run (List Partition)
  prepare_part part bootloader root_fs mount_opts_info partitions =
      if part.type == "boot"
      then prepare_boot part bootloader partitions
      else if part.type == "root"
      then prepare_root part root_fs mount_opts_info partitions
      else if part.type == "additional"
      then prepare_additional part mount_opts_info partitions
      else pure partitions

  unfoldable pub prepare_parts :
      List String → String → String → String → List Partition → Run (List Partition)
  prepare_parts [] bootloader root_fs mount_opts_info partitions = pure partitions
  prepare_parts (ready_part ∷ ready_parts) bootloader root_fs mount_opts_info partitions =
      elim (read_part ready_part) [
        | none ↦ quit
        | some part ↦ do
          prepared ← prepare_part part bootloader root_fs mount_opts_info partitions
          prepare_parts ready_parts bootloader root_fs mount_opts_info prepared
      ]

  -- The partitions are only written to the log.
  unfoldable pub make_partitions_prepared : String → String → String → List String → Run Bool
  make_partitions_prepared bootloader root_fs mount_opts_info ready_parts =
      if no_parts ready_parts then pure false else (do
        mountpoint_info ← get_text "MOUNTPOINT"
        partitions ← prepare_parts ready_parts bootloader root_fs mount_opts_info []
        pure true)
