-- ===== src/Installer/Loader.antt =====
-- src/utils.cpp and src/kernel_params.cpp: installing the boot loader with the settings.
use new_cli_installer.Base.{
  String, ◌==◌, ◌<>◌, Bool, not, ◌||◌, Option, none, some, List, [], ◌∷◌, ◌++◌, if◌then◌else◌,
  is_empty, contains_text, find_if, same_char,
}
use new_cli_installer.Base.Decimal.{ℤ, pos}
use new_cli_installer.Boot.Loaders.{GrubInstallConfig, install_grub}
use new_cli_installer.Boot.Loaders as Loaders
use new_cli_installer.Disk.Swap.{get_mountpoint_fs}
use new_cli_installer.Sys.Io.{read_whole_file}
use new_cli_installer.Installer.Filesystems.{is_volume_removable}
use new_cli_installer.Installer.Packages.{copy, install_from_pkglist}
use new_cli_installer.Installer.Steps.{logged}
use new_cli_installer.Installer.State.{
  Run, pure, ◌>>=◌, ◌>>◌, lift, if_ndevenv, get_text, get_number, get_texts, is_int,
}
use new_cli_installer.Installer.System.{inst_needed}

-- kernel parameters of the settings

-- The text in front of the first space.
unfoldable pub first_word : String → String
first_word String.[] = ""
first_word (String.◌∷◌ c s) =
    let rest = String.◌∷◌ c (first_word s) in if same_char c " " then "" else rest

-- A partition's line that has the root's mountpoint.
abbrev pub is_root_line : String → Bool
is_root_line partition =
    contains_text partition "/ "
    || (contains_text partition "/ ext"
        || (contains_text partition "/ btrfs" || contains_text partition "/ xfs"))

unfoldable pub root_device : List String → String
root_device partitions = elim (find_if is_root_line partitions) [
  | none ↦ ""
  | some partition ↦ first_word partition
]

-- The root behind LVM or LUKS.
unfoldable pub adjust_root : ℤ → ℤ → String → Run String
adjust_root lvm luks device =
    if is_int lvm (pos 1)
    then (do lvm_group ← get_text "LVM_GROUP"; pure ("/dev/" <> lvm_group <> "/root"))
    else if is_int luks (pos 1)
    then (do luks_root_name ← get_text "LUKS_ROOT_NAME"; pure ("/dev/mapper/" <> luks_root_name))
    else pure device

unfoldable pub root_params : ℤ → ℤ → List String → Run (List String)
root_params lvm luks partitions =
    let device = root_device partitions in
    if is_empty device
    then pure []
    else (do adjusted ← adjust_root lvm luks device; pure (("root=" <> adjusted) ∷ []))

unfoldable pub crypt_params : ℤ → Run (List String)
crypt_params luks =
    if is_int luks (pos 1)
    then (do
      luks_dev ← get_text "LUKS_DEV"
      luks_root_name ← get_text "LUKS_ROOT_NAME"
      pure (("cryptdevice=" <> luks_dev <> ":" <> luks_root_name) ∷ []))
    else pure []

-- It always has a value.
unfoldable pub get_kernel_params : Run (Option (List String))
get_kernel_params = do
  luks ← get_number "LUKS"
  lvm ← get_number "LVM"
  raid ← get_number "RAID"
  partitions ← get_texts "PARTITIONS"
  crypt ← crypt_params luks
  root ← root_params lvm luks partitions
  let raid_params = if is_int raid (pos 1) then "rd.auto=1" ∷ [] else []
  pure (some (crypt ++ root ++ ("rw" ∷ "quiet" ∷ []) ++ raid_params))

-- rEFInd, systemd-boot and Limine

unfoldable pub refind_steps : List String → Run (Unit {0})
refind_steps kernel_params = do
  mountpoint ← get_text "MOUNTPOINT"
  uefi_mount ← get_text "UEFI_MOUNT"
  removable ← is_volume_removable
  installed ← lift (
      Loaders.install_refind (record {
        is_removable = removable;
        root_mountpoint = mountpoint;
        boot_mountpoint = mountpoint <> uefi_mount;
        extra_kernel_versions = [];
        kernel_params = kernel_params;
      }))
  if not installed then pure tt else do
    lift (read_whole_file (mountpoint <> "/boot/refind_linux.conf"))
    logged (install_from_pkglist "refind-theme-nord")

unfoldable pub install_refind : Run (Unit {0})
install_refind =
    if_ndevenv
      (do
        inst_needed "refind"
        kernel_params ← get_kernel_params
        elim kernel_params [ none ↦ pure tt | some params ↦ refind_steps params ])
      (pure tt)

unfoldable pub install_systemd_boot : Run (Unit {0})
install_systemd_boot =
    if_ndevenv
      (do
        mountpoint ← get_text "MOUNTPOINT"
        uefi_mount ← get_text "UEFI_MOUNT"
        install_from_pkglist "systemd-boot-manager"
        removable ← is_volume_removable
        logged (lift (Loaders.install_systemd_boot mountpoint uefi_mount removable)))
      (pure tt)

unfoldable pub limine_steps : List String → Run (Unit {0})
limine_steps kernel_params = do
  mountpoint ← get_text "MOUNTPOINT"
  uefi_mount ← get_text "UEFI_MOUNT"
  removable ← is_volume_removable
  let boot_mountpoint = mountpoint <> uefi_mount
  install_from_pkglist "limine-mkinitcpio-hook"
  inst_needed "cachyos-wallpapers"
  copy "/usr/share/wallpapers/cachyos-wallpapers/limine-splash.png"
      (boot_mountpoint <> "/limine-splash.png")
  installed ← lift (
      Loaders.install_limine (record {
        is_removable = removable;
        root_mountpoint = mountpoint;
        boot_mountpoint = boot_mountpoint;
        kernel_params = kernel_params;
      }))
  if not installed then pure tt else do
    filesystem_type ← lift (get_mountpoint_fs mountpoint)
    if filesystem_type == "btrfs"
        then logged (install_from_pkglist "cachyos-snapper-support limine-snapper-sync")
        else pure tt

unfoldable pub install_limine : Run (Unit {0})
install_limine =
    if_ndevenv
      (do
        kernel_params ← get_kernel_params
        elim kernel_params [ none ↦ pure tt | some params ↦ limine_steps params ])
      (pure tt)
