-- ===== src/Installer/Grub.antt =====
-- src/utils.cpp: installing GRUB, and the choice of the boot loader.
use new_cli_installer.Base.{
  String, ◌==◌, ◌<>◌, Bool, true, false, not, ◌&&◌, ◌||◌, none, some, if◌then◌else◌, is_empty,
}
use new_cli_installer.Base.Decimal.{ℤ, pos}
use new_cli_installer.Boot.Grub.{GrubConfig}
use new_cli_installer.Boot.Initcpio.{file_exists}
use new_cli_installer.Boot.Loaders.{GrubInstallConfig, install_grub}
use new_cli_installer.Disk.Swap.{get_mountpoint_fs, get_mountpoint_source}
use new_cli_installer.Sys.{
  ask, create_directory, create_directories, remove, umount, permissions, dialog,
}
use new_cli_installer.Sys as Sys
use new_cli_installer.Installer.Checks.{check_base, efi_there, mount_efivarfs}
use new_cli_installer.Installer.Crypt.{boot_encrypted_setting, root_part_command}
use new_cli_installer.Installer.Disk.{disk_command}
use new_cli_installer.Installer.Filesystems.{is_volume_removable, root_name_command}
use new_cli_installer.Installer.Packages.{copy}
use new_cli_installer.Installer.State.{
  Run, pure, ◌>>=◌, ◌>>◌, quit, lift, if_ndevenv, get_text, get_number, is_int,
}
use new_cli_installer.Installer.System.{output, succeeds, arch_chroot}
use new_cli_installer.Installer.Loader.{install_refind, install_systemd_boot, install_limine}

-- `GrubConfig{}` and `GrubInstallConfig{}`
abbrev pub default_grub_config : GrubConfig
default_grub_config = record {
  default_entry = "0";
  grub_timeout = pos 5;
  grub_distributor = "Arch";
  cmdline_linux_default = "loglevel=3 quiet";
  cmdline_linux = "";
  preload_modules = "part_gpt part_msdos";
  enable_cryptodisk = none;
  timeout_style = "menu";
  terminal_input = "console";
  terminal_output = none;
  gfxmode = "auto";
  gfxpayload_linux = "keep";
  disable_linux_uuid = none;
  disable_recovery = true;
  color_normal = none;
  color_highlight = none;
  background = none;
  theme = none;
  init_tune = none;
  savedefault = none;
  disable_submenu = none;
  disable_os_prober = none;
}

abbrev pub default_install_config : GrubInstallConfig
default_install_config = record {
  is_efi = false;
  do_recheck = false;
  is_removable = false;
  is_root_on_zfs = false;
  device = none;
  efi_directory = none;
  bootloader_id = none;
}

-- Requests whose failure is not looked at.
abbrev pub request : Sys.Event → Run (Unit {0})
request event = lift (ask event (λ os log. tt))

-- The script that installs the packages in the new system.
abbrev pub grub_installer : String → String
grub_installer packages =
    "#!/bin/bash\nln -s /hostlvm /run/lvm\npacman -S --noconfirm --needed " <> packages <> "\n"

-- The settings for a root on zfs.
unfoldable pub zfs_root_config : GrubConfig → String → GrubConfig
zfs_root_config grub_config mountpoint_source =
    let zroot_var = "zfs=" <> mountpoint_source <> " rw" in
    record grub_config {
      cmdline_linux_default = grub_config.cmdline_linux_default <> " " <> zroot_var;
      cmdline_linux = grub_config.cmdline_linux <> " " <> zroot_var;
    }

-- Writes the script, and gives the settings for the root's file system; `packages` are those on
-- every root, and zfs has no use for those of btrfs.
unfoldable pub prepare_root : String → String → GrubConfig → String → String → Run GrubConfig
prepare_root root_part_fs packages grub_config mountpoint grub_installer_path =
    if root_part_fs == "zfs"
    then (do
      output ("echo 'ZPOOL_VDEV_NAME_PATH=YES' >> " <> mountpoint <> "/etc/environment")
      mountpoint_source ← lift (get_mountpoint_source mountpoint)
      request (Sys.write grub_installer_path (grub_installer packages))
      pure (zfs_root_config grub_config mountpoint_source))
    else (do
      is_root_lvm ← succeeds "lsblk -ino TYPE,MOUNTPOINT | grep ' /$' | grep -q lvm"
      request (Sys.write grub_installer_path (grub_installer (packages <> " grub-btrfs grub-hook")))
      pure (
          if is_root_lvm || root_part_fs == "btrfs"
          then record grub_config { savedefault = none }
          else grub_config))

-- Takes the support of btrfs out of the script where the root is no subvolume.
unfoldable pub amend_script : String → Run (Unit {0})
amend_script grub_installer_path = do
  is_btrfs_subvol ←
      succeeds "mount | awk '$3 == \"/mnt\" {print $0}' | grep btrfs | grep -qv subvolid=5"
  if is_btrfs_subvol
      then pure tt
      else (output ("sed -e 's/ grub-btrfs//g' -i " <> grub_installer_path) >> pure tt)

-- The settings for what is encrypted.
unfoldable pub amend_crypt : GrubConfig → Run GrubConfig
amend_crypt grub_config = do
  luks_dev ← get_text "LUKS_DEV"
  with_device ←
      (if is_empty luks_dev then pure grub_config else (do
        device ← output ("echo '" <> luks_dev <> "' | awk '{print $1}'")
        pure (record grub_config { cmdline_linux = device <> " " <> grub_config.cmdline_linux })))
  fde ← get_number "fde"
  pure (
      if is_int fde (pos 1)
      then record with_device { enable_cryptodisk = some true }
      else with_device)

unfoldable pub remove_hostlvm : Run (Unit {0})
remove_hostlvm = do request (umount "/mnt/hostlvm"); request (remove "/mnt/hostlvm")

abbrev pub failed_body : String
failed_body = "\nFailed to install grub\n"

-- A call of `std::filesystem` that throws where it fails.
abbrev pub or_quit : Sys.Event → Run (Unit {0})
or_quit event = do
  done ← lift (ask event (λ os log. os.succeeds log event))
  if done then pure tt else quit

-- The binary of GRUB becomes the default one.
unfoldable pub copy_default : String → Run (Unit {0})
copy_default boot_mountpoint = do
  request (create_directories (boot_mountpoint <> "/EFI/boot"))
  lift (file_exists (boot_mountpoint <> "/EFI/cachyos/grubx64.efi"))
  copy (boot_mountpoint <> "/EFI/cachyos/grubx64.efi") (boot_mountpoint <> "/EFI/boot/bootx64.efi")

unfoldable pub grub_uefi_steps : String → Bool → Run (Unit {0})
grub_uefi_steps bootid as_default = do
  uefi_mount ← get_text "UEFI_MOUNT"
  mountpoint ← get_text "MOUNTPOINT"
  let grub_installer_path = mountpoint <> "/usr/bin/grub_installer.sh"
  root_part_fs ← lift (get_mountpoint_fs mountpoint)
  rooted ←
      prepare_root root_part_fs "grub efibootmgr dosfstools" default_grub_config mountpoint
        grub_installer_path
  or_quit (permissions grub_installer_path "+x")
  removable ← is_volume_removable
  amend_script grub_installer_path
  grub_config ← amend_crypt rooted
  arch_chroot "grub_installer.sh" true
  installed ← lift (
      install_grub grub_config
        (record default_install_config {
          is_efi = true;
          do_recheck = true;
          is_removable = removable;
          is_root_on_zfs = root_part_fs == "zfs";
          efi_directory = some uefi_mount;
          bootloader_id = some bootid;
        })
        mountpoint)
  remove_hostlvm
  if not installed
      then request (dialog failed_body)
      else if as_default
      then copy_default (mountpoint <> uefi_mount)
      else pure tt

unfoldable pub install_grub_uefi : String → Bool → Run (Unit {0})
install_grub_uefi bootid as_default = do
  if_ndevenv
      (do
        or_quit (create_directory "/mnt/hostlvm")
        output "mount --bind /run/lvm /mnt/hostlvm"
        pure tt)
      (pure tt)
  root_name ← output root_name_command
  root_device ← output (disk_command root_name)
  root_part ← output (root_part_command root_name)
  if_ndevenv (boot_encrypted_setting >> grub_uefi_steps bootid as_default) (pure tt)

-- Whether `/boot` is on LVM, in the root or separate.
abbrev pub boot_on_lvm : ℤ → ℤ → Bool
boot_on_lvm lvm lvm_sep_boot =
    (is_int lvm (pos 1) && is_int lvm_sep_boot (pos 0)) || is_int lvm_sep_boot (pos 2)

-- The settings before the root is looked at.
unfoldable pub bios_config : ℤ → ℤ → GrubConfig
bios_config lvm lvm_sep_boot = record default_grub_config {
  preload_modules =
      if boot_on_lvm lvm lvm_sep_boot then "lvm part_gpt part_msdos" else "part_gpt part_msdos";
  disable_os_prober = some false;
}

unfoldable pub bios_steps : Run (Unit {0})
bios_steps = do
  boot_encrypted_setting
  lvm ← get_number "LVM"
  lvm_sep_boot ← get_number "LVM_SEP_BOOT"
  mountpoint ← get_text "MOUNTPOINT"
  device_info ← get_text "DEVICE"
  root_part_fs ← lift (get_mountpoint_fs mountpoint)
  let grub_installer_path = mountpoint <> "/usr/bin/grub_installer.sh"
  rooted ←
      prepare_root root_part_fs "grub os-prober" (bios_config lvm lvm_sep_boot) mountpoint
        grub_installer_path
  amend_script grub_installer_path
  grub_config ← amend_crypt rooted
  request (dialog "\nPlease wait...\n")
  output ("dd if=/dev/zero of=" <> device_info <> " seek=1 count=2047")
  request (create_directory "/mnt/hostlvm")
  output "mount --bind /run/lvm /mnt/hostlvm"
  arch_chroot "grub_installer.sh" true
  request (remove grub_installer_path)
  remove_hostlvm
  installed ← lift (
      install_grub grub_config
        (record default_install_config { do_recheck = true; device = some device_info }) mountpoint)
  if installed then pure tt else request (dialog failed_body)

unfoldable pub bios_bootloader : String → Run (Unit {0})
bios_bootloader bootloader = if_ndevenv bios_steps (pure tt)

unfoldable pub uefi_bootloader : String → Run (Unit {0})
uefi_bootloader bootloader = do
  if_ndevenv (do efi ← efi_there; if efi then mount_efivarfs else pure tt) (pure tt)
  if bootloader == "grub"
      then install_grub_uefi "cachyos" true
      else if bootloader == "refind"
      then install_refind
      else if bootloader == "systemd-boot"
      then install_systemd_boot
      else if bootloader == "limine"
      then install_limine
      else pure tt

unfoldable pub install_bootloader : String → Run (Unit {0})
install_bootloader bootloader = do
  base ← check_base
  if not base then pure tt else do
    system_info ← get_text "SYSTEM"
    if system_info == "BIOS" then bios_bootloader bootloader else uefi_bootloader bootloader
