-- ===== src/Installer/Steps.antt =====
-- src/utils.cpp: the steps of an installation that hand the settings to the library gucc.
use new_cli_installer.Base.{
  String, ◌==◌, ◌<>◌, Bool, true, false, ◌||◌, List, [], ◌∷◌, if◌then◌else◌, is_empty, ends_with,
}
use new_cli_installer.Base.Decimal.{ℤ}
use new_cli_installer.Base.Sort.{Sorter}
use new_cli_installer.Disk.{Partition}
use new_cli_installer.Disk.Fstab.{run_genfstab_on_mount}
use new_cli_installer.Disk.Partitioning.{generate_default_partition_schema, make_clean_partschema}
use new_cli_installer.Disk.Umount.{Unmounted, returned, undefined_run}
use new_cli_installer.Disk.Umount as Umount
use new_cli_installer.Host.Locale.{set_hwclock_utc, set_hwclock_localtime}
use new_cli_installer.Host.Locale as Locale
use new_cli_installer.Host.User as User
use new_cli_installer.Installer.State.{
  Run, text, pure, ◌>>=◌, ◌>>◌, quit, lift, if_ndevenv, get_text, get_number, get_texts, set,
  is_set,
}
use new_cli_installer.Installer.System.{
  output, succeeds, run_or_follow, arch_chroot, inst_needed, bootloader_default_mount,
}

-- A step whose failure is only written to the log.
abbrev pub logged : Run Bool → Run (Unit {0})
logged step = do step; pure tt

-- `swapoff` of the swap device, if there is one.
unfoldable pub disable_swap : String → Run (Unit {0})
disable_swap swap_device =
    if is_empty swap_device then pure tt else logged (succeeds ("swapoff " <> swap_device))

abbrev pub defined : Unmounted → Run (Unit {0})
defined (returned done) = pure tt
defined undefined_run = quit

unfoldable pub umount_partitions : Sorter → Run (Unit {0})
umount_partitions sorter = do
  mountpoint ← get_text "MOUNTPOINT"
  zfs_zpool_names ← get_texts "ZFS_ZPOOL_NAMES"
  swap_device ← get_text "SWAP_DEVICE"
  if_ndevenv
      (do
        disable_swap swap_device
        done ← lift (Umount.umount_partitions sorter mountpoint zfs_zpool_names)
        defined done)
      (pure tt)

abbrev pub no_partitions : List Partition → Bool
no_partitions [] = true
no_partitions (p ∷ ps) = false

unfoldable pub auto_partition : Sorter → Run (Unit {0})
auto_partition sorter = do
  device_info ← get_text "DEVICE"
  system_info ← get_text "SYSTEM"
  bootloader ← get_text "BOOTLOADER"
  let boot_mountpoint = bootloader_default_mount bootloader system_info
  let is_system_efi = system_info == "UEFI"
  let partitions = generate_default_partition_schema device_info boot_mountpoint is_system_efi
  if boot_mountpoint == "unknown bootloader"
      then pure tt
      else if_ndevenv
          (if no_partitions partitions
            then pure tt
            else logged (lift (make_clean_partschema sorter device_info partitions is_system_efi)))
          (pure tt)

unfoldable pub secure_wipe : Run (Unit {0})
secure_wipe = do
  device_info ← get_text "DEVICE"
  if_ndevenv (do inst_needed "wipe"; logged (run_or_follow ("wipe -Ifre " <> device_info)))
      (pure tt)

unfoldable pub generate_fstab : Run (Unit {0})
generate_fstab = do
  mountpoint ← get_text "MOUNTPOINT"
  if_ndevenv (logged (lift (run_genfstab_on_mount mountpoint))) (pure tt)

unfoldable pub set_hostname : String → Run (Unit {0})
set_hostname hostname =
    if_ndevenv
      (do mountpoint ← get_text "MOUNTPOINT"; logged (lift (User.set_hostname hostname mountpoint)))
      (pure tt)

unfoldable pub set_locale : String → Run (Unit {0})
set_locale locale =
    if_ndevenv
      (do mountpoint ← get_text "MOUNTPOINT"; logged (lift (Locale.set_locale locale mountpoint)))
      (pure tt)

unfoldable pub xkbmap_command : String → String → String
xkbmap_command xkbmap mountpoint =
    "echo -e \"Section \"\\\"InputClass\"\\\"\\nIdentifier \"\\\"system-keyboard\"\\\"\\nMatchIsKeyboard \"\\\"on\"\\\"\\nOption \"\\\"XkbLayout\"\\\" \"\\\""
    <> xkbmap <> "\"\\\"\\nEndSection\" > " <> mountpoint <> "/etc/X11/xorg.conf.d/00-keyboard.conf"

unfoldable pub set_xkbmap : String → Run (Unit {0})
set_xkbmap xkbmap =
    if_ndevenv
      (do mountpoint ← get_text "MOUNTPOINT"; output (xkbmap_command xkbmap mountpoint); pure tt)
      (pure tt)

-- The overload with a keymap.
unfoldable pub set_keymap : String → Run (Unit {0})
set_keymap selected_keymap = set "KEYMAP" (text selected_keymap)

-- The overload without one.
unfoldable pub load_keymap : Run (Unit {0})
load_keymap = do keymap ← get_text "KEYMAP"; output ("loadkeys " <> keymap); pure tt

unfoldable pub set_timezone : String → Run (Unit {0})
set_timezone timezone =
    if_ndevenv (arch_chroot ("ln -sf /usr/share/zoneinfo/" <> timezone <> " /etc/localtime") false)
      (pure tt)

unfoldable pub set_hw_clock : String → Run (Unit {0})
set_hw_clock clock_type =
    if_ndevenv
      (do
        mountpoint ← get_text "MOUNTPOINT"
        if clock_type == "utc"
            then logged (lift (set_hwclock_utc mountpoint))
            else if clock_type == "localtime"
            then logged (lift (set_hwclock_localtime mountpoint))
            else pure tt)
      (pure tt)

abbrev pub default_user_groups : List String
default_user_groups =
    "wheel" ∷ "rfkill" ∷ "sys" ∷ "users" ∷ "lp" ∷ "video" ∷ "network" ∷ "storage" ∷ "audio" ∷ []

-- `pacstrap`, with the cache of the host or with that of the new system.
unfoldable pub pacstrap_command : ℤ → String → String → String
pacstrap_command hostcache mountpoint packages =
    (if is_set hostcache then "pacstrap" else "pacstrap -c")
    <> " "
    <> mountpoint
    <> " "
    <> packages
    <> " |& tee -a /tmp/pacstrap.log"

unfoldable pub install_shell_settings : String → String → Run (Unit {0})
install_shell_settings shell mountpoint =
    if ends_with shell "zsh" || ends_with shell "fish"
    then (do
      hostcache ← get_number "hostcache"
      let packages = "cachyos-" <> (if ends_with shell "zsh" then "zsh" else "fish") <> "-config"
      logged (run_or_follow (pacstrap_command hostcache mountpoint packages)))
    else pure tt

unfoldable pub create_new_user : String → String → String → Run (Unit {0})
create_new_user user password shell =
    if_ndevenv
      (do
        mountpoint ← get_text "MOUNTPOINT"
        install_shell_settings shell mountpoint
        logged (
            lift (
              User.create_new_user
                (record {
                  username = user;
                  password = password;
                  shell = shell;
                  sudoers_group = "wheel";
                })
                default_user_groups mountpoint)))
      (pure tt)

unfoldable pub set_root_password : String → Run (Unit {0})
set_root_password password =
    if_ndevenv
      (do
        mountpoint ← get_text "MOUNTPOINT"
        logged (lift (User.set_root_password password mountpoint)))
      (pure tt)

unfoldable pub enable_autologin : String → String → Run (Unit {0})
enable_autologin dm username =
    if_ndevenv
      (do
        mountpoint ← get_text "MOUNTPOINT"
        logged (lift (User.enable_autologin dm username mountpoint)))
      (pure tt)
