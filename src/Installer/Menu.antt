-- ===== src/Installer/Menu.antt =====
-- src/simple_tui.cpp: the choices of the user, and the installation that they ask for.
use new_cli_installer.Base.{String, ◌<>◌, Bool, true, not, none, List, if◌then◌else◌, is_empty}
use new_cli_installer.Base.Sort.{Sorter}
use new_cli_installer.Disk.Zfs.{zfs_list_devs}
use new_cli_installer.Packages.Profiles.{Toml}
use new_cli_installer.Sys.{M}
use new_cli_installer.Installer.Base.{install_base, install_desktop}
use new_cli_installer.Installer.Checks.{
  find_partitions, lvm_detect, list_mounted, list_containing_crypt,
}
use new_cli_installer.Installer.Filesystems.{select_filesystem}
use new_cli_installer.Installer.Grub.{install_bootloader}
use new_cli_installer.Installer.Packages.{touch}
use new_cli_installer.Installer.Simple.{make_partitions_prepared, no_parts}
use new_cli_installer.Installer.State.{
  Run, text, pure, ◌>>=◌, ◌>>◌, lift, if_ndevenv, get_text, get_number, get_texts, set, is_set,
}
use new_cli_installer.Installer.Steps.{
  umount_partitions, auto_partition, generate_fstab, set_hostname, set_locale, set_xkbmap,
  set_timezone, set_hw_clock, set_root_password, create_new_user,
}
use new_cli_installer.Installer.System.{output, interactive, arch_chroot}

pub record UserSelections : Type 0 where
  pub server_mode : Bool
  pub device : String
  pub filesystem : String
  pub bootloader : String
  pub hostname : String
  pub locale : String
  pub xkbmap : String
  pub timezone : String
  pub user_name : String
  pub user_pass : String
  pub user_shell : String
  pub root_pass : String
  pub kernel : String
  pub desktop : String
  pub post_install : String
  pub mount_options : String
  pub ready_partitions : List String

-- The menus and dialogs of src/tui.cpp that are opened for what the settings lack, and the choice of
-- a boot loader and of a file system.
pub record Dialogs : Type 0 where
  pub select_device : Run (Unit {0})
  pub create_partitions : Run (Unit {0})
  pub mount_current_partition : Run (Unit {0})
  pub select_bootloader : String → Run String
  pub select_filesystem : Run String
  pub set_hostname : Run (Unit {0})
  pub set_locale : Run (Unit {0})
  pub set_xkbmap : Run (Unit {0})
  pub set_timezone : Run (Unit {0})
  pub set_root_password : Run (Unit {0})
  pub create_new_user : Run (Unit {0})
  pub install_base : Run (Unit {0})
  pub install_desktop : Run (Unit {0})
  pub install_bootloader : Run (Unit {0})

-- The setting, or what a dialog gives if it is empty.
unfoldable pub or_dialog : String → Run (Unit {0}) → (String → Run (Unit {0})) → Run (Unit {0})
or_dialog value dialog step = if is_empty value then dialog else step value

module _ (tui : Dialogs) (sorter : Sorter) where
  unfoldable pub gather_device : String → Run String
  gather_device device_info =
      if is_empty device_info then (do tui.select_device; get_text "DEVICE") else pure device_info

  -- The boot loader, chosen and kept in the settings if there is none.
  unfoldable pub gather_bootloader : Run String
  gather_bootloader = do
    bootloader ← get_text "BOOTLOADER"
    if not (is_empty bootloader) then pure bootloader else do
      sys_info ← get_text "SYSTEM"
      chosen ← tui.select_bootloader sys_info
      set "BOOTLOADER" (text chosen)
      pure chosen

  unfoldable pub gather_filesystem : Run String
  gather_filesystem = do
    fs_name ← get_text "FILESYSTEM_NAME"
    if not (is_empty fs_name)
        then pure fs_name
        else do chosen ← tui.select_filesystem; set "FILESYSTEM_NAME" (text chosen); pure chosen

  -- What is done to the disks before the choices are read.
  unfoldable pub prepare_disks : Run (Unit {0})
  prepare_disks = do
    auto_partition sorter
    lvm_detect none
    set "INCLUDE_PART" (text "part\\|lvm\\|crypt")
    umount_partitions sorter
    output "zfs mount -aO &>/dev/null"
    find_partitions tui.create_partitions
    list_mounted
    lift zfs_list_devs
    list_containing_crypt
    pure tt

  unfoldable pub gather_user_selections : Run UserSelections
  gather_user_selections = do
    device_info ← get_text "DEVICE"
    ready_parts ← get_texts "READY_PARTITIONS"
    server_mode ← get_number "SERVER_MODE"
    device ← gather_device device_info
    prepare_disks
    bootloader ← gather_bootloader
    filesystem ← gather_filesystem
    (if no_parts ready_parts then select_filesystem filesystem else pure tt)
    hostname ← get_text "HOSTNAME"
    locale ← get_text "LOCALE"
    xkbmap ← get_text "XKBMAP"
    timezone ← get_text "TIMEZONE"
    user_name ← get_text "USER_NAME"
    user_pass ← get_text "USER_PASS"
    user_shell ← get_text "USER_SHELL"
    root_pass ← get_text "ROOT_PASS"
    kernel ← get_text "KERNEL"
    desktop ← get_text "DE"
    post_install ← get_text "POST_INSTALL"
    mount_options ← get_text "MOUNT_OPTS"
    pure (record {
      server_mode = is_set server_mode;
      device = device;
      filesystem = filesystem;
      bootloader = bootloader;
      hostname = hostname;
      locale = locale;
      xkbmap = xkbmap;
      timezone = timezone;
      user_name = user_name;
      user_pass = user_pass;
      user_shell = user_shell;
      root_pass = root_pass;
      kernel = kernel;
      desktop = desktop;
      post_install = post_install;
      mount_options = mount_options;
      ready_partitions = ready_parts;
    })

  -- The steps that set up the system on the partitions.
  unfoldable pub configure_system : UserSelections → Run (Unit {0})
  configure_system selections = do
    generate_fstab
    or_dialog selections.hostname tui.set_hostname set_hostname
    or_dialog selections.locale tui.set_locale set_locale
    or_dialog selections.xkbmap tui.set_xkbmap set_xkbmap
    or_dialog selections.timezone tui.set_timezone set_timezone
    set_hw_clock "utc"
    or_dialog selections.root_pass tui.set_root_password set_root_password
    or_dialog selections.user_name tui.create_new_user
        (λ user. create_new_user user selections.user_pass selections.user_shell)

  module _ (list_directory : String → M (List String)) (toml : Toml) where
    unfoldable pub install_system : UserSelections → Run (Unit {0})
    install_system selections = do
      or_dialog selections.kernel tui.install_base (install_base list_directory toml)
      (if selections.server_mode
          then pure tt
          else or_dialog selections.desktop tui.install_desktop
              (install_desktop list_directory toml))
      or_dialog selections.bootloader tui.install_bootloader install_bootloader
      if_ndevenv
          (if selections.server_mode then pure tt else (do
            arch_chroot "chwd -a" true
            mountpoint ← get_text "MOUNTPOINT"
            touch (mountpoint <> "/.video_installed")))
          (pure tt)
      if is_empty selections.post_install
          then pure tt
          else interactive (selections.post_install <> " &>>/tmp/cachyos-install.log")

    unfoldable pub apply_user_selections : UserSelections → Run (Unit {0})
    apply_user_selections selections = do
      mountpoint ← get_text "MOUNTPOINT"
      set "INCLUDE_PART" (text "part\\|lvm\\|crypt")
      umount_partitions sorter
      prepared ←
          make_partitions_prepared sorter tui.mount_current_partition selections.bootloader
            selections.filesystem selections.mount_options selections.ready_partitions
      if prepared
          then (configure_system selections >> install_system selections)
          else umount_partitions sorter

    unfoldable pub menu_simple : Run (Unit {0})
    menu_simple = do selections ← gather_user_selections; apply_user_selections selections
