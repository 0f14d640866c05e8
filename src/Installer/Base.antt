-- ===== src/Installer/Base.antt =====
-- src/utils.cpp: install_base, install_desktop and the services of the new system.
use new_cli_installer.Base.{
  String, ◌==◌, ◌<>◌, Bool, true, false, not, ◌&&◌, Option, none, some, List, [], ◌∷◌, suc, ◌-◌,
  ◌+◌, leb, if◌then◌else◌, is_empty, ends_with, starts_with,
}
use new_cli_installer.Base.Decimal.{ℤ, pos, negsuc}
use new_cli_installer.Lines.{join}
use new_cli_installer.Boot.Initcpio.{Initcpio, file_exists, append_hooks}
use new_cli_installer.Disk.Swap.{get_mountpoint_fs}
use new_cli_installer.Host.Locale.{enable_systemd_service, install_available_profiles}
use new_cli_installer.Packages.Profiles.{Toml}
use new_cli_installer.Sys.{M}
use new_cli_installer.Installer.Crypt.{recheck_luks}
use new_cli_installer.Installer.Packages.{
  no_packages, copy, touch, get_pkglist_base, get_pkglist_desktop, install_from_pkglist, editing,
  base_hooks, filesystem_hooks, raid_hooks, raid_diagnostics, crypt_hooks, copy_mdadm_conf,
  flush_hooks, setup_zfs_services,
}
use new_cli_installer.Installer.Steps.{generate_fstab, logged}
use new_cli_installer.Installer.State.{
  Run, text, pure, ◌>>=◌, ◌>>◌, lift, if_ndevenv, get_text, get_number, set, is_int, as_number,
}
use new_cli_installer.Installer.System.{output, succeeds, arch_chroot}

-- `a + b` on `std::int32_t`, for flags.
abbrev pub plus : ℤ → ℤ → ℤ
plus (pos m) (pos n) = pos (m + n)
plus (pos m) (negsuc n) = if leb (suc n) m then pos (m - suc n) else negsuc (n - m)
plus (negsuc m) (pos n) = if leb (suc m) n then pos (n - suc m) else negsuc (m - n)
plus (negsuc m) (negsuc n) = negsuc (suc (m + n))

abbrev pub is_positive : ℤ → Bool
is_positive (pos n) = leb 1 n
is_positive (negsuc n) = false

abbrev pub one_if : Bool → ℤ
one_if true = pos 1
one_if false = pos 0

-- Whether RAID is used; a setting that is no number counts as unused.
unfoldable pub raid_used : Run Bool
raid_used os s =
    (some (elim (as_number (s.config "RAID")) [ none ↦ false | some n ↦ is_int n (pos 1) ]), s)

abbrev pub mkinitcpio_conf : String → Initcpio
mkinitcpio_conf mountpoint = record {
  modules = [];
  files = [];
  hooks = [];
  m_file_path = mountpoint <> "/etc/mkinitcpio.conf";
}

-- What follows the packages of the base system, for the hooks that the file has then.
unfoldable pub configure_hooks : String → Initcpio → Run (Unit {0})
configure_hooks mountpoint initcpio = do
  filesystem_type ← lift (get_mountpoint_fs mountpoint)
  with_fs ← filesystem_hooks filesystem_type initcpio
  recheck_luks
  lvm ← get_number "LVM"
  luks ← get_number "LUKS"
  raid ← raid_used
  with_raid ← raid_hooks raid with_fs
  (if raid && is_int lvm (pos 1) then raid_diagnostics else pure tt)
  with_crypt ← crypt_hooks lvm luks with_raid
  (if raid then copy_mdadm_conf else pure tt)
  flush_hooks with_crypt
  let btrfs_root = one_if (filesystem_type == "btrfs")
  let zfs_root = one_if (filesystem_type == "zfs")
  if is_positive (plus (plus (plus lvm luks) btrfs_root) zfs_root)
      then arch_chroot "mkinitcpio -P" true
      else pure tt

unfoldable pub configure_base : String → Run (Unit {0})
configure_base base_pkgs = do
  mountpoint ← get_text "MOUNTPOINT"
  zfs ← get_number "ZFS"
  initcpio ← editing (append_hooks base_hooks) (mkinitcpio_conf mountpoint)
  install_from_pkglist base_pkgs
  copy "/etc/pacman.conf" (mountpoint <> "/etc/pacman.conf")
  touch "/mnt/.base_installed"
  configure_hooks mountpoint initcpio
  generate_fstab
  lift (install_available_profiles mountpoint)
  if is_int zfs (pos 0) then pure tt else setup_zfs_services mountpoint

abbrev pub services : List String
services =
    "avahi-daemon" ∷ "bluetooth" ∷ "cronie" ∷ "ModemManager" ∷ "NetworkManager" ∷ "org.cups.cupsd"
    ∷ "tlp" ∷ "haveged" ∷ "ufw" ∷ "apparmor" ∷ "fstrim.timer" ∷ []

-- Those services are enabled whose unit is there.
unfoldable pub enable_present : List String → String → Run (Unit {0})
enable_present [] mountpoint = pure tt
enable_present (service_name ∷ rest) mountpoint = do
  there ←
      lift (file_exists (mountpoint <> "/usr/lib/systemd/system/" <> service_name <> ".service"))
  (if there then logged (lift (enable_systemd_service service_name mountpoint)) else pure tt)
  enable_present rest mountpoint

-- The first name that is taken as a greeter and is not that of GTK.
unfoldable pub find_greeter : List String → Option String
find_greeter [] = none
find_greeter (temp ∷ names) =
    let rest = find_greeter names in
    if not (starts_with temp "lightdm-") && not (ends_with temp "-greeter")
    then rest
    else if temp == "lightdm-gtk-greeter"
    then rest
    else some temp

module _ (list_directory : String → M (List String)) where
  -- `list_directory` gives the names that `fs::directory_iterator` goes over.
  unfoldable pub set_lightdm_greeter : Run (Unit {0})
  set_lightdm_greeter = do
    mountpoint ← get_text "MOUNTPOINT"
    let xgreeters_path = mountpoint <> "/usr/share/xgreeters"
    there ← lift (file_exists xgreeters_path)
    if not there then pure tt else do
      names ← lift (list_directory xgreeters_path)
      elim (find_greeter names) [
        | none ↦ pure tt
        | some name ↦
            output (
              "sed -i -e 's/^.*greeter-session=.*/greeter-session=" <> name <> "/' " <> mountpoint
              <> "/etc/lightdm/lightdm.conf")
            >> pure tt
      ]

  -- The first display manager that is installed is enabled.
  unfoldable pub enable_display_manager : List String → String → Run (Unit {0})
  enable_display_manager [] mountpoint = pure tt
  enable_display_manager (dm ∷ dms) mountpoint = do
    there ← succeeds ("arch-chroot " <> mountpoint <> " pacman -Qq " <> dm <> " &> /dev/null")
    if there
        then ((if dm == "lightdm" then set_lightdm_greeter else pure tt)
            >> logged (lift (enable_systemd_service dm mountpoint)))
        else enable_display_manager dms mountpoint

  unfoldable pub enable_all : Run (Unit {0})
  enable_all = do
    mountpoint ← get_text "MOUNTPOINT"
    zfs ← get_number "ZFS"
    enable_present services mountpoint
    arch_chroot "systemctl disable pacman-init" false
    enable_display_manager ("lightdm" ∷ "sddm" ∷ "gdm" ∷ "lxdm" ∷ "ly" ∷ []) mountpoint
    if is_int zfs (pos 0) then pure tt else setup_zfs_services mountpoint

  unfoldable pub enable_services : Run (Unit {0})
  enable_services = if_ndevenv enable_all (pure tt)

  module _ (toml : Toml) where
    unfoldable pub install_base : String → Run (Unit {0})
    install_base packages = do
      pkg_list ← get_pkglist_base toml packages
      no_packages pkg_list (λ base_pkgs. if_ndevenv (configure_base (join base_pkgs " ")) (pure tt))

    unfoldable pub install_desktop : String → Run (Unit {0})
    install_desktop desktop = do
      pkg_list ← get_pkglist_desktop toml desktop
      no_packages pkg_list λ packages. do
        install_from_pkglist (join packages " ")
        set "DE" (text desktop)
        enable_services

unfoldable pub remove_pkgs : String → Run (Unit {0})
remove_pkgs packages =
    if is_empty packages
    then pure tt
    else if_ndevenv (arch_chroot ("pacman -Rsn " <> packages) true) (pure tt)
