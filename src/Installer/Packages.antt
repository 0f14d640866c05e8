-- ===== src/Installer/Packages.antt =====
-- src/utils.cpp: installing the base system, a desktop and services.
use new_cli_installer.Base.{
  String, ◌==◌, ◌<>◌, Bool, true, false, ◌&&◌, List, [], ◌∷◌, if◌then◌else◌,
}
use new_cli_installer.Base.Decimal.{ℤ, pos}
use new_cli_installer.Boot.Initcpio.{
  Initcpio, append_module, append_file, insert_hook, insert_hooks, remove_hook, parse_file, write,
}
use new_cli_installer.Disk.Swap.{get_mountpoint_fs}
use new_cli_installer.Host.Locale.{enable_systemd_service}
use new_cli_installer.Packages.Profiles.{Toml, Parsed, parsed, nullopt, fault}
use new_cli_installer.Packages.Lists.{NetProfileInfo}
use new_cli_installer.Packages.Lists as Lists
use new_cli_installer.Sys.{M, ask, copy_file}
use new_cli_installer.Sys as Sys
use new_cli_installer.Installer.Steps.{pacstrap_command, logged}
use new_cli_installer.Installer.State.{
  Run, pure, ◌>>=◌, ◌>>◌, quit, lift, if_ndevenv, get_text, get_number, is_int, is_set,
}
use new_cli_installer.Installer.System.{interactive, run_or_follow}

-- `{}` of a list of packages, the absence of one, or the end of the program.
abbrev pub no_packages : {A : Type 0} → Parsed A → (A → Run (Unit {0})) → Run (Unit {0})
no_packages (parsed a) continue = continue a
no_packages nullopt continue = pure tt
no_packages fault continue = quit

-- `fs::copy_file`, which throws where it fails.
abbrev pub copy : String → String → Run (Unit {0})
copy from to = do
  let request = copy_file from to
  done ← lift (ask request (λ os log. os.succeeds log request))
  if done then pure tt else quit

-- `std::ofstream{path}`, whose failure is not looked at.
abbrev pub touch : String → Run (Unit {0})
touch path = lift (ask (Sys.write path "") (λ os log. tt))

module _ (toml : Toml) where
  unfoldable pub net_profs_info : Run NetProfileInfo
  net_profs_info = do
    net_profs_url ← get_text "NET_PROFILES_URL"
    net_profs_fallback_url ← get_text "NET_PROFILES_FALLBACK_URL"
    pure (record { net_profs_url = net_profs_url; net_profs_fallback_url = net_profs_fallback_url })

  unfoldable pub get_pkglist_base : String → Run (Parsed (List String))
  get_pkglist_base packages = do
    server_mode ← get_number "SERVER_MODE"
    mountpoint_info ← get_text "MOUNTPOINT"
    info ← net_profs_info
    root_filesystem ← lift (get_mountpoint_fs mountpoint_info)
    lift (Lists.get_pkglist_base toml packages root_filesystem (is_set server_mode) info)

  unfoldable pub get_pkglist_desktop : String → Run (Parsed (List String))
  get_pkglist_desktop desktop_env = do
    info ← net_profs_info
    lift (Lists.get_pkglist_desktop toml desktop_env info)

unfoldable pub install_from_pkglist : String → Run Bool
install_from_pkglist packages = do
  mountpoint ← get_text "MOUNTPOINT"
  hostcache ← get_number "hostcache"
  if_ndevenv (run_or_follow (pacstrap_command hostcache mountpoint packages)) (pure true)

-- the hooks of the base system

-- An operation on the object that holds the parsed mkinitcpio.conf.
abbrev pub editing : (Initcpio → M (Bool × Initcpio)) → Initcpio → Run Initcpio
editing operation initcpio = do r ← lift (operation initcpio); pure r.1

abbrev pub base_hooks : List String
base_hooks =
    "base" ∷ "udev" ∷ "autodetect" ∷ "modconf" ∷ "block" ∷ "filesystems" ∷ "keyboard" ∷ "fsck" ∷ []

unfoldable pub filesystem_hooks : String → Initcpio → Run Initcpio
filesystem_hooks filesystem_type initcpio =
    if filesystem_type == "btrfs"
    then (do a ← editing (remove_hook "fsck") initcpio; editing (append_module "btrfs") a)
    else if filesystem_type == "zfs"
    then (do
      a ← editing (remove_hook "fsck") initcpio
      b ← editing (insert_hook "filesystems" "zfs") a
      editing (append_file "\"/usr/lib/libgcc_s.so.1\"") b)
    else pure initcpio

unfoldable pub raid_hooks : Bool → Initcpio → Run Initcpio
raid_hooks false initcpio = pure initcpio
raid_hooks true initcpio = do
  a ← editing (insert_hook "block" "mdadm_udev") initcpio
  b ← editing (append_module "raid0") a
  editing (append_module "raid1") b

unfoldable pub raid_diagnostics : Run (Unit {0})
raid_diagnostics = do
  interactive "cat /proc/mdstat >> /tmp/cachyos-install.log"
  interactive "mdadm --detail --scan >> /tmp/cachyos-install.log"
  interactive "pvs >> /tmp/cachyos-install.log"
  interactive "vgs >> /tmp/cachyos-install.log"
  interactive "lvs >> /tmp/cachyos-install.log"
  interactive "grep mdadm_udev /mnt/etc/mkinitcpio.conf >> /tmp/cachyos-install.log"

unfoldable pub crypt_hooks : ℤ → ℤ → Initcpio → Run Initcpio
crypt_hooks lvm luks initcpio =
    if is_int lvm (pos 1) && is_int luks (pos 0)
    then editing (insert_hook "filesystems" "lvm2") initcpio
    else if is_int lvm (pos 0) && is_int luks (pos 1)
    then (do
      a ← editing (insert_hooks "keyboard" ("consolefont" ∷ "keymap" ∷ [])) initcpio
      editing (insert_hook "filesystems" "encrypt") a)
    else if is_int lvm (pos 1) && is_int luks (pos 1)
    then (do
      a ← editing (insert_hooks "keyboard" ("consolefont" ∷ "keymap" ∷ [])) initcpio
      editing (insert_hooks "filesystems" ("encrypt" ∷ "lvm2" ∷ [])) a)
    else pure initcpio

unfoldable pub copy_mdadm_conf : Run (Unit {0})
copy_mdadm_conf = do
  interactive "mkdir -p /mnt/etc"
  interactive "cp /etc/mdadm.conf /mnt/etc/mdadm.conf 2>/dev/null"

-- `if (initcpio.parse_file()) initcpio.write()`
unfoldable pub flush_hooks : Initcpio → Run (Unit {0})
flush_hooks initcpio = do
  r ← lift (parse_file initcpio)
  if r.0 then logged (lift (write r.1)) else pure tt

-- zfs services

unfoldable pub enable_each : List String → String → Run (Unit {0})
enable_each [] mountpoint = pure tt
enable_each (service_name ∷ services) mountpoint = do
  lift (enable_systemd_service service_name mountpoint)
  enable_each services mountpoint

unfoldable pub setup_zfs_services : String → Run (Unit {0})
setup_zfs_services mountpoint = do
  enable_each ("zfs.target" ∷ "zfs-import-cache" ∷ "zfs-mount" ∷ "zfs-import.target" ∷ [])
      mountpoint
  interactive (
      "zpool set cachefile=/etc/zfs/zpool.cache $(findmnt " <> mountpoint
      <> " -lno SOURCE | awk -F / '{print $1}') 2>>/tmp/cachyos-install.log")
  interactive (
      "cp /etc/zfs/zpool.cache " <> mountpoint
      <> "/etc/zfs/zpool.cache 2>>/tmp/cachyos-install.log")
