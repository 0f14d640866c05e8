-- ===== src/Installer/Zfs.antt =====
-- src/disk.cpp: pools and their datasets with the settings.
pub mod Pool
use new_cli_installer.Base.{
  String, ◌<>◌, Bool, true, false, not, none, List, [], ◌∷◌, ◌++◌, if◌then◌else◌, is_empty,
}
use new_cli_installer.Base.Decimal.{pos}
use new_cli_installer.Disk.Zfs.{ZfsDataset, ZfsSetupConfig, zfs_create_with_config}
use new_cli_installer.Disk.Zfs as Zfs
use new_cli_installer.Installer.State.{
  Run, number, texts, zfs_setup, pure, ◌>>=◌, ◌>>◌, lift, if_ndevenv, get_text, get_texts, set,
}
use new_cli_installer.Installer.System.{output, interactive}

abbrev pub zpool_options : String
zpool_options =
    "-f -o ashift=12 -o autotrim=on -O mountpoint=none -O acltype=posixacl -O atime=off -O relatime=off -O xattr=sa -O normalization=formD -O dnodesize=auto"

unfoldable pub default_zfs_datasets : String → List ZfsDataset
default_zfs_datasets zfs_zpool_name =
    record { zpath = zfs_zpool_name <> "/ROOT"; mountpoint = "none" }
    ∷ record { zpath = zfs_zpool_name <> "/ROOT/cos"; mountpoint = "none" }
    ∷ record { zpath = zfs_zpool_name <> "/ROOT/cos/root"; mountpoint = "/" }
    ∷ record { zpath = zfs_zpool_name <> "/ROOT/cos/home"; mountpoint = "/home" }
    ∷ record { zpath = zfs_zpool_name <> "/ROOT/cos/varcache"; mountpoint = "/var/cache" }
    ∷ record { zpath = zfs_zpool_name <> "/ROOT/cos/varlog"; mountpoint = "/var/log" }
    ∷ []

abbrev pub zfs_setup_config : String → ZfsSetupConfig
zfs_setup_config zfs_zpool_name = record {
  zpool_name = zfs_zpool_name;
  zpool_options = zpool_options;
  passphrase = none;
  datasets = default_zfs_datasets zfs_zpool_name;
}

-- The name of a pool goes behind those in the settings.
unfoldable pub add_zpool_name : String → Run (Unit {0})
add_zpool_name name = do
  zfs_zpool_names ← get_texts "ZFS_ZPOOL_NAMES"
  set "ZFS_ZPOOL_NAMES" (texts (zfs_zpool_names ++ name ∷ []))

unfoldable pub zfs_auto_pres : String → String → Run Bool
zfs_auto_pres partition zfs_zpool_name = do
  let config = zfs_setup_config zfs_zpool_name
  created ← if_ndevenv (lift (zfs_create_with_config partition config)) (pure true)
  if not created then pure false else do
    set "ZFS" (number (pos 1))
    set "ZFS_SETUP_CONFIG" (zfs_setup config)
    add_zpool_name zfs_zpool_name
    pure true

abbrev pub partuuid_command : String → String
partuuid_command partition =
    "lsblk -lno PATH,PARTUUID | grep \"^" <> partition <> "\" | awk '{print $2}'"

-- The pool is made on the partition's UUID if it has one.
unfoldable pub create_on_partition : String → String → Run Bool
create_on_partition partition pool_name = do
  partuuid ← output (partuuid_command partition)
  let device_path = if is_empty partuuid then partition else partuuid
  lift (Zfs.zfs_create_zpool device_path pool_name zpool_options none)

-- The pool is exported, and imported below the mountpoint.
unfoldable pub import_zpool : String → Run (Unit {0})
import_zpool pool_name = do
  mountpoint ← get_text "MOUNTPOINT"
  interactive ("zpool export " <> pool_name <> " 2>>/tmp/cachyos-install.log")
  interactive
      ("zpool import -R " <> mountpoint <> " " <> pool_name <> " 2>>/tmp/cachyos-install.log")

unfoldable pub zfs_create_zpool : String → String → Run Bool
zfs_create_zpool partition pool_name = do
  created ← if_ndevenv (create_on_partition partition pool_name) (pure true)
  if not created then pure false else do
    set "ZFS" (number (pos 1))
    if_ndevenv (import_zpool pool_name) (pure tt)
    add_zpool_name pool_name
    pure true
