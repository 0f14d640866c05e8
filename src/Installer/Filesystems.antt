-- ===== src/Installer/Filesystems.antt =====
-- src/disk.cpp: file systems and mounting with the settings.
use new_cli_installer.Base.{
  String, ◌==◌, ◌<>◌, Bool, true, false, not, List, [], ◌∷◌, if◌then◌else◌, is_empty,
}
use new_cli_installer.Base.Decimal.{ℤ, pos}
use new_cli_installer.Disk.Mount.{LuksState, query_partition}
use new_cli_installer.Disk.Mount as Mount
use new_cli_installer.Sys.{ask, create_directories}
use new_cli_installer.Installer.Numbers.{to_int}
use new_cli_installer.Installer.Disk.{disk_command}
use new_cli_installer.Installer.State.{
  Run, text, number, texts, pure, ◌>>=◌, ◌>>◌, lift, if_ndevenv, get_text, get_number, set, is_int,
}
use new_cli_installer.Installer.System.{output}

abbrev pub btrfs_opts : List String
btrfs_opts =
    "autodefrag" ∷ "compress=zlib" ∷ "compress=lzo" ∷ "compress=zstd" ∷ "compress=no"
    ∷ "compress-force=zlib" ∷ "compress-force=lzo" ∷ "compress-force=zstd" ∷ "discard" ∷ "noacl"
    ∷ "noatime" ∷ "nodatasum" ∷ "nospace_cache" ∷ "recovery" ∷ "skip_balance" ∷ "space_cache"
    ∷ "nossd" ∷ "ssd" ∷ "ssd_spread" ∷ "commit=120" ∷ []

abbrev pub ext4_opts : List String
ext4_opts =
    "data=journal" ∷ "data=writeback" ∷ "dealloc" ∷ "discard" ∷ "noacl" ∷ "noatime" ∷ "nobarrier"
    ∷ "nodelalloc" ∷ []

abbrev pub f2fs_opts : List String
f2fs_opts =
    "data_flush" ∷ "disable_roll_forward" ∷ "disable_ext_identify" ∷ "discard" ∷ "fastboot"
    ∷ "flush_merge" ∷ "inline_xattr" ∷ "inline_data" ∷ "inline_dentry" ∷ "no_heap" ∷ "noacl"
    ∷ "nobarrier" ∷ "noextent_cache" ∷ "noinline_data" ∷ "norecovery" ∷ []

abbrev pub xfs_opts : List String
xfs_opts =
    "discard" ∷ "filestreams" ∷ "ikeep" ∷ "largeio" ∷ "noalign" ∷ "nobarrier" ∷ "norecovery"
    ∷ "noquota" ∷ "wsync" ∷ []

abbrev pub set_filesystem : String → List String → Run (Unit {0})
set_filesystem command opts = do set "FILESYSTEM" (text command); set "fs_opts" (texts opts)

abbrev pub load_module : String → Run (Unit {0})
load_module name = if_ndevenv (output ("modprobe " <> name) >> pure tt) (pure tt)

unfoldable pub select_filesystem : String → Run (Unit {0})
select_filesystem file_sys = do
  set "FILESYSTEM_NAME" (text file_sys)
  if file_sys == "btrfs"
      then (set_filesystem "mkfs.btrfs -f" btrfs_opts >> load_module "btrfs")
      else if file_sys == "ext4"
      then set_filesystem "mkfs.ext4 -q" ext4_opts
      else if file_sys == "f2fs"
      then (set_filesystem "mkfs.f2fs -q" f2fs_opts >> load_module "f2fs")
      else if file_sys == "xfs"
      then set_filesystem "mkfs.xfs -f" xfs_opts
      else pure tt

-- A flag that is only ever raised.
abbrev pub raised : Bool → ℤ → ℤ
raised true before = pos 1
raised false before = before

-- `query_partition` on the settings themselves, which it is given by reference.
unfoldable pub query_settings : String → Run Bool
query_settings query_device = do
  luks_name ← get_text "LUKS_NAME"
  luks_dev ← get_text "LUKS_DEV"
  luks_uuid ← get_text "LUKS_UUID"
  is_luks ← get_number "LUKS"
  is_lvm ← get_number "LVM"
  found ← lift (
      query_partition query_device (record {
        is_luks = false;
        is_lvm = false;
        luks_name = luks_name;
        luks_dev = luks_dev;
        luks_uuid = luks_uuid;
      }))
  set "LUKS" (number (raised found.1.is_luks is_luks))
  set "LVM" (number (raised found.1.is_lvm is_lvm))
  set "LUKS_NAME" (text found.1.luks_name)
  set "LUKS_DEV" (text found.1.luks_dev)
  set "LUKS_UUID" (text found.1.luks_uuid)
  pure found.0

-- Makes the directory and mounts the partition.
unfoldable pub mount_on_directory : String → String → String → Run Bool
mount_on_directory partition mount_dir mount_opts = do
  let request = create_directories mount_dir
  made ← lift (ask request (λ os log. os.succeeds log request))
  if made then lift (Mount.mount_partition partition mount_dir mount_opts) else pure false

unfoldable pub mount_partition : String → String → String → String → Run Bool
mount_partition partition mountpoint mount_dev mount_opts = do
  let mount_dir = mountpoint <> mount_dev
  mounted ← if_ndevenv (mount_on_directory partition mount_dir mount_opts) (pure true)
  if not mounted then pure false else do
    mounted_device ← output ("findmnt -n -o SOURCE " <> mount_dir)
    query_settings (if is_empty mounted_device then partition else mounted_device)

abbrev pub root_name_command : String
root_name_command = "mount | awk '/\\/mnt / {print $1}' | sed s~/dev/mapper/~~g | sed s~/dev/~~g"

unfoldable pub is_volume_removable : Run Bool
is_volume_removable = do
  root_name ← output root_name_command
  root_device ← output (disk_command root_name)
  removable ← output ("cat /sys/block/" <> root_device <> "/removable")
  pure (is_int (to_int removable) (pos 1))
