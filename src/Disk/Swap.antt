-- ===== src/Disk/Swap.antt =====
-- gucc/src/swap.cpp and gucc/src/fs_utils.cpp: swap space, and what the system says of a mountpoint.
pub mod Scripts
use new_cli_installer.Base.{String, ◌<>◌, Bool, true, false}
use new_cli_installer.Disk.{Partition}
use new_cli_installer.Sys.{M, pure, and_then, ◌>>◌}
use new_cli_installer.Sys.Io.{exec, exec_checked}

abbrev pub alloc_cmd : String → String → String
alloc_cmd swap_size swapfile_path =
    "fallocate -l " <> swap_size <> " " <> swapfile_path <> " &>>/tmp/cachyos-install.log"

abbrev pub mkswap_file_cmd : String → String
mkswap_file_cmd swapfile_path =
    "chmod 600 " <> swapfile_path <> " && mkswap " <> swapfile_path <> " &>/dev/null"

abbrev pub mkswap_cmd : String → String
mkswap_cmd device = "mkswap " <> device <> " &>/dev/null"

abbrev pub swapon_cmd : String → String
swapon_cmd device = "swapon " <> device <> " &>/dev/null"

unfoldable pub make_swapfile : String → String → M Bool
make_swapfile root_mountpoint swap_size =
    let swapfile_path = root_mountpoint <> "/swapfile" in
    and_then (exec_checked (alloc_cmd swap_size swapfile_path)) (
      and_then (exec_checked (mkswap_file_cmd swapfile_path))
        (and_then (exec_checked (swapon_cmd swapfile_path)) (pure true)))

unfoldable pub make_swap_partition : Partition → M Bool
make_swap_partition swap_partition =
    and_then (exec_checked (mkswap_cmd swap_partition.device))
      (and_then (exec_checked (swapon_cmd swap_partition.device)) (pure true))

unfoldable pub get_mountpoint_fs : String → M String
get_mountpoint_fs mountpoint = exec ("findmnt -ln -o FSTYPE \"" <> mountpoint <> "\"") false

unfoldable pub get_mountpoint_source : String → M String
get_mountpoint_source mountpoint = exec ("findmnt -ln -o SOURCE \"" <> mountpoint <> "\"") false

unfoldable pub get_device_uuid : String → M String
get_device_uuid device = exec ("lsblk -o UUID '" <> device <> "' | awk 'NR==2'") false

unfoldable pub zfs_mount_all : M (Unit {0})
zfs_mount_all = do exec "zfs mount -aO &>/dev/null" false; pure tt
