-- ===== src/Disk/Swap/Scripts.antt =====
-- What is run for swap space.
use new_cli_installer.Base.{String, ◌<>◌, List, [], ◌∷◌}
use new_cli_installer.Disk.{Partition}
use new_cli_installer.Disk.Swap.{
  alloc_cmd, mkswap_file_cmd, mkswap_cmd, swapon_cmd, make_swapfile, make_swap_partition,
}
use new_cli_installer.Sys.{Os, Log}
use new_cli_installer.Sys.Script.{run_all, RunsScript, run_all-RunsScript}

-- Allocating the file, preparing it and switching it on.
abbrev pub swapfile_script : String → String → List String
swapfile_script root_mountpoint swap_size =
    let path = root_mountpoint <> "/swapfile" in
    alloc_cmd swap_size path ∷ mkswap_file_cmd path ∷ swapon_cmd path ∷ []

-- Preparing the partition and switching it on.
abbrev pub swap_script : Partition → List String
swap_script p = mkswap_cmd p.device ∷ swapon_cmd p.device ∷ []

-- A swap file is allocated, then prepared, then switched on, and a swap partition is prepared, then
-- switched on; each command runs only if those before it exited with status 0, and the result is true
-- exactly if all did.
pub swap-RunsScript :
    (root_mountpoint swap_size : String) (p : Partition) (os : Os) (log : Log)
    → RunsScript os
        (swapfile_script root_mountpoint swap_size)
        log
        (make_swapfile root_mountpoint swap_size os log)
      × RunsScript os (swap_script p) log (make_swap_partition p os log)
unfolding make_swapfile make_swap_partition run_all
swap-RunsScript root_mountpoint swap_size p os log = (
  run_all-RunsScript os (swapfile_script root_mountpoint swap_size) log,
  run_all-RunsScript os (swap_script p) log,
)
