-- ===== src/Tests/Swap.antt =====
-- The scripts for swap space at a concrete input.
use new_cli_installer.Base.{[]}
use new_cli_installer.Disk.Swap.{make_swapfile, make_swap_partition}
use new_cli_installer.Disk.Swap.Scripts.{swapfile_script, swap_script, swap-RunsScript}
use new_cli_installer.Sys.Script.{RunsScript}
use new_cli_installer.Tests.{willing, swap}

swap-RunsScript_example :
    RunsScript willing (swapfile_script "/mnt" "2G") [] (make_swapfile "/mnt" "2G" willing [])
    × RunsScript willing (swap_script swap) [] (make_swap_partition swap willing [])
swap-RunsScript_example = swap-RunsScript "/mnt" "2G" swap willing []
