-- ===== src/Disk/Umount.antt =====
-- gucc/src/umount_partitions.cpp: unmounting what is mounted below the root mountpoint.
pub mod Order
use new_cli_installer.Base.{String, ◌<>◌, Bool, true, false, List, [], ◌∷◌}
use new_cli_installer.Base.Sort.{Sorter, less_by}
use new_cli_installer.Disk.Mtab.{MTabEntry, Parsed, nullopt, undefined, entries, parse_mtab}
use new_cli_installer.Sys.{M, pure, and_then, ◌>>=◌}
use new_cli_installer.Sys.Io.{exec_checked}

abbrev pub umount_command : MTabEntry → String
umount_command mtab_entry = "umount -v " <> mtab_entry.mountpoint <> " &>>/tmp/cachyos-install.log"

abbrev pub export_command : String → String
export_command zfs_poolname = "zpool export " <> zfs_poolname <> " &>>/tmp/cachyos-install.log"

unfoldable pub umount_each : List MTabEntry → M Bool
umount_each [] = pure true
umount_each (mtab_entry ∷ rest) =
    and_then (exec_checked (umount_command mtab_entry)) (umount_each rest)

unfoldable pub export_each : List String → M Bool
export_each [] = pure true
export_each (zfs_poolname ∷ rest) =
    and_then (exec_checked (export_command zfs_poolname)) (export_each rest)

-- What became of the call; `undefined_run` if the table has a line that `parse_mtab` cannot read.
pub data Unmounted : Type 0 where
  returned : Bool → Unmounted
  undefined_run : Unmounted

-- The entries in the order in which they are unmounted.
unfoldable pub umount_order : Sorter → List MTabEntry → List MTabEntry
umount_order sorter found = sorter.sort MTabEntry (less_by (λ e. e.mountpoint)) found

unfoldable pub umount_found : Sorter → List MTabEntry → List String → M Bool
umount_found sorter found zfs_poolnames =
    and_then (umount_each (umount_order sorter found)) (export_each zfs_poolnames)

unfoldable pub umount_parsed : Sorter → Parsed → List String → M Unmounted
umount_parsed sorter nullopt zfs_poolnames = pure (returned false)
umount_parsed sorter undefined zfs_poolnames = pure undefined_run
umount_parsed sorter (entries found) zfs_poolnames = do
  done ← umount_found sorter found zfs_poolnames
  pure (returned done)

unfoldable pub umount_partitions : Sorter → String → List String → M Unmounted
umount_partitions sorter root_mountpoint zfs_poolnames = do
  mtab_entries ← parse_mtab root_mountpoint "/etc/mtab"
  umount_parsed sorter mtab_entries zfs_poolnames
