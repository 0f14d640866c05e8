-- ===== src/Disk/Umount/Order.antt =====
-- What `umount_partitions` runs, and in which order.
use mathlib.Core.List.{Perm}
use new_cli_installer.Base.{String, ◌≡◌, refl, sym, List, [], ◌∷◌, ◌++◌, map}
use new_cli_installer.Base.Sort.{Sorter, Sorted, less_by, less_by-StrictWeak}
use new_cli_installer.Disk.Mtab.{MTabEntry}
use new_cli_installer.Disk.Umount.{
  umount_command, export_command, umount_each, export_each, umount_order, umount_found,
}
use new_cli_installer.Sys.{Os, Log}
use new_cli_installer.Sys.Script.{run_all, run_all-append, RunsScript, run_all-RunsScript}

umount_each-run_all : (es : List MTabEntry) → umount_each es ≡ run_all (map umount_command es)
unfolding umount_each run_all
umount_each-run_all [] = refl
umount_each-run_all (e ∷ es) = rw (umount_each-run_all es)

export_each-run_all : (names : List String) → export_each names ≡ run_all (map export_command names)
unfolding export_each run_all
export_each-run_all [] = refl
export_each-run_all (n ∷ ns) = rw (export_each-run_all ns)

-- First the unmounting of every entry, then the export of every pool.
abbrev pub umount_script : Sorter → List MTabEntry → List String → List String
umount_script sorter found pools =
    map umount_command (umount_order sorter found) ++ map export_command pools

umount_found-run_all :
    (sorter : Sorter) (found : List MTabEntry) (pools : List String) (os : Os) (log : Log)
    → umount_found sorter found pools os log ≡ run_all (umount_script sorter found pools) os log
unfolding umount_found
umount_found-run_all sorter found pools os log =
    rw (umount_each-run_all, export_each-run_all)
      (sym (
        run_all-append os (map umount_command (umount_order sorter found))
          (map export_command pools) log))

-- The file systems that were found are unmounted, then the pools are exported, each command run only
-- if those before it exited with status 0; the file systems that are unmounted are those that were
-- found, each as often as it was found, in ascending order of their mountpoints.
pub umount_found-RunsScript :
    (sorter : Sorter) (found : List MTabEntry) (pools : List String) (os : Os) (log : Log)
    → RunsScript os (umount_script sorter found pools) log (umount_found sorter found pools os log)
      × Perm (umount_order sorter found) found
      × Sorted (less_by (λ e. e.mountpoint)) (umount_order sorter found)
unfolding umount_order
umount_found-RunsScript sorter found pools os log = (
  rw (umount_found-run_all sorter found pools os log)
      (run_all-RunsScript os (umount_script sorter found pools) log),
  sorter.sort-perm MTabEntry (less_by (λ e. e.mountpoint)) found,
  sorter.sort-Sorted MTabEntry (less_by (λ e. e.mountpoint)) (less_by-StrictWeak _) found,
)
