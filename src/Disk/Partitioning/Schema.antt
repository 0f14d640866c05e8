-- ===== src/Disk/Partitioning/Schema.antt =====
-- What `make_clean_partschema` runs.
use new_cli_installer.Base.{String, ◌≡◌, sym, Bool, List, [], ◌∷◌, ◌++◌}
use new_cli_installer.Base.Sort.{Sorter}
use new_cli_installer.Disk.{Partition}
use new_cli_installer.Disk.Partitioning.{
  gen_sfdisk_command, dd_cmd, wipe_cmd, sgdisk_cmd, sfdisk_cmd, erase_disk, run_sfdisk_part,
  make_clean_partschema,
}
use new_cli_installer.Sys.{Os, Log}
use new_cli_installer.Sys.Script.{run_all, run_all-append, RunsScript, run_all-RunsScript}

-- The commands that erase a disk.
abbrev pub erase_script : String → List String
erase_script device = dd_cmd device ∷ wipe_cmd device ∷ sgdisk_cmd device ∷ []

-- The whole script.
abbrev pub clean_script : Sorter → String → List Partition → Bool → List String
clean_script sorter device ps is_efi =
    erase_script device ++ sfdisk_cmd (gen_sfdisk_command sorter ps is_efi) device ∷ []

make_clean_partschema-run_all :
    (sorter : Sorter) (device : String) (ps : List Partition) (is_efi : Bool) (os : Os) (log : Log)
    → make_clean_partschema sorter device ps is_efi os log
      ≡ run_all (clean_script sorter device ps is_efi) os log
unfolding make_clean_partschema erase_disk run_sfdisk_part run_all
make_clean_partschema-run_all sorter device ps is_efi os log = sym (
    run_all-append os (erase_script device)
      (sfdisk_cmd (gen_sfdisk_command sorter ps is_efi) device ∷ []) log)

-- A disk is partitioned by the three erasing commands and then sfdisk, each run only if those before
-- it exited with status 0; the result is true exactly if all four did, and after a failure nothing
-- more is run.
pub make_clean_partschema-RunsScript :
    (sorter : Sorter) (device : String) (ps : List Partition) (is_efi : Bool) (os : Os) (log : Log)
    → RunsScript os
        (clean_script sorter device ps is_efi)
        log
        (make_clean_partschema sorter device ps is_efi os log)
make_clean_partschema-RunsScript sorter device ps is_efi os log =
    rw (make_clean_partschema-run_all sorter device ps is_efi os log)
      (run_all-RunsScript os (clean_script sorter device ps is_efi) log)
