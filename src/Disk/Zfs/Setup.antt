-- ===== src/Disk/Zfs/Setup.antt =====
-- What `zfs_create_with_config` runs.
use new_cli_installer.Base.{
  String, ◌<>◌, ◌≡◌, refl, sym, ap, ◌∙◌, Bool, true, Option, none, some, List, [], ◌∷◌, ◌++◌, map,
  if◌then◌else◌,
}
use new_cli_installer.Disk.Zfs.{
  ZfsDataset, ZfsSetupConfig, create_dataset_command, zfs_create_dataset, zfs_create_datasets,
  zpool_command, zfs_create_zpool, set_property_command, zpool_set_property, find_rootfs,
  set_bootfs, export_command, zfs_create_with_config, if_ndevenv,
}
use new_cli_installer.Sys.{Os, Log, M, and_then, pure}
use new_cli_installer.Sys.Io.{exec_checked}
use new_cli_installer.Sys.Script.{
  run_all, run_all-append, and_then_cong, and_then-pure, RunsScript, run_all-RunsScript,
}

-- The command for the dataset of the root, if there is one.
abbrev pub bootfs_script : Option ZfsDataset → String → List String
bootfs_script none pool = []
bootfs_script (some rootfs) pool = set_property_command ("bootfs=" <> rootfs.zpath) pool ∷ []

-- The datasets in their order, the property for the root and the export.
abbrev pub tail_script : ZfsSetupConfig → List String
tail_script c =
    map create_dataset_command c.datasets
    ++ (bootfs_script (find_rootfs c.datasets) c.zpool_name ++ export_command c.zpool_name ∷ [])

-- The pool before them.
abbrev pub zfs_script : String → ZfsSetupConfig → List String
zfs_script device c = zpool_command device c.zpool_name c.zpool_options c.passphrase ∷ tail_script c

module _ (os : Os) (dev : os.ndevenv ≡ true) where
  if_ndevenv_true :
      (action other : M Bool) (log : Log) → if_ndevenv action other os log ≡ action os log
  unfolding if_ndevenv
  if_ndevenv_true action other log = ap (λ t. if t then action os log else other os log) dev

  datasets-run_all :
      (ds : List ZfsDataset) (log : Log)
      → zfs_create_datasets ds os log ≡ run_all (map create_dataset_command ds) os log
  unfolding zfs_create_datasets zfs_create_dataset run_all
  datasets-run_all [] log = refl
  datasets-run_all (d ∷ ds) log =
      and_then_cong os (zfs_create_dataset d.zpath d.mountpoint)
        (exec_checked (create_dataset_command d)) (zfs_create_datasets ds)
        (run_all (map create_dataset_command ds))
        (if_ndevenv_true (exec_checked (create_dataset_command d)) (pure true))
        (datasets-run_all ds) log

  bootfs-run_all :
      (rootfs : Option ZfsDataset) (pool : String) (log : Log)
      → set_bootfs rootfs pool os log ≡ run_all (bootfs_script rootfs pool) os log
  unfolding set_bootfs zpool_set_property run_all
  bootfs-run_all none pool log = refl
  bootfs-run_all (some rootfs) pool log =
      and_then-pure os (exec_checked (set_property_command ("bootfs=" <> rootfs.zpath) pool)) log

  tail-run_all :
      (c : ZfsSetupConfig) (log : Log)
      → and_then
          (zfs_create_datasets c.datasets)
          (and_then
            (set_bootfs (find_rootfs c.datasets) c.zpool_name)
            (run_all (export_command c.zpool_name ∷ [])))
          os
          log
        ≡ run_all (tail_script c) os log
  tail-run_all c log =
      let export = export_command c.zpool_name ∷ [] in
      let boot = bootfs_script (find_rootfs c.datasets) c.zpool_name in
      and_then_cong os (zfs_create_datasets c.datasets)
        (run_all (map create_dataset_command c.datasets))
        (and_then (set_bootfs (find_rootfs c.datasets) c.zpool_name) (run_all export))
        (run_all (boot ++ export)) (datasets-run_all c.datasets)
        (λ l.
          and_then_cong os (set_bootfs (find_rootfs c.datasets) c.zpool_name) (run_all boot)
            (run_all export) (run_all export) (bootfs-run_all (find_rootfs c.datasets) c.zpool_name)
            (λ k. refl) l
          ∙ sym (run_all-append os boot export l))
        log
      ∙ sym (run_all-append os (map create_dataset_command c.datasets) (boot ++ export) log)

  zfs_create_with_config-run_all :
      (device : String) (c : ZfsSetupConfig) (log : Log)
      → zfs_create_with_config device c os log ≡ run_all (zfs_script device c) os log
  unfolding zfs_create_with_config zfs_create_zpool run_all
  zfs_create_with_config-run_all device c log =
      let pool = exec_checked (zpool_command device c.zpool_name c.zpool_options c.passphrase) in
      and_then_cong os pool pool
        (and_then (zfs_create_datasets c.datasets) (
          and_then (set_bootfs (find_rootfs c.datasets) c.zpool_name)
            (run_all (export_command c.zpool_name ∷ []))))
        (run_all (tail_script c)) (λ l. refl) (tail-run_all c) log

-- In a build with `NDEVENV`, a pool is set up by creating it, creating its datasets in their order,
-- setting its `bootfs` to the first dataset that is mounted at `/`, if there is one, and exporting
-- it, each command run only if those before it exited with status 0; the result is true exactly if
-- all of them did.
pub zfs_create_with_config-RunsScript :
    (os : Os) (device : String) (c : ZfsSetupConfig) (log : Log)
    → os.ndevenv ≡ true
    → RunsScript os (zfs_script device c) log (zfs_create_with_config device c os log)
zfs_create_with_config-RunsScript os device c log dev =
    rw (zfs_create_with_config-run_all os dev device c log)
      (run_all-RunsScript os (zfs_script device c) log)
