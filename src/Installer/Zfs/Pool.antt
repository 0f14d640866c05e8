-- ===== src/Installer/Zfs/Pool.antt =====
-- What becomes of the settings when a pool is made automatically.
use new_cli_installer.Base.{
  String, ◌≡◌, true, some, List, [], ◌∷◌, ◌++◌, Bool-cases, inl, inr, if◌then◌else◌,
}
use new_cli_installer.Base.Decimal.{pos}
use new_cli_installer.Disk.Zfs.{zfs_create_with_config}
use new_cli_installer.Sys.{Os}
use new_cli_installer.Installer.State.{Config, State, number, texts, zfs_setup, put, get_texts, set}
use new_cli_installer.Installer.Zfs.{zfs_setup_config, add_zpool_name, zfs_auto_pres}

-- The settings with a pool.
abbrev pub with_pool : String → List String → Config → Config
with_pool name names config =
    put "ZFS_ZPOOL_NAMES" (texts (names ++ name ∷ [])) (
      put "ZFS_SETUP_CONFIG" (zfs_setup (zfs_setup_config name))
        (put "ZFS" (number (pos 1)) config))

-- Making a pool automatically, in a build with NDEVENV, is creating it with the default datasets: it
-- runs the same commands and returns true exactly if that succeeds. Then the settings name the pool
-- behind those before and keep its configuration; if it fails, no setting changes.
pub zfs_auto_pres_lem :
    (partition name : String) (names : List String) (os : Os) (s : State)
    → os.ndevenv ≡ true
    → s.config "ZFS_ZPOOL_NAMES" ≡ texts names
    → let created = zfs_create_with_config partition (zfs_setup_config name) os s.log in
      zfs_auto_pres partition name os s ≡ (
        some created.0,
        record {
          config = if created.0 then with_pool name names s.config else s.config;
          log = created.1;
        },
      )
unfolding zfs_auto_pres add_zpool_name get_texts set
zfs_auto_pres_lem partition name names os s built e =
    let created = zfs_create_with_config partition (zfs_setup_config name) os s.log in
    elim (Bool-cases created.0) [ inl ok ↦ simp (built, ok, e) | inr failed ↦ simp (built, failed) ]
