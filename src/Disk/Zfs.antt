-- ===== src/Disk/Zfs.antt =====
-- gucc/src/zfs.cpp and gucc/include/gucc/zfs_types.hpp: pools, datasets and their creation.
pub mod Setup
use new_cli_installer.Base.{
  String, ◌==◌, ◌<>◌, Bool, true, false, Option, none, some, List, [], ◌∷◌, if◌then◌else◌, find_if,
}
use new_cli_installer.Lines.{make_multiline}
use new_cli_installer.Sys.{M, pure, and_then, ◌>>=◌}
use new_cli_installer.Sys.Io.{exec, exec_checked}

pub record ZfsDataset : Type 0 where
  pub zpath : String
  pub mountpoint : String

pub record ZfsSetupConfig : Type 0 where
  pub zpool_name : String
  pub zpool_options : String
  pub passphrase : Option String
  pub datasets : List ZfsDataset

-- Code between `#ifdef NDEVENV` and `#else`, and the code behind.
unfoldable pub if_ndevenv : {A : Type 0} → M A → M A → M A
if_ndevenv action other os log = if os.ndevenv then action os log else other os log

unfoldable pub zfs_create_zvol : String → String → M Bool
zfs_create_zvol zsize zpath =
    if_ndevenv
      (exec_checked ("zfs create -V " <> zsize <> "M " <> zpath <> " 2>>/tmp/cachyos-install.log"))
      (pure true)

abbrev pub create_dataset_command : ZfsDataset → String
create_dataset_command zdataset =
    "zfs create -o mountpoint=" <> zdataset.mountpoint <> " " <> zdataset.zpath
    <> " 2>>/tmp/cachyos-install.log"

unfoldable pub zfs_create_dataset : String → String → M Bool
zfs_create_dataset zpath zmount =
    if_ndevenv
      (exec_checked (create_dataset_command (record { zpath = zpath; mountpoint = zmount })))
      (pure true)

unfoldable pub zfs_create_datasets : List ZfsDataset → M Bool
zfs_create_datasets [] = pure true
zfs_create_datasets (zdataset ∷ zdatasets) =
    and_then (zfs_create_dataset zdataset.zpath zdataset.mountpoint) (zfs_create_datasets zdatasets)

unfoldable pub zfs_destroy_dataset : String → M Bool
zfs_destroy_dataset zdataset =
    if_ndevenv (exec_checked ("zfs destroy -r " <> zdataset <> " 2>>/tmp/cachyos-install.log"))
      (pure true)

unfoldable pub zfs_list_pools : M String
zfs_list_pools =
    if_ndevenv (exec "zfs list -H -o name 2>/dev/null | grep \"/\"" false) (pure "vol0\nvol1\n")

unfoldable pub list_each : List String → String → M String
list_each [] list_of_devices = pure list_of_devices
list_each (device ∷ devices) list_of_devices = do
  others ← exec ("find -L /dev/ -xtype l -samefile " <> device <> " 2>/dev/null") false
  list_each devices (list_of_devices <> device <> "\n" <> others)

unfoldable pub zfs_list_devs : M String
zfs_list_devs = do
  devices ← exec "zpool status -PL 2>/dev/null | awk '{print $1}' | grep \"^/\"" false
  list_each (make_multiline devices false "\n") ""

unfoldable pub zfs_list_datasets : String → M String
zfs_list_datasets type =
    if_ndevenv
      (if type == "zvol"
        then exec "zfs list -Ht volume -o name,volsize 2>/dev/null" false
        else if type == "legacy"
        then exec
            "zfs list -Ht filesystem -o name,mountpoint 2>/dev/null | grep \"^.*/.*legacy$\" | awk '{print $1}'"
            false
        else exec "zfs list -H -o name 2>/dev/null | grep \"/\"" false)
      (pure "zpcachyos")

unfoldable pub zfs_set_property : String → String → M Bool
zfs_set_property property dataset =
    if_ndevenv
      (exec_checked ("zfs set " <> property <> " " <> dataset <> " 2>>/tmp/cachyos-install.log"))
      (pure true)

abbrev pub set_property_command : String → String → String
set_property_command property pool_name =
    "zpool set " <> property <> " " <> pool_name <> " 2>>/tmp/cachyos-install.log"

unfoldable pub zpool_set_property : String → String → M Bool
zpool_set_property property pool_name = exec_checked (set_property_command property pool_name)

unfoldable pub zpool_command : String → String → String → Option String → String
zpool_command device_path pool_name pool_options none =
    "zpool create " <> pool_options <> "'" <> pool_name <> "' '" <> device_path
    <> "' 2>>/tmp/cachyos-install.log"
zpool_command device_path pool_name pool_options (some passphrase) =
    "echo '" <> passphrase <> "' | " <> "zpool create " <> pool_options
    <> "-O encryption=aes-256-gcm -O keyformat=passphrase" <> "'" <> pool_name <> "' '"
    <> device_path <> "' 2>>/tmp/cachyos-install.log"

unfoldable pub zfs_create_zpool : String → String → String → Option String → M Bool
zfs_create_zpool device_path pool_name pool_options passphrase =
    exec_checked (zpool_command device_path pool_name pool_options passphrase)

-- The dataset that is mounted as the root, if there is one.
unfoldable pub find_rootfs : List ZfsDataset → Option ZfsDataset
find_rootfs datasets = find_if (λ d. d.mountpoint == "/") datasets

unfoldable pub set_bootfs : Option ZfsDataset → String → M Bool
set_bootfs none zpool_name = pure true
set_bootfs (some rootfs) zpool_name = zpool_set_property ("bootfs=" <> rootfs.zpath) zpool_name

abbrev pub export_command : String → String
export_command zpool_name = "zpool export " <> zpool_name <> " 2>>/tmp/cachyos-install.log"

unfoldable pub zfs_create_with_config : String → ZfsSetupConfig → M Bool
zfs_create_with_config device_path zfs_config =
    and_then
      (zfs_create_zpool device_path zfs_config.zpool_name zfs_config.zpool_options
        zfs_config.passphrase)
      (and_then (zfs_create_datasets zfs_config.datasets) (
        and_then (set_bootfs (find_rootfs zfs_config.datasets) zfs_config.zpool_name)
          (and_then (exec_checked (export_command zfs_config.zpool_name)) (pure true))))
