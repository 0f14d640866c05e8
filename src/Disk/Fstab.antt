-- ===== src/Disk/Fstab.antt =====
-- gucc/src/fstab.cpp: the text of /etc/fstab.
pub mod Content
pub mod Fields
pub mod Mounted
use new_cli_installer.Base.{
  String, ◌==◌, ◌<>◌, Char, Bool, true, false, not, ◌&&◌, ◌||◌, Option, none, some, List, [], ◌∷◌,
  ℕ, if◌then◌else◌, value_or, is_empty, pad_right, to_lower,
}
use new_cli_installer.Base.Decimal.{pos, to_string}
use new_cli_installer.Disk.{Partition}
use new_cli_installer.Lines.{make_multiline}
use new_cli_installer.Sys.{M, ask, ◌>>=◌, ◌>>◌, pure, exists, is_regular_file}
use new_cli_installer.Sys.Io.{exec, exec_checked, read_whole_file, create_file_for_overwrite}

abbrev pub fstab_header : String
fstab_header =
    "# Static information about the filesystems.\n# See fstab(5) for details.\n\n# <file system> <dir> <type> <options> <dump> <pass>\n"

unfoldable pub convert_fsname_fstab : String → String
convert_fsname_fstab fsname =
    if fsname == "fat16" || fsname == "fat32"
    then "vfat"
    else if fsname == "linuxswap"
    then "swap"
    else fsname

unfoldable pub get_check_number : String → String → ℕ
get_check_number mountpoint fstype =
    if mountpoint == "/" && not (fstype == "btrfs")
    then 1
    else if not (mountpoint == "swap") && not (fstype == "btrfs")
    then 2
    else 0

unfoldable pub get_mount_options : String → String → String → String
get_mount_options mount_opts btrfs_subvolume fstype =
    if fstype == "btrfs" && not (is_empty btrfs_subvolume)
    then "subvol=" <> btrfs_subvolume <> "," <> mount_opts
    else mount_opts

unfoldable pub string_tolower : String → String
string_tolower String.[] = ""
string_tolower (String.◌∷◌ c s) = String.◌∷◌ (to_lower c) (string_tolower s)

unfoldable pub get_converted_fs : String → String
get_converted_fs fstype = convert_fsname_fstab (string_tolower fstype)

-- The first field of an entry: the LUKS mapper, else the UUID, else the device itself.
unfoldable pub device_str : Partition → String
device_str partition = elim partition.luks_mapper_name [
  | some luks_mapper_name ↦ "/dev/mapper/" <> luks_mapper_name
  | none ↦
      if not (is_empty partition.uuid_str) then "UUID=" <> partition.uuid_str else partition.device
]

-- `"# {}\n{:41} {:<14} {:<7} {:<10} 0 {}\n\n"`
unfoldable pub format_entry : String → String → String → String → String → String → String
format_entry device spec mountpoint fstype mount_options check_num =
    "# "
    <> device
    <> "\n"
    <> pad_right 41 spec
    <> " "
    <> pad_right 14 mountpoint
    <> " "
    <> pad_right 7 fstype
    <> " "
    <> pad_right 10 mount_options
    <> " 0 "
    <> check_num
    <> "\n\n"

unfoldable pub gen_fstab_entry : Partition → Option String
gen_fstab_entry partition =
    let fstype = get_converted_fs partition.fstype in
    let check_num = get_check_number partition.mountpoint fstype in
    let mount_options =
      get_mount_options partition.mount_opts (value_or partition.subvolume "") fstype in
    if fstype == "swap"
    then none
    else some (
        format_entry partition.device (device_str partition) partition.mountpoint fstype
          mount_options (to_string (pos check_num)))

-- One round of the loop over the partitions.
unfoldable pub add_entry : Partition → String → String
add_entry partition fstab_content =
    if partition.fstype == "zfs" then fstab_content else elim (gen_fstab_entry partition) [
      | none ↦ fstab_content
      | some fstab_entry ↦ fstab_content <> fstab_entry
    ]

unfoldable pub add_entries : List Partition → String → String
add_entries [] fstab_content = fstab_content
add_entries (partition ∷ partitions) fstab_content =
    add_entries partitions (add_entry partition fstab_content)

unfoldable pub generate_fstab_content : List Partition → String
generate_fstab_content partitions = add_entries partitions fstab_header

unfoldable pub generate_fstab : List Partition → String → M Bool
generate_fstab partitions root_mountpoint =
    create_file_for_overwrite (root_mountpoint <> "/etc/fstab") (generate_fstab_content partitions)

-- The swap file is given relative to the installed system.
abbrev pub swapfile_cmd : String → String → String
swapfile_cmd root_mountpoint fstab_filepath =
    "sed -i \"s/\\\\" <> root_mountpoint <> "//\" " <> fstab_filepath

unfoldable pub append_swapfile : String → String → M (Unit {0})
append_swapfile root_mountpoint fstab_filepath = do
  let swap_file = root_mountpoint <> "/swapfile"
  there ← ask (exists swap_file) (λ os log. os.succeeds log (exists swap_file))
  if not there then pure tt else do
    regular ←
        ask (is_regular_file swap_file) (λ os log. os.succeeds log (is_regular_file swap_file))
    if regular then exec (swapfile_cmd root_mountpoint fstab_filepath) false >> pure tt else pure tt

-- Sources that are mounted by zfs are commented out.
unfoldable pub comment_zfs : List String → String → M (Unit {0})
comment_zfs [] fstab_filepath = pure tt
comment_zfs (msource ∷ msource_list) fstab_filepath = do
  on_zfs ← exec_checked (
      "zfs list -H -o mountpoint,name | grep '^/' | awk '{print $2}' | grep -q '^" <> msource
      <> "$'")
  (if on_zfs
      then exec ("sed -e '\\|^" <> msource <> "[[:space:]]| s/^#*/#/' -i " <> fstab_filepath) false
        >> pure tt
      else pure tt)
  comment_zfs msource_list fstab_filepath

unfoldable pub run_genfstab_on_mount : String → M Bool
run_genfstab_on_mount root_mountpoint = do
  let fstab_filepath = root_mountpoint <> "/etc/fstab"
  generated ← exec_checked ("genfstab -U -p " <> root_mountpoint <> " > " <> fstab_filepath)
  if not generated then pure false else do
    fstab_content ← read_whole_file fstab_filepath
    append_swapfile root_mountpoint fstab_filepath
    exec ("sed -i 's/subvolid=.*,subvol=\\/.*,//g' " <> fstab_filepath) false
    sources ← exec ("cat " <> fstab_filepath <> " | grep '^[a-z,A-Z]' | awk '{print $1}'") false
    comment_zfs (make_multiline sources false "\n") fstab_filepath
    pure true
