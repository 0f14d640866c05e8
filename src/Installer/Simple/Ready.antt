-- ===== src/Installer/Simple/Ready.antt =====
-- From settings.json to the installation: the partitions that parse_config leaves are read back.
use new_cli_installer.Base.{String, ◌≡◌, refl, true, some, [], ◌∷◌, All, contains}
use new_cli_installer.Installer.Settings.{
  RapidJson, ready, valid_types, string_member, read_part_fs, read_entry,
}
use new_cli_installer.Installer.Settings.Partitions.{IsPart, read_entry-make_multiline}
use new_cli_installer.Installer.Simple.{part_info, read_part}

-- A partition of settings.json that parse_config takes has one of the three types, and the
-- installation reads its five parts back, if they are not empty and have no tab.
pub read_entry-read_part :
    (json : RapidJson) (partition_map : json.Json) (root_fstype : String)
    {name mountpoint size part_type part_fs_name line : String}
    → string_member json partition_map "name" ≡ some name
    → string_member json partition_map "mountpoint" ≡ some mountpoint
    → string_member json partition_map "size" ≡ some size
    → string_member json partition_map "type" ≡ some part_type
    → read_part_fs json partition_map root_fstype part_type ≡ some part_fs_name
    → read_entry json partition_map root_fstype ≡ ready line
    → All IsPart (name ∷ mountpoint ∷ size ∷ part_fs_name ∷ [])
    → (contains valid_types part_type ≡ true)
      × (read_part line
          ≡ some (record {
            name = name;
            mountpoint = mountpoint;
            size = size;
            fs = part_fs_name;
            type = part_type;
          }))
unfolding read_part part_info
read_entry-read_part json partition_map root_fstype n m s t fs h parts =
    let (valid, e) = read_entry-make_multiline json partition_map root_fstype n m s t fs h parts in
    (valid, rw e refl)
