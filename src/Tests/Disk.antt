-- ===== src/Tests/Disk.antt =====
-- The properties of the disk's modules at concrete inputs.
use mathlib.Core.List.{Perm}
use new_cli_installer.Base.{
  is_some, String, ◌<>◌, ◌≡◌, refl, true, false, none, some, List, [], ◌∷◌, ◌++◌, All, is_empty,
  starts_with, to_lower,
}
use new_cli_installer.Base.Sort.{Sorted, less_by}
use new_cli_installer.Base.Sort.Insertion.{insertion_sorter}
use new_cli_installer.Disk.{Partition}
use new_cli_installer.Disk.Fstab.{
  generate_fstab_content, get_converted_fs, convert_fsname_fstab, string_tolower, device_str,
  get_mount_options,
}
use new_cli_installer.Disk.Fstab.Fields.{IsPlain, IsField, options_of}
use new_cli_installer.Disk.Fstab.Mounted.{mounted_all, parse_mtab_content-generate_fstab_content}
use new_cli_installer.Disk.Mtab.{
  MTabEntry, parse_mtab_content, parse_mtab, parsed_content, lines_entries, line_entry,
  fields_entry, append_entries,
}
use new_cli_installer.Disk.Mtab.File.{parse_mtab-parsed_content}
use new_cli_installer.Disk.Mtab.Reading.{IsBelow, parse_mtab_content-IsBelow}
use new_cli_installer.Disk.Btrfs.{
  BtrfsSubvolume, btrfs_append_subvolumes, append_each, append_subvolume, overwrite,
  find_root_btrfs_part, is_root_btrfs_part, find_partition, based_on,
}
use new_cli_installer.Disk.Btrfs.Append.{AllHeld, btrfs_append_subvolumes-AllHeld}
use new_cli_installer.Disk.Btrfs.Defined.{btrfs_append_subvolumes_defined}
use new_cli_installer.Disk.Partitioning.{make_clean_partschema}
use new_cli_installer.Disk.Partitioning.Schema.{clean_script, make_clean_partschema-RunsScript}
use new_cli_installer.Disk.Umount.{umount_found, umount_order}
use new_cli_installer.Disk.Umount.Order.{umount_script, umount_found-RunsScript}
use new_cli_installer.Disk.Zfs.{ZfsSetupConfig, zfs_create_with_config}
use new_cli_installer.Disk.Zfs.Setup.{zfs_script, zfs_create_with_config-RunsScript}
use new_cli_installer.Lines.{make_split_view}
use new_cli_installer.Lines.Split.{lacks, lacks_sound}
use new_cli_installer.Sys.{Os, read}
use new_cli_installer.Sys.Script.{RunsScript}
use new_cli_installer.Tests.{willing, root, efi, scheme}

field :
    (s : String)
    → is_empty s ≡ false
    → lacks " " s ≡ true
    → lacks "\n" s ≡ true
    → starts_with s "#" ≡ false
    → IsField s
field s e a b c = record {
  filled = e;
  no_space = lacks_sound " " s a;
  no_newline = lacks_sound "\n" s b;
  no_comment = c;
}

efi-IsPlain : IsPlain efi
unfolding device_str get_converted_fs convert_fsname_fstab string_tolower to_lower get_mount_options
    starts_with ◌<>◌
efi-IsPlain = record {
  device = lacks_sound "\n" efi.device refl;
  spec = field (device_str efi) refl refl refl refl;
  mountpoint = field efi.mountpoint refl refl refl refl;
  fstype = field (get_converted_fs efi.fstype) refl refl refl refl;
  options = field (options_of efi) refl refl refl refl;
}

root-IsPlain : IsPlain root
unfolding device_str get_converted_fs convert_fsname_fstab string_tolower to_lower get_mount_options
    starts_with ◌<>◌
root-IsPlain = record {
  device = lacks_sound "\n" root.device refl;
  spec = field (device_str root) refl refl refl refl;
  mountpoint = field root.mountpoint refl refl refl refl;
  fstype = field (get_converted_fs root.fstype) refl refl refl refl;
  options = field (options_of root) refl refl refl refl;
}

abbrev mounted_scheme : List Partition
mounted_scheme = root ∷ efi ∷ []

parse_mtab_content-generate_fstab_content_example :
    parse_mtab_content (generate_fstab_content mounted_scheme) "/"
    ≡ some (mounted_all mounted_scheme "/")
parse_mtab_content-generate_fstab_content_example =
    parse_mtab_content-generate_fstab_content mounted_scheme "/" (root-IsPlain, (efi-IsPlain, tt))

abbrev entry : MTabEntry
entry = record { device = "/dev/sda2"; mountpoint = "/mnt/boot" }

parses :
    parse_mtab_content "/dev/sda1 / btrfs rw 0 0\n/dev/sda2 /mnt/boot vfat rw 0 0\n" "/mnt"
    ≡ some (entry ∷ [])
unfolding make_split_view starts_with parse_mtab_content lines_entries line_entry fields_entry
    append_entries
parses = refl

parse_mtab_content-IsBelow_example : All (IsBelow "/mnt") (entry ∷ [])
parse_mtab_content-IsBelow_example =
    parse_mtab_content-IsBelow "/dev/sda1 / btrfs rw 0 0\n/dev/sda2 /mnt/boot vfat rw 0 0\n" "/mnt"
      parses

abbrev at_root : BtrfsSubvolume
at_root = record { subvolume = "/@"; mountpoint = "/" }

abbrev at_home : BtrfsSubvolume
at_home = record { subvolume = "/@home"; mountpoint = "/home" }

btrfs_append_subvolumes_defined_example :
    is_some (btrfs_append_subvolumes insertion_sorter scheme (at_root ∷ at_home ∷ [])) ≡ true
unfolding is_root_btrfs_part
btrfs_append_subvolumes_defined_example =
    btrfs_append_subvolumes_defined insertion_sorter scheme (at_root ∷ at_home ∷ [])
      (((refl, refl), tt), (tt, tt)) refl

abbrev appended : List Partition
unfolding insertion_sorter based_on
appended =
    insertion_sorter.sort Partition (less_by (λ p. p.device)) (scheme ++ based_on root at_home ∷ [])

appends :
    btrfs_append_subvolumes insertion_sorter scheme (at_root ∷ at_home ∷ []) ≡ some (true, appended)
unfolding btrfs_append_subvolumes append_each append_subvolume overwrite find_root_btrfs_part
    is_root_btrfs_part find_partition appended
appends = refl

btrfs_append_subvolumes-AllHeld_example :
    (true ≡ true)
    × AllHeld (at_root ∷ at_home ∷ []) appended
    × Sorted (less_by (λ p. p.device)) appended
unfolding find_root_btrfs_part is_root_btrfs_part
btrfs_append_subvolumes-AllHeld_example =
    btrfs_append_subvolumes-AllHeld insertion_sorter scheme at_root (at_home ∷ []) refl
      (((refl, refl), tt), (tt, tt)) appends

make_clean_partschema-RunsScript_example :
    RunsScript willing
      (clean_script insertion_sorter "/dev/sda" scheme true)
      []
      (make_clean_partschema insertion_sorter "/dev/sda" scheme true willing [])
make_clean_partschema-RunsScript_example =
    make_clean_partschema-RunsScript insertion_sorter "/dev/sda" scheme true willing []

umount_found-RunsScript_example :
    RunsScript willing
      (umount_script insertion_sorter (entry ∷ []) ("zpcachyos" ∷ []))
      []
      (umount_found insertion_sorter (entry ∷ []) ("zpcachyos" ∷ []) willing [])
    × Perm (umount_order insertion_sorter (entry ∷ [])) (entry ∷ [])
    × Sorted (less_by (λ e. e.mountpoint)) (umount_order insertion_sorter (entry ∷ []))
umount_found-RunsScript_example =
    umount_found-RunsScript insertion_sorter (entry ∷ []) ("zpcachyos" ∷ []) willing []

abbrev pool : ZfsSetupConfig
pool = record {
  zpool_name = "zpcachyos";
  zpool_options = "-f -o ashift=12 ";
  passphrase = none;
  datasets =
      record { zpath = "zpcachyos/ROOT"; mountpoint = "none" }
      ∷ record { zpath = "zpcachyos/ROOT/cos"; mountpoint = "/" }
      ∷ [];
}

zfs_create_with_config-RunsScript_example :
    RunsScript willing
      (zfs_script "/dev/sda2" pool)
      []
      (zfs_create_with_config "/dev/sda2" pool willing [])
zfs_create_with_config-RunsScript_example =
    zfs_create_with_config-RunsScript willing "/dev/sda2" pool [] refl

abbrev mounts : Os
mounts = record willing { content_of = λ log path. some "/dev/sda2 /mnt/boot vfat rw 0 0" }

parse_mtab-parsed_content_example :
    parse_mtab "/mnt" "/etc/mtab" mounts []
    ≡ (parsed_content (some "/dev/sda2 /mnt/boot vfat rw 0 0") "/mnt", read "/etc/mtab" ∷ [])
parse_mtab-parsed_content_example = parse_mtab-parsed_content "/mnt" "/etc/mtab" mounts [] refl refl
