-- ===== src/Disk/Btrfs.antt =====
-- gucc/src/btrfs.cpp: subvolumes of a btrfs root, their creation and their place in the scheme.
pub mod Append
pub mod Defined
use new_cli_installer.Base.{
  String, ◌==◌, ◌<>◌, Bool, true, false, not, ◌&&◌, ◌||◌, Option, none, some, List, [], ◌∷◌, ◌++◌,
  if◌then◌else◌, is_empty, find_if, same_char, starts_with, is_some, contains_text,
}
use new_cli_installer.Base.Sort.{Sorter, less_by}
use new_cli_installer.Disk.{Partition, empty_partition}
use new_cli_installer.Sys.{M, ask, pure, ◌>>=◌, ◌>>◌, and_then, create_directories}
use new_cli_installer.Sys.Io.{exec, exec_checked}

pub record BtrfsSubvolume : Type 0 where
  pub subvolume : String
  pub mountpoint : String

-- What stands before the last slash, if there is one.
unfoldable pub before_slash : String → Option String
before_slash String.[] = none
before_slash (String.◌∷◌ c s) = elim (before_slash s) [
  | some dir ↦ some (String.◌∷◌ c dir)
  | none ↦ if same_char c "/" then some "" else none
]

unfoldable pub get_dirname : String → String
get_dirname full_path =
    if full_path == "/"
    then full_path
    else elim (before_slash full_path) [ none ↦ "" | some dir ↦ dir ]

abbrev pub has_subvolume : Option String → String → Bool
has_subvolume none subvolume = false
has_subvolume (some name) subvolume = name == subvolume

unfoldable pub find_partition : Partition → BtrfsSubvolume → Bool
find_partition part subvol =
    part.mountpoint == subvol.mountpoint || has_subvolume part.subvolume subvol.subvolume

unfoldable pub is_root_btrfs_part : Partition → Bool
is_root_btrfs_part part = part.mountpoint == "/" && part.fstype == "btrfs"

unfoldable pub find_root_btrfs_part : List Partition → Option Partition
find_root_btrfs_part parts = find_if is_root_btrfs_part parts

unfoldable pub btrfs_create_subvol : String → String → M Bool
btrfs_create_subvol subvolume root_mountpoint =
    let request = create_directories (root_mountpoint <> get_dirname subvolume) in
    let cmd =
      "btrfs subvolume create " <> root_mountpoint <> subvolume <> " 2>>/tmp/cachyos-install.log" in
    and_then (ask request (λ os log. os.succeeds log request)) (exec_checked cmd)

unfoldable pub create_each : List BtrfsSubvolume → String → M Bool
create_each [] root_mountpoint = pure true
create_each (subvol ∷ subvols) root_mountpoint =
    if is_empty subvol.subvolume
    then create_each subvols root_mountpoint
    else and_then (btrfs_create_subvol subvol.subvolume root_mountpoint)
        (create_each subvols root_mountpoint)

unfoldable pub mount_option : String → String → String
mount_option subvolume mount_opts =
    if is_empty subvolume then mount_opts else "subvol=" <> subvolume <> "," <> mount_opts

unfoldable pub btrfs_mount_subvols : List BtrfsSubvolume → String → String → String → M Bool
btrfs_mount_subvols [] device root_mountpoint mount_opts = pure true
btrfs_mount_subvols (subvol ∷ subvols) device root_mountpoint mount_opts =
    let subvolume_mountpoint = root_mountpoint <> subvol.mountpoint in
    let request = create_directories subvolume_mountpoint in
    let mount_cmd =
      "mount -o "
      <> mount_option subvol.subvolume mount_opts
      <> " \""
      <> device
      <> "\" "
      <> subvolume_mountpoint in
    and_then (ask request (λ os log. os.succeeds log request)) (
      and_then (exec_checked mount_cmd)
        (btrfs_mount_subvols subvols device root_mountpoint mount_opts))

unfoldable pub btrfs_create_subvols : List BtrfsSubvolume → String → String → String → M Bool
btrfs_create_subvols subvols device root_mountpoint mount_opts =
    and_then (create_each subvols root_mountpoint) do
      exec ("umount -v " <> root_mountpoint <> " &>>/tmp/cachyos-install.log") true
      btrfs_mount_subvols subvols device root_mountpoint mount_opts

-- Overwrites the first partition that the subvolume matches, if there is one.
unfoldable pub overwrite : BtrfsSubvolume → List Partition → Option (List Partition)
overwrite subvol [] = none
overwrite subvol (p ∷ ps) =
    let rest : Option (List Partition) = elim (overwrite subvol ps) [
      | none ↦ none
      | some ps' ↦ some (p ∷ ps')
    ] in
    if find_partition p subvol
    then some (record p { mountpoint = subvol.mountpoint; subvolume = some subvol.subvolume } ∷ ps)
    else rest

-- A new partition for the subvolume, based on the root partition.
unfoldable pub based_on : Partition → BtrfsSubvolume → Partition
based_on root subvol = record {
  fstype = root.fstype;
  mountpoint = subvol.mountpoint;
  uuid_str = root.uuid_str;
  device = root.device;
  size = "";
  mount_opts = root.mount_opts;
  subvolume = some subvol.subvolume;
  luks_mapper_name = root.luks_mapper_name;
  luks_uuid = root.luks_uuid;
  luks_passphrase = root.luks_passphrase;
}

-- `none` stands for the use of `root_part_it` where it is the end of the partitions, which the
-- language leaves undefined.
unfoldable pub append_subvolume : BtrfsSubvolume → List Partition → Option (List Partition)
append_subvolume subvol partitions = elim (overwrite subvol partitions) [
  | some partitions' ↦ some partitions'
  | none ↦ elim (find_root_btrfs_part partitions) [
    | none ↦ none
    | some root ↦ some (partitions ++ based_on root subvol ∷ [])
  ]
]

unfoldable pub append_each : List BtrfsSubvolume → List Partition → Option (List Partition)
append_each [] partitions = some partitions
append_each (subvol ∷ subvols) partitions = elim (append_subvolume subvol partitions) [
  | none ↦ none
  | some partitions' ↦ append_each subvols partitions'
]

-- The result with the partitions after the call; `none` if the behaviour is undefined.
unfoldable pub btrfs_append_subvolumes :
    Sorter → List Partition → List BtrfsSubvolume → Option (Bool × List Partition)
btrfs_append_subvolumes sorter partitions [] = some (true, partitions)
btrfs_append_subvolumes sorter partitions (subvol ∷ subvols) =
    if not (is_some (find_root_btrfs_part partitions))
    then some (false, partitions)
    else elim (append_each (subvol ∷ subvols) partitions) [
      | none ↦ none
      | some partitions' ↦ some (true, sorter.sort Partition (less_by (λ p. p.device)) partitions')
    ]
