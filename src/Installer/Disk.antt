-- ===== src/Installer/Disk.antt =====
-- src/disk.cpp: subvolumes, pools, file systems and mounting with the settings.
pub mod Default
use new_cli_installer.Base.{
  String, ◌==◌, ◌<>◌, Bool, true, false, Option, none, some, List, [], ◌∷◌, if◌then◌else◌, is_empty,
}
use new_cli_installer.Base.Sort.{Sorter}
use new_cli_installer.Lines.{make_multiline}
use new_cli_installer.Disk.{Partition}
use new_cli_installer.Disk.Btrfs.{
  BtrfsSubvolume, find_root_btrfs_part, btrfs_mount_subvols, btrfs_append_subvolumes,
}
use new_cli_installer.Disk.Btrfs as Btrfs
use new_cli_installer.Sys.{ask, dialog}
use new_cli_installer.Installer.State.{Run, pure, ◌>>=◌, ◌>>◌, quit, lift, if_ndevenv}
use new_cli_installer.Installer.System.{output, interactive, succeeds}

-- What is entered in a box, or nothing if it is cancelled; and whether a question is answered so.
abbrev pub inputbox_widget : String → Run (Option String)
inputbox_widget content = lift (ask (dialog content) (λ os log. os.input_of log content))

abbrev pub yesno_widget : String → Run Bool
yesno_widget content = lift (ask (dialog content) (λ os log. os.succeeds log (dialog content)))

unfoldable pub default_subvolumes : List BtrfsSubvolume
default_subvolumes =
    record { subvolume = "/@"; mountpoint = "/" }
    ∷ record { subvolume = "/@home"; mountpoint = "/home" }
    ∷ record { subvolume = "/@cache"; mountpoint = "/var/cache" }
    ∷ []

-- Appends the subvolumes and reads the root partition, which has to be there again.
unfoldable pub append_subvols : Sorter → List Partition → List BtrfsSubvolume → Run (List Partition)
append_subvols sorter partitions subvolumes =
    elim (btrfs_append_subvolumes sorter partitions subvolumes) [
      | none ↦ quit
      | some appended ↦ elim (find_root_btrfs_part appended.1) [
        | none ↦ quit
        | some root_part ↦ pure appended.1
      ]
    ]

abbrev pub subvols_body : String
subvols_body =
    "\nInput names of the subvolumes separated by spaces.\nThe first one will be used for mounting /.\n"

abbrev pub mountpoint_body : String → String
mountpoint_body subvol =
    "\nInput mountpoint of\nthe subvolume " <> subvol
    <> "\nas it would appear\nin installed system\n(without prepending /mnt).\n"

-- The mountpoint of each subvolume, as the user enters them, unless one is cancelled.
unfoldable pub ask_mountpoints : List String → Run (Option (List BtrfsSubvolume))
ask_mountpoints [] = pure (some [])
ask_mountpoints (subvol ∷ subvol_list) = do
  entered ← inputbox_widget (mountpoint_body subvol)
  elim entered [
    | none ↦ pure none
    | some mountpoint ↦ do
      others ← ask_mountpoints subvol_list
      pure (elim others [
        | none ↦ none
        | some subvolumes ↦
            some (record { subvolume = subvol; mountpoint = mountpoint } ∷ subvolumes)
      ])
  ]

-- The first subvolume is mounted as the root; without one its name is read beyond the end.
unfoldable pub manual_subvolumes : List String → Run (Option (List BtrfsSubvolume))
manual_subvolumes [] = quit
manual_subvolumes (subvol ∷ subvol_list) = do
  others ← ask_mountpoints subvol_list
  pure (elim others [
    | none ↦ none
    | some subvolumes ↦ some (record { subvolume = subvol; mountpoint = "/" } ∷ subvolumes)
  ])

-- Creates the subvolumes and appends them to the partitions.
unfoldable pub create_and_append :
    Sorter → List Partition → Partition → List BtrfsSubvolume → Run (List Partition)
create_and_append sorter partitions root_part subvolumes = do
  lift (Btrfs.btrfs_create_subvols subvolumes root_part.device "/mnt" root_part.mount_opts)
  append_subvols sorter partitions subvolumes

unfoldable pub create_manually : Sorter → List Partition → Partition → Run (List Partition)
create_manually sorter partitions root_part = do
  subvols ← inputbox_widget subvols_body
  elim subvols [
    | none ↦ pure partitions
    | some names ↦ do
      entered ← manual_subvolumes (make_multiline names false " ")
      elim entered [
        | none ↦ pure partitions
        | some subvolumes ↦ create_and_append sorter partitions root_part subvolumes
      ]
  ]

abbrev pub default_note : String
default_note = "\nThis creates subvolumes:\n/@ for /,\n/@home for /home,\n/@cache for /var/cache.\n"

unfoldable pub create_automatically :
    Sorter → List Partition → Partition → Bool → Run (List Partition)
create_automatically sorter partitions root_part ignore_note = do
  do_create ← if ignore_note then pure true else yesno_widget default_note
  if do_create
      then create_and_append sorter partitions root_part default_subvolumes
      else pure partitions

abbrev pub mount_options_command : String
mount_options_command =
    "mount | grep 'on /mnt ' | grep -Po '(?<=\\().*(?=\\))' > /tmp/.root_mount_options"

-- The partitions after the call, in place of the reference to them.
unfoldable pub btrfs_create_subvols : Sorter → List Partition → String → Bool → Run (List Partition)
btrfs_create_subvols sorter partitions mode ignore_note =
    if is_empty mode then pure partitions else elim (find_root_btrfs_part partitions) [
      | none ↦ pure partitions
      | some root_part ↦
          if_ndevenv
            (do
              output mount_options_command
              if mode == "manual"
                  then create_manually sorter partitions root_part
                  else create_automatically sorter partitions root_part ignore_note)
            (append_subvols sorter partitions default_subvolumes)
    ]

unfoldable pub fs_opts : Bool → String
fs_opts rotational_queue =
    if rotational_queue
    then "autodefrag,compress=zlib,noatime,nossd,commit=120"
    else "compress=lzo,noatime,space_cache,ssd,commit=120"

-- The disk above a device, as lsblk shows it.
abbrev pub disk_command : String → String
disk_command name =
    "lsblk -i | tac | sed -r 's/^[^[:alnum:]]+//' | sed -n -e '/" <> name
    <> "/,/disk/p' | awk '/disk/ {print $1}'"

unfoldable pub mount_found_subvols :
    Sorter → List Partition → Partition → Bool → Run (List Partition)
mount_found_subvols sorter partitions root_part rotational_queue = do
  interactive "btrfs subvolume list /mnt 2>/dev/null | cut -d' ' -f9 > /tmp/.subvols"
  succeeds "umount -v /mnt &>>/tmp/cachyos-install.log"
  listed ← output "cat /tmp/.subvols"
  entered ← ask_mountpoints (make_multiline listed false "\n")
  elim entered [
    | none ↦ pure partitions
    | some subvolumes ↦ do
      lift (btrfs_mount_subvols subvolumes root_part.device "/mnt" (fs_opts rotational_queue))
      append_subvols sorter partitions subvolumes
  ]

unfoldable pub mount_existing_subvols : Sorter → List Partition → Run (List Partition)
mount_existing_subvols sorter partitions = elim (find_root_btrfs_part partitions) [
  | none ↦ pure partitions
  | some root_part ↦ do
    part_dev_name ← output ("echo " <> root_part.device <> " | rev | cut -d/ -f1 | rev")
    device_name ← output (disk_command part_dev_name)
    rotational ← output ("cat /sys/block/" <> device_name <> "/queue/rotational")
    if_ndevenv (mount_found_subvols sorter partitions root_part (rotational == "1"))
        (pure partitions)
]

unfoldable pub volume_group_sizes : List String → Run (List String)
volume_group_sizes [] = pure []
volume_group_sizes (vg ∷ vg_list) = do
  size ← output ("vgdisplay " <> vg <> " | grep -i \"vg size\" | awk '{print $3$4}'")
  sizes ← volume_group_sizes vg_list
  pure (size ∷ sizes)

unfoldable pub lvm_show_vg : Run (List String)
lvm_show_vg = do
  vg_list ← output "lvs --noheadings | awk '{print $2}' | uniq"
  volume_group_sizes (make_multiline vg_list false "\n")
