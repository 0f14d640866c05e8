-- ===== src/Disk.antt =====
-- gucc/include/gucc/partition.hpp and gucc/include/gucc/btrfs.hpp: the partitions of a scheme.
pub mod Fstab
pub mod Crypttab
pub mod Btrfs
pub mod Mtab
pub mod Umount
pub mod Partitioning
pub mod Zfs
pub mod Luks
pub mod Swap
pub mod Mount
pub mod BlockDevices
use new_cli_installer.Base.{String, Option, none, Bool, is_some}

pub record Partition : Type 0 where
  pub fstype : String
  pub mountpoint : String
  pub uuid_str : String
  pub device : String
  pub size : String
  pub mount_opts : String
  pub subvolume : Option String
  pub luks_mapper_name : Option String
  pub luks_uuid : Option String
  pub luks_passphrase : Option String

-- `Partition{}`
abbrev pub empty_partition : Partition
empty_partition = record {
  fstype = "";
  mountpoint = "";
  uuid_str = "";
  device = "";
  size = "";
  mount_opts = "";
  subvolume = none;
  luks_mapper_name = none;
  luks_uuid = none;
  luks_passphrase = none;
}

-- `if (partition.luks_mapper_name)`
abbrev pub has_mapper : Partition → Bool
has_mapper p = is_some p.luks_mapper_name
