-- ===== src/Tests.antt =====
-- Concrete inputs for the properties: a scheme, a configuration and a system.
mod Disk
mod Boot
mod Stored
mod Swap
mod Grub
mod Host
mod Installer
use new_cli_installer.Base.{String, true, none, some, List, [], ◌∷◌}
use new_cli_installer.Base.Decimal.{pos}
use new_cli_installer.Disk.{Partition, empty_partition}
use new_cli_installer.Boot.Initcpio.{Initcpio}
use new_cli_installer.Sys.{Os}

-- A system on which everything succeeds and no file can be read.
abbrev pub willing : Os
willing = record {
  ndevenv = true;
  env = λ name. none;
  status_of = λ log command. pos 0;
  output_of = λ log command. some "";
  content_of = λ log path. none;
  succeeds = λ log event. true;
  body_of = λ log url. none;
  input_of = λ log prompt. none;
}

abbrev pub root : Partition
root = record empty_partition {
  fstype = "btrfs";
  mountpoint = "/";
  uuid_str = "6bd7-c1";
  device = "/dev/nvme0n1p2";
  mount_opts = "defaults,noatime";
  subvolume = some "/@";
  luks_mapper_name = some "luks-root";
  luks_uuid = some "00e1";
}

abbrev pub efi : Partition
efi = record empty_partition {
  fstype = "fat32";
  mountpoint = "/boot";
  uuid_str = "8EFB-4B84";
  device = "/dev/nvme0n1p1";
  size = "2GiB";
  mount_opts = "defaults,noatime";
}

abbrev pub swap : Partition
swap = record empty_partition {
  fstype = "linuxswap";
  uuid_str = "59848b1b";
  device = "/dev/nvme0n1p3";
  mount_opts = "defaults";
}

abbrev pub scheme : List Partition
scheme = root ∷ efi ∷ swap ∷ []

abbrev pub initcpio : Initcpio
initcpio = record {
  modules = "btrfs" ∷ [];
  files = [];
  hooks = "base" ∷ "udev" ∷ "fsck" ∷ [];
  m_file_path = "/etc/mkinitcpio.conf";
}
