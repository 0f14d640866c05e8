-- ===== src/Disk/Partitioning/Input.antt =====
-- What sfdisk is fed.
use new_cli_installer.Base.{
  String, ◌==◌, ◌<>◌, Bool, ◌||◌, List, [], ◌∷◌, ◌++◌, if◌then◌else◌, is_empty,
}
use new_cli_installer.Lines.{join}
use new_cli_installer.Disk.{Partition}

-- The partition is for EFI, or it is swap.
abbrev pub is_efi_fs : Partition → Bool
is_efi_fs p = p.fstype == "fat16" || (p.fstype == "fat32" || p.fstype == "vfat")

abbrev pub is_swap_fs : Partition → Bool
is_swap_fs p = p.fstype == "linuxswap" || p.fstype == "swap"

-- The fields of a line: the type, the size if there is one, and the boot flag for EFI.
abbrev pub line_fields : Partition → List String
line_fields p =
    (if is_efi_fs p then "type=U" else if is_swap_fs p then "type=S" else "type=L")
    ∷ ((if is_empty p.size then [] else ("size=" <> p.size) ∷ [])
        ++ (if is_efi_fs p then "bootable" ∷ [] else []))

abbrev pub input_line : Partition → String
input_line p = join (line_fields p) "," <> "\n"
