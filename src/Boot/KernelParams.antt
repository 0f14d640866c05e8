-- ===== src/Boot/KernelParams.antt =====
-- gucc/src/kernel_params.cpp: the kernel command line of a partition scheme.
pub mod Root
pub mod Errors
use new_cli_installer.Base.{
  String, ◌==◌, ◌<>◌, Bool, true, false, not, ◌&&◌, Option, none, some, List, [], ◌∷◌, ◌++◌,
  if◌then◌else◌, is_empty, is_some,
}
use new_cli_installer.Disk.{Partition, has_mapper}
use new_cli_installer.Lines.{make_multiline}

-- A value, `std::nullopt`, or the read of an empty `std::optional`, which is undefined behaviour.
pub data Outcome (A : Type 0) : Type 0 where
  params : A → Outcome A
  nullopt : Outcome A
  undefined : Outcome A

-- The local variables of the loop over the partitions.
pub record Scan : Type 0 where
  pub kernel_params_list : List String
  pub cryptdevice_params : List String
  pub root_uuid : Option String
  pub swap_uuid : Option String
  pub swap_mappername : Option String

unfoldable pub is_root_on_btrfs : Partition → Bool
is_root_on_btrfs partition = partition.mountpoint == "/" && partition.fstype == "btrfs"

unfoldable pub is_root_on_zfs : Partition → Bool
is_root_on_zfs partition = partition.mountpoint == "/" && partition.fstype == "zfs"

unfoldable pub scan_swap : Partition → Scan → Scan
scan_swap partition s =
    if partition.fstype == "linuxswap" && not (has_mapper partition)
    then record s { swap_uuid = some partition.uuid_str }
    else if partition.fstype == "linuxswap" && has_mapper partition
    then record s { swap_mappername = partition.luks_mapper_name }
    else s

-- `*luks_uuid` and `*luks_mapper_name` of an encrypted root.
unfoldable pub set_cryptdevice : Option String → Option String → Scan → Outcome Scan
set_cryptdevice none luks_uuid s = params s
set_cryptdevice (some luks_mapper_name) none s = undefined
set_cryptdevice (some luks_mapper_name) (some luks_uuid) s = params (record s {
  cryptdevice_params =
      ("cryptdevice=UUID=" <> luks_uuid <> ":" <> luks_mapper_name)
      ∷ ("root=/dev/mapper/" <> luks_mapper_name)
      ∷ [];
})

unfoldable pub scan_crypt : Partition → Scan → Outcome Scan
scan_crypt partition s =
    if partition.mountpoint == "/"
    then set_cryptdevice partition.luks_mapper_name partition.luks_uuid s
    else params s

unfoldable pub scan_root : Partition → Scan → Scan
scan_root partition s =
    if partition.mountpoint == "/" then record s { root_uuid = some partition.uuid_str } else s

abbrev pub push : String → Scan → Scan
push param s = record s { kernel_params_list = s.kernel_params_list ++ param ∷ [] }

-- The parameters that a btrfs or a zfs root needs.
unfoldable pub scan_fs : Partition → Option String → Scan → Outcome Scan
scan_fs partition zfs_root_dataset s =
    if is_root_on_btrfs partition && is_some partition.subvolume
    then elim partition.subvolume [
      | none ↦ undefined
      | some subvolume ↦ params (push ("rootflags=subvol=" <> subvolume) s)
    ]
    else if is_root_on_zfs partition
    then elim zfs_root_dataset [
      | none ↦ nullopt
      | some dataset ↦ params (push ("root=ZFS=" <> dataset) s)
    ]
    else params s

infixl 5 ◌>>=◌
abbrev pub ◌>>=◌ : {A B : Type 0} → Outcome A → (A → Outcome B) → Outcome B
params a >>= f = f a
nullopt >>= f = nullopt
undefined >>= f = undefined

-- One round of the loop.
unfoldable pub scan_partition : Partition → Option String → Scan → Outcome Scan
scan_partition partition zfs_root_dataset s = do
  s' ← scan_crypt partition (scan_swap partition s)
  scan_fs partition zfs_root_dataset (scan_root partition s')

unfoldable pub scan_all : List Partition → Option String → Scan → Outcome Scan
scan_all [] zfs_root_dataset s = params s
scan_all (partition ∷ partitions) zfs_root_dataset s =
    scan_partition partition zfs_root_dataset s >>= scan_all partitions zfs_root_dataset

-- A parameter for a value that is there and not empty.
unfoldable pub resume : String → Option String → List String
resume prefix none = []
resume prefix (some name) = if is_empty name then [] else (prefix <> name) ∷ []

-- What is appended after the loop.
unfoldable pub finish : Scan → Outcome (List String)
finish s = elim s.root_uuid [
  | none ↦ nullopt
  | some root_uuid ↦
      let root_params : List String = elim s.cryptdevice_params [
        | [] ↦ ("root=UUID=" <> root_uuid) ∷ []
        | p ∷ ps ↦ p ∷ ps
      ] in
      let list = s.kernel_params_list ++ root_params in
      let list' = list ++ resume "resume=UUID=" s.swap_uuid in
      if is_empty root_uuid
      then nullopt
      else params (list' ++ resume "resume=/dev/mapper/" s.swap_mappername)
]

abbrev pub start : String → Scan
start kernel_params = record {
  kernel_params_list = make_multiline kernel_params false " " ++ "rw" ∷ [];
  cryptdevice_params = [];
  root_uuid = none;
  swap_uuid = none;
  swap_mappername = none;
}

unfoldable pub get_kernel_params : List Partition → String → Option String → Outcome (List String)
get_kernel_params partitions kernel_params zfs_root_dataset =
    scan_all partitions zfs_root_dataset (start kernel_params) >>= finish
