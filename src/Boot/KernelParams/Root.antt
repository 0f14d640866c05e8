-- ===== src/Boot/KernelParams/Root.antt =====
-- The kernel parameters against the partitions that decide them: the last root and the last swap.
use new_cli_installer.Base.{
  String, ◌==◌, ◌<>◌, ◌≡◌, Bool, true, false, not, ◌&&◌, Option, none, some, List, [], ◌∷◌, ◌++◌,
  append_assoc, append-nil, if◌then◌else◌, is_empty, is_some, value_or, All, arith,
}
use new_cli_installer.Disk.{Partition, has_mapper}
use new_cli_installer.Lines.{make_multiline}
use new_cli_installer.Boot.KernelParams.{
  params, nullopt, Scan, is_root_on_btrfs, is_root_on_zfs, scan_swap, set_cryptdevice, scan_crypt,
  scan_root, scan_fs, scan_partition, scan_all, resume, finish, get_kernel_params,
}

abbrev pub is_root : Partition → Bool
is_root p = p.mountpoint == "/"

-- What the loop reads of a partition is there: the UUID of an encrypted root and the dataset of a
-- root on zfs.
pub record IsReady (z : Option String) (p : Partition) : Type 0 where
  pub crypt : is_root p ≡ true → has_mapper p ≡ true → is_some p.luks_uuid ≡ true
  pub zfs : is_root_on_zfs p ≡ true → is_some z ≡ true

-- The parameters of the file system of a root.
abbrev pub fs_params : Option String → Partition → List String
fs_params z p =
    if is_root_on_btrfs p && is_some p.subvolume
    then ("rootflags=subvol=" <> value_or p.subvolume "") ∷ []
    else if is_root_on_zfs p
    then ("root=ZFS=" <> value_or z "") ∷ []
    else []

abbrev pub crypt_params : Partition → List String
crypt_params p =
    ("cryptdevice=UUID=" <> value_or p.luks_uuid "" <> ":" <> value_or p.luks_mapper_name "")
    ∷ ("root=/dev/mapper/" <> value_or p.luks_mapper_name "")
    ∷ []

-- The value of the last partition that passes the test, else the one given.
abbrev pub last {ℓ} : {A : Type ℓ} → (Partition → Bool) → (Partition → A) → A → List Partition → A
last test value d [] = d
last test value d (p ∷ ps) = last test value (if test p then value p else d) ps

abbrev pub all_fs_params : Option String → List Partition → List String
all_fs_params z [] = []
all_fs_params z (p ∷ ps) = fs_params z p ++ all_fs_params z ps

abbrev pub is_plain_swap : Partition → Bool
is_plain_swap p = p.fstype == "linuxswap" && not (has_mapper p)

abbrev pub is_crypt_swap : Partition → Bool
is_crypt_swap p = p.fstype == "linuxswap" && has_mapper p

abbrev pub is_crypt_root : Partition → Bool
is_crypt_root p = is_root p && has_mapper p

-- The variables after one partition.
abbrev pub stepped : Option String → Partition → Scan → Scan
stepped z p s = record {
  kernel_params_list = s.kernel_params_list ++ fs_params z p;
  cryptdevice_params = if is_crypt_root p then crypt_params p else s.cryptdevice_params;
  root_uuid = if is_root p then some p.uuid_str else s.root_uuid;
  swap_uuid = if is_plain_swap p then some p.uuid_str else s.swap_uuid;
  swap_mappername = if is_crypt_swap p then p.luks_mapper_name else s.swap_mappername;
}

scan_swap_lem :
    (p : Partition) (s : Scan)
    → scan_swap p s ≡ record s {
      swap_uuid = if is_plain_swap p then some p.uuid_str else s.swap_uuid;
      swap_mappername = if is_crypt_swap p then p.luks_mapper_name else s.swap_mappername;
    }
unfolding scan_swap
scan_swap_lem p s = ground arith

pub scan_crypt_lem :
    (p : Partition) (s : Scan)
    → (is_root p ≡ true → has_mapper p ≡ true → is_some p.luks_uuid ≡ true)
    → scan_crypt p s
      ≡ params (record s {
        cryptdevice_params = if is_crypt_root p then crypt_params p else s.cryptdevice_params;
      })
unfolding scan_crypt set_cryptdevice
scan_crypt_lem p s h = ground arith

scan_fs_lem :
    (p : Partition) (z : Option String) (s : Scan)
    → (is_root_on_zfs p ≡ true → is_some z ≡ true)
    → scan_fs p z s
      ≡ params (record s { kernel_params_list = s.kernel_params_list ++ fs_params z p })
unfolding scan_fs
scan_fs_lem p z s h = ground (arith, append-nil s.kernel_params_list)

pub scan_partition_lem :
    (p : Partition) (z : Option String) (s : Scan)
    → IsReady z p
    → scan_partition p z s ≡ params (stepped z p s)
unfolding scan_partition scan_root
scan_partition_lem p z s r =
    rw (scan_swap_lem p s, scan_crypt_lem p _ r.crypt, scan_fs_lem p z _ r.zfs) (ground arith)

-- The variables after all partitions.
abbrev scanned : Option String → List Partition → Scan → Scan
scanned z ps s = record {
  kernel_params_list = s.kernel_params_list ++ all_fs_params z ps;
  cryptdevice_params = last is_crypt_root crypt_params s.cryptdevice_params ps;
  root_uuid = last is_root (λ p. some p.uuid_str) s.root_uuid ps;
  swap_uuid = last is_plain_swap (λ p. some p.uuid_str) s.swap_uuid ps;
  swap_mappername = last is_crypt_swap (λ p. p.luks_mapper_name) s.swap_mappername ps;
}

scan_all_lem :
    (ps : List Partition) (z : Option String) (s : Scan)
    → All (IsReady z) ps
    → scan_all ps z s ≡ params (scanned z ps s)
unfolding scan_all
scan_all_lem [] z s h = rw append-nil
scan_all_lem (p ∷ ps) z s (r, rs) =
    rw (scan_partition_lem p z s r, scan_all_lem ps z _ rs, append_assoc)

-- The UUID of the last root partition.
abbrev pub root_uuid : List Partition → Option String
root_uuid ps = last is_root (λ p. some p.uuid_str) none ps

-- How the root is named: by the mapper of the last encrypted root, else by the UUID.
abbrev pub root_params : List Partition → String → List String
root_params ps uuid = elim (last is_crypt_root crypt_params [] ps) [
  | [] ↦ ("root=UUID=" <> uuid) ∷ []
  | q ∷ qs ↦ q ∷ qs
]

-- For partitions of which all that is read is there, the result is `std::nullopt` if there is no
-- root partition or the last one has no UUID. Otherwise it is the given parameters, `rw`, those of the
-- roots' file systems, the name of the root, and the swap partitions to resume from: the last one
-- that is not encrypted and the last one that is.
pub get_kernel_params_lem :
    (ps : List Partition) (given : String) (z : Option String)
    → All (IsReady z) ps
    → get_kernel_params ps given z ≡ elim (root_uuid ps) [
      | none ↦ nullopt
      | some uuid ↦
          if is_empty uuid
          then nullopt
          else params (
              ((((make_multiline given false " " ++ "rw" ∷ []) ++ all_fs_params z ps)
                  ++ root_params ps uuid)
                ++ resume "resume=UUID=" (last is_plain_swap (λ p. some p.uuid_str) none ps))
              ++ resume "resume=/dev/mapper/"
                  (last is_crypt_swap (λ p. p.luks_mapper_name) none ps))
    ]
unfolding get_kernel_params finish
get_kernel_params_lem ps given z h = rw (scan_all_lem ps z _ h)
