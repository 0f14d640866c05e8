-- ===== src/Boot/KernelParams/Errors.antt =====
-- When the kernel parameters are refused.
use new_cli_installer.Base.{
  String, ◌==◌, ◌≡◌, refl, true, false, none, List, [], ◌∷◌, is_some, any, All, arith, Bool-cases,
  inl, inr, eq_iff,
}
use new_cli_installer.Disk.{Partition, has_mapper}
use new_cli_installer.Boot.KernelParams.{
  nullopt, Scan, is_root_on_btrfs, is_root_on_zfs, scan_swap, scan_fs, scan_partition, scan_all,
  get_kernel_params, start,
}
use new_cli_installer.Boot.KernelParams.Root.{
  is_root, scan_crypt_lem, IsReady, stepped, scan_partition_lem,
}

-- An encrypted root has a LUKS UUID.
abbrev pub HasUuid : Partition → Type 0
HasUuid p = is_root p ≡ true → has_mapper p ≡ true → is_some p.luks_uuid ≡ true

not_zfs : (p : Partition) → (p.fstype == "btrfs") ≡ true → (p.fstype == "zfs") ≡ false
not_zfs p e = rw ((eq_iff p.fstype "btrfs").0 e) refl

not_both : (p : Partition) → is_root_on_zfs p ≡ true → is_root_on_btrfs p ≡ false
unfolding is_root_on_zfs is_root_on_btrfs
not_both p h = ground (arith, not_zfs p)

scan_fs_nullopt : (p : Partition) (s : Scan) → is_root_on_zfs p ≡ true → scan_fs p none s ≡ nullopt
unfolding scan_fs
scan_fs_nullopt p s h = rw (not_both p h, h) refl

scan_partition_nullopt :
    (p : Partition) (s : Scan)
    → HasUuid p
    → is_root_on_zfs p ≡ true
    → scan_partition p none s ≡ nullopt
unfolding scan_partition
scan_partition_nullopt p s uuid zfs =
    rw (scan_crypt_lem p (scan_swap p s) uuid) (scan_fs_nullopt p _ zfs)

scan_all_nullopt :
    (ps : List Partition) (s : Scan)
    → All HasUuid ps
    → any is_root_on_zfs ps ≡ true
    → scan_all ps none s ≡ nullopt
unfolding scan_all
scan_all_nullopt [] s uuid h = absurd (cc)
scan_all_nullopt (p ∷ ps) s (uuid, uuids) h = elim (Bool-cases (is_root_on_zfs p)) [
  | inl zfs ↦ rw (scan_partition_nullopt p s uuid zfs) refl
  | inr other ↦
      let ready : IsReady none p = record { crypt = uuid; zfs = λ e. absurd (cc (e, other)) } in
      rw (scan_partition_lem p none s ready)
        (scan_all_nullopt ps (stepped none p s) uuids (rw other at h))
]

-- Without a dataset the result is `std::nullopt`, and nothing that is not there is read, if any partition
-- is a root on zfs, wherever it stands, and every encrypted root has a LUKS UUID.
pub get_kernel_params_no_dataset :
    (ps : List Partition) (given : String)
    → All HasUuid ps
    → any is_root_on_zfs ps ≡ true
    → get_kernel_params ps given none ≡ nullopt
unfolding get_kernel_params
get_kernel_params_no_dataset ps given uuids h = rw (scan_all_nullopt ps (start given) uuids h) refl
