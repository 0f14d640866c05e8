-- ===== src/Disk/Crypttab/Entries.antt =====
-- gucc/src/crypttab.cpp: which partitions stand in the crypttab, and their lines.
use new_cli_installer.Base.{
  String, ◌==◌, ◌<>◌, ◌≡◌, refl, ap, not, ◌&&◌, is_empty, value_or, pad_right, if◌then◌else◌, ◌∙◌,
  Bool, true, ◌||◌, List, [], ◌∷◌, any, All, arith, Bool-cases, inl, inr, eq_iff,
}
use new_cli_installer.Base.Sort.{less_by, lt_text}
use new_cli_installer.Disk.{Partition, has_mapper}
use new_cli_installer.Disk.Crypttab.{copy_behind, unique_devices}

abbrev by_device : Partition → Partition → Bool
by_device = less_by (λ p. p.device)

-- Each partition has a device before those of all the partitions behind it.
abbrev pub Ascending : List Partition → Type 0
Ascending [] = Unit
Ascending (p ∷ ps) = All (λ q. lt_text p.device q.device ≡ true) ps × Ascending ps

-- Some partition is on the device.
abbrev pub has_device : String → List Partition → Bool
has_device device ps = any (λ p. p.device == device) ps

copy_behind-has_device :
    (device : String) (kept : Partition) (ps : List Partition)
    → has_device device (kept ∷ copy_behind kept ps) ≡ has_device device (kept ∷ ps)
unfolding copy_behind
copy_behind-has_device device kept [] = refl
copy_behind-has_device device kept (p ∷ ps) = elim (Bool-cases (kept.device == p.device)) [
  | inl same ↦
      let e : kept.device ≡ p.device = (eq_iff kept.device p.device).0 same in
      rw same (copy_behind-has_device device kept ps ∙ rw e (ground arith))
  | inr other ↦
      rw other (ap (λ b. (kept.device == device) || b) (copy_behind-has_device device p ps))
]

pub unique_devices-has_device :
    (device : String) (ps : List Partition)
    → has_device device (unique_devices ps) ≡ has_device device ps
unfolding unique_devices
unique_devices-has_device device [] = refl
unique_devices-has_device device (p ∷ ps) = copy_behind-has_device device p ps

-- The partition has a LUKS name and a LUKS UUID.
abbrev pub has_luks : Partition → Bool
has_luks p =
    not (is_empty (value_or p.luks_mapper_name "")) && not (is_empty (value_or p.luks_uuid ""))

-- Some partition at the mountpoint has a mapper.
abbrev pub encrypted_at : String → List Partition → Bool
encrypted_at mountpoint ps = any (λ p. p.mountpoint == mountpoint && has_mapper p) ps

-- The partition is opened with the keyfile: with an encrypted root, all but a root for which the
-- partition at `/bool` is not encrypted.
abbrev pub by_keyfile : List Partition → Partition → Bool
by_keyfile scheme p =
    encrypted_at "/" scheme && not (p.mountpoint == "/" && not (encrypted_at "/bool" scheme))

abbrev pub line_of : List Partition → String → Partition → String
line_of scheme opts p =
    pad_right 21 (value_or p.luks_mapper_name "")
    <> " "
    <> pad_right 45 ("UUID=" <> value_or p.luks_uuid "")
    <> " "
    <> (if by_keyfile scheme p then "/crypto_keyfile.bin" else "none")
    <> (if by_keyfile scheme p then " " <> opts else "")
    <> "\n"

-- The lines of the partitions with LUKS, and none for the others.
abbrev pub crypttab_lines : List Partition → String → List Partition → List String
crypttab_lines scheme opts [] = []
crypttab_lines scheme opts (p ∷ ps) =
    let rest = crypttab_lines scheme opts ps in
    if has_luks p then line_of scheme opts p ∷ rest else rest
