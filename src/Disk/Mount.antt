-- ===== src/Disk/Mount.antt =====
-- gucc/src/mount_partitions.cpp: mounting, and what is encrypted below a partition.
use new_cli_installer.Base.{
  String, ◌<>◌, Bool, true, false, Option, none, some, List, [], ◌∷◌, if◌then◌else◌, is_empty,
}
use new_cli_installer.Lines.{make_multiline}
use new_cli_installer.Sys.{M, pure, ◌>>=◌}
use new_cli_installer.Sys.Io.{exec, exec_checked}

unfoldable pub mount_partition : String → String → String → M Bool
mount_partition partition mount_dir mount_opts =
    if is_empty mount_opts
    then exec_checked ("mount " <> partition <> " " <> mount_dir)
    else exec_checked ("mount -o " <> mount_opts <> " " <> partition <> " " <> mount_dir)

-- The variables that `query_partition` is given by reference.
pub record LuksState : Type 0 where
  pub is_luks : Bool
  pub is_lvm : Bool
  pub luks_name : String
  pub luks_dev : String
  pub luks_uuid : String

-- The first of the candidates that the LUKS name lies on.
unfoldable pub check_cryptparts : List String → String → M (Option String)
check_cryptparts [] luks_name = pure none
check_cryptparts (cryptpart ∷ cryptparts) luks_name = do
  found ← exec_checked ("lsblk -lno NAME " <> cryptpart <> " | grep -q '" <> luks_name <> "'")
  if found then pure (some cryptpart) else check_cryptparts cryptparts luks_name

abbrev pub on_lvm : String → LuksState → LuksState
on_lvm cryptpart s = record s {
  luks_dev = s.luks_dev <> " cryptdevice=" <> cryptpart <> ":" <> s.luks_name;
  is_lvm = true;
}

abbrev pub with_uuid : String → LuksState → LuksState
with_uuid uuid s = record s {
  luks_uuid = uuid;
  luks_dev = s.luks_dev <> " cryptdevice=UUID=" <> uuid <> ":" <> s.luks_name;
}

unfoldable pub candidates : String → M (List String)
candidates command = do listed ← exec command false; pure (make_multiline listed false "\n")

-- LUKS alone, where the parent is a partition.
unfoldable pub query_part : LuksState → M LuksState
query_part s = do
  cryptparts ←
      candidates
        "lsblk -lno NAME,FSTYPE,TYPE | grep 'part' | grep -i 'crypto_luks' | uniq | awk '{print \"/dev/\"$1}'"
  found ← check_cryptparts cryptparts s.luks_name
  elim found [
    | none ↦ pure s
    | some cryptpart ↦ do
      uuid ←
          exec
            ("lsblk -lno UUID,TYPE,FSTYPE " <> cryptpart
              <> " | grep 'part' | grep -i 'crypto_luks' | " <> "awk '{print $1}'")
            false
      pure (with_uuid uuid s)
  ]

-- LVM on LUKS, then LUKS alone.
unfoldable pub query_lvm_on_luks : LuksState → M LuksState
query_lvm_on_luks s = do
  cryptparts ←
      candidates
        "lsblk -lno NAME,FSTYPE,TYPE | grep ' crypt$' | grep -i 'LVM2_member' | uniq | awk '{print \"/dev/mapper/\"$1}'"
  found ← check_cryptparts cryptparts s.luks_name
  elim found [ none ↦ query_part s | some cryptpart ↦ pure (on_lvm cryptpart s) ]

-- LUKS on LVM, then the others.
unfoldable pub query_luks_on_lvm : LuksState → M LuksState
query_luks_on_lvm s = do
  cryptparts ←
      candidates
        "lsblk -lno NAME,FSTYPE,TYPE | grep 'lvm' | grep -i 'crypto_luks' | uniq | awk '{print \"/dev/mapper/\"$1}'"
  found ← check_cryptparts cryptparts s.luks_name
  elim found [ none ↦ query_lvm_on_luks s | some cryptpart ↦ pure (on_lvm cryptpart s) ]

unfoldable pub query_crypt : String → LuksState → M LuksState
query_crypt partition s = do
  name ← exec ("echo " <> partition <> " | sed \"s~^/dev/mapper/~~g\"") false
  query_luks_on_lvm (record s { is_luks = true; luks_name = name })

unfoldable pub query_partition : String → LuksState → M (Bool × LuksState)
query_partition partition s = do
  crypt ← exec_checked ("lsblk -lno TYPE " <> partition <> " | grep -q 'crypt'")
  s' ← if crypt then query_crypt partition s else pure s
  pure (true, s')
