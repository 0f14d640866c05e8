-- ===== src/Disk/Luks.antt =====
-- gucc/src/luks.cpp: opening and formatting LUKS partitions, and their keyfile.
use new_cli_installer.Base.{String, ◌<>◌, Bool, true, false, if◌then◌else◌}
use new_cli_installer.Sys.{M, ask, pure, and_then, exists, ◌>>=◌, ◌>>◌}
use new_cli_installer.Sys.Io.{exec, exec_checked, arch_chroot}

unfoldable pub luks1_open : String → String → String → M Bool
luks1_open luks_pass partition luks_name = exec_checked (
    "echo '" <> luks_pass <> "' | cryptsetup open --type luks1 " <> partition <> " " <> luks_name
    <> " &>/dev/null")

unfoldable pub luks1_format : String → String → String → M Bool
luks1_format luks_pass partition additional_flags = exec_checked (
    "echo '" <> luks_pass <> "' | cryptsetup -q " <> additional_flags <> " --type luks1 luksFormat "
    <> partition <> " &>/dev/null")

unfoldable pub luks1_add_key : String → String → String → M Bool
luks1_add_key dest_file partition additional_flags = exec_checked (
    "cryptsetup -q " <> additional_flags <> " luksAddKey " <> partition <> " " <> dest_file
    <> " &>/dev/null")

-- The format string has one field, and the first of the arguments is the flags.
abbrev pub keyfile_command : String → String
keyfile_command additional_flags =
    "dd bs=512 count=4 if=/dev/urandom of=" <> additional_flags <> " iflag=fullblock &>/dev/null"

unfoldable pub generate_keyfile : String → String → M Bool
generate_keyfile dest_file additional_flags = do
  present ← ask (exists dest_file) (λ os log. os.succeeds log (exists dest_file))
  if present then pure true else exec_checked (keyfile_command additional_flags)

abbrev pub initcpio_command : String → String
initcpio_command mkinitcpio_conf =
    "grep -q '/crypto_keyfile.bin' " <> mkinitcpio_conf
    <> " || sed -i '/FILES/ s~)~/crypto_keyfile.bin)~' " <> mkinitcpio_conf

unfoldable pub luks1_setup_keyfile : String → String → String → String → M Bool
luks1_setup_keyfile dest_file mountpoint partition additional_flags =
    and_then (generate_keyfile dest_file additional_flags) do
      exec ("chmod 600 " <> dest_file) false
      and_then (luks1_add_key dest_file partition additional_flags) (
          and_then (exec_checked (initcpio_command (mountpoint <> "/etc/mkinitcpio.conf")))
            do arch_chroot "mkinitcpio -P" mountpoint false; pure true)
