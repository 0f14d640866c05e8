-- ===== src/Boot/Loaders.antt =====
-- gucc/src/bootloader.cpp: installing systemd-boot, GRUB, rEFInd and Limine.
use new_cli_installer.Base.{
  String, ◌<>◌, Bool, true, false, not, ◌||◌, Option, none, some, List, [], ◌∷◌, map, if◌then◌else◌,
  is_empty, starts_with,
}
use new_cli_installer.Lines.{split, join}
use new_cli_installer.Boot.Initcpio.{remove_hook}
use new_cli_installer.Boot.Grub.{GrubConfig, gen_grub_config, limine_default_config}
use new_cli_installer.Sys.{M, pure, and_then, ◌>>=◌, ◌>>◌}
use new_cli_installer.Sys.Io.{
  exec_checked, arch_chroot_checked, read_whole_file, create_file_for_overwrite,
}

pub record GrubInstallConfig : Type 0 where
  pub is_efi : Bool
  pub do_recheck : Bool
  pub is_removable : Bool
  pub is_root_on_zfs : Bool
  pub device : Option String
  pub efi_directory : Option String
  pub bootloader_id : Option String

pub record LimineInstallConfig : Type 0 where
  pub is_removable : Bool
  pub root_mountpoint : String
  pub boot_mountpoint : String
  pub kernel_params : List String

pub record RefindInstallConfig : Type 0 where
  pub is_removable : Bool
  pub root_mountpoint : String
  pub boot_mountpoint : String
  pub extra_kernel_versions : List String
  pub kernel_params : List String

-- `Initcpio{initcpio_filename}.remove_hook("autodetect")`, whose result is dropped.
unfoldable pub remove_autodetect : String → M (Unit {0})
remove_autodetect root_mountpoint = do
  remove_hook "autodetect" (record {
    modules = [];
    files = [];
    hooks = [];
    m_file_path = root_mountpoint <> "/etc/mkinitcpio.conf";
  })
  pure tt

unfoldable pub remove_autodetect_if : Bool → String → M (Unit {0})
remove_autodetect_if false root_mountpoint = pure tt
remove_autodetect_if true root_mountpoint = remove_autodetect root_mountpoint

unfoldable pub install_systemd_boot : String → String → Bool → M Bool
install_systemd_boot root_mountpoint efi_directory is_volume_removable =
    and_then
      (arch_chroot_checked ("bootctl --path=" <> efi_directory <> " install") root_mountpoint)
      (and_then (arch_chroot_checked "sdboot-manage gen" root_mountpoint)
        do remove_autodetect_if is_volume_removable root_mountpoint; pure true)

unfoldable pub write_grub_config : GrubConfig → String → M Bool
write_grub_config grub_config root_mountpoint =
    create_file_for_overwrite (root_mountpoint <> "/etc/default/grub") (gen_grub_config grub_config)

abbrev pub flag_if : Bool → String → String
flag_if true flag = flag
flag_if false flag = ""

-- An argument that is given where the test holds and the value is there.
abbrev pub value_if : Bool → String → Option String → String
value_if true prefix (some value) = prefix <> value
value_if true prefix none = ""
value_if false prefix value = ""

unfoldable pub grub_install_cmd : GrubInstallConfig → String
grub_install_cmd c =
    flag_if c.is_root_on_zfs "ZPOOL_VDEV_NAME_PATH=YES "
    <> "grub-install --target="
    <> (if c.is_efi then "x86_64-efi" else "i386-pc")
    <> flag_if c.do_recheck " --recheck"
    <> flag_if c.is_removable " --removable"
    <> value_if c.is_efi " --efi-directory=" c.efi_directory
    <> value_if c.is_efi " --bootloader-id=" c.bootloader_id
    <> value_if (not c.is_efi) " " c.device

unfoldable pub install_grub : GrubConfig → GrubInstallConfig → String → M Bool
install_grub grub_config grub_install_config root_mountpoint =
    and_then (write_grub_config grub_config root_mountpoint) (
      and_then (arch_chroot_checked (grub_install_cmd grub_install_config) root_mountpoint) (
        and_then (arch_chroot_checked "grub-mkconfig -o /boot/grub/grub.cfg" root_mountpoint)
          (pure true)))

unfoldable pub gen_refind_config : List String → String
gen_refind_config kernel_params =
    let kernel_params_str = join kernel_params " " in
    "\"Boot with standard options\"    \"" <> kernel_params_str <> "\"\n"
    <> "\"Boot to single-user mode\"    \"" <> kernel_params_str <> "\" single\n"

unfoldable pub extra_kernel_line : List String → String → String
extra_kernel_line extra_kernel_versions line =
    if starts_with line "#extra_kernel_version_strings"
      || starts_with line "extra_kernel_version_strings"
    then "extra_kernel_version_strings " <> join extra_kernel_versions ","
    else line

abbrev pub no_versions : List String → Bool
no_versions [] = true
no_versions (v ∷ vs) = false

unfoldable pub refind_write_extra_kern_strings : String → List String → M Bool
refind_write_extra_kern_strings file_path extra_kernel_versions = do
  file_content ← read_whole_file file_path
  if is_empty file_content || no_versions extra_kernel_versions
      then pure false
      else create_file_for_overwrite file_path
          (join (map (extra_kernel_line extra_kernel_versions) (split file_content "\n")) "\n")

unfoldable pub refind_install_cmd : String → Bool → String
refind_install_cmd root_path is_removable_drive =
    "refind-install --root "
    <> root_path
    <> flag_if is_removable_drive " --alldrivers --yes"
    <> " &>>/tmp/cachyos-install.log"

unfoldable pub install_refind : RefindInstallConfig → M Bool
install_refind c = and_then (exec_checked (refind_install_cmd c.root_mountpoint c.is_removable)) do
  remove_autodetect_if c.is_removable c.root_mountpoint
  and_then
      (create_file_for_overwrite (c.root_mountpoint <> "/boot/refind_linux.conf")
        (gen_refind_config c.kernel_params))
      (and_then
        (refind_write_extra_kern_strings (c.boot_mountpoint <> "/EFI/refind/refind.conf")
          c.extra_kernel_versions)
        (pure true))

unfoldable pub gen_limine_config : List String → String
gen_limine_config kernel_params = "KERNEL_CMDLINE[default]=\"" <> join kernel_params " " <> "\"\n"

unfoldable pub install_limine : LimineInstallConfig → M Bool
install_limine c =
    and_then (create_file_for_overwrite (c.boot_mountpoint <> "/limine.conf") limine_default_config)
      (and_then
        (create_file_for_overwrite (c.root_mountpoint <> "/etc/default/limine")
          (gen_limine_config c.kernel_params))
        (and_then (arch_chroot_checked "limine-install" c.root_mountpoint)
          (and_then (arch_chroot_checked "limine-mkinitcpio" c.root_mountpoint) (pure true))))
