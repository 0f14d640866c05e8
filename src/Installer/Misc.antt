-- ===== src/Installer/Misc.antt =====
-- src/misc.cpp: settings that are asked for, the list of the partitions behind a mount, and the menus
-- of the configuration files and the logs.
pub mod Counted
use new_cli_installer.Base.{
  ℕ, zero, suc, String, ◌<>◌, Bool, true, false, not, ◌&&◌, List, [], ◌∷◌, ◌++◌, if◌then◌else◌, eqb,
  is_empty, keep_if, contains_text, same_char,
}
use new_cli_installer.Base.Decimal.{ℤ, pos, negsuc}
use new_cli_installer.Boot.Initcpio.{file_exists}
use new_cli_installer.Sys.{M}
use new_cli_installer.Installer.Disk.{yesno_widget}
use new_cli_installer.Installer.Luks.{Menus}
use new_cli_installer.Installer.State.{
  Run, text, number, texts, pure, ◌>>=◌, ◌>>◌, quit, lift, if_ndevenv, get_text, get_number,
  get_texts, set,
}
use new_cli_installer.Installer.System.{interactive, succeeds, arch_chroot}

-- `z - 1` within the range of `std::int32_t`.
abbrev pub minus_one : ℤ → ℤ
minus_one (pos zero) = negsuc 0
minus_one (pos (suc n)) = pos n
minus_one (negsuc n) = negsuc (suc n)

-- The lines that have the setting `PARTITION` leave the partitions.
unfoldable pub drop_mounted : Run Bool
drop_mounted = do
  partition ← get_text "PARTITION"
  partitions ← get_texts "PARTITIONS"
  number_partitions ← get_number "NUMBER_PARTITIONS"
  set "PARTITIONS" (texts (keep_if (λ x. not (contains_text x partition)) partitions))
  set "NUMBER_PARTITIONS" (number (minus_one number_partitions))
  pure true

unfoldable pub confirm_mount : String → Bool → Run Bool
confirm_mount part_user quite = do
  is_mounted ← if_ndevenv (succeeds ("mount | grep -q " <> part_user)) (pure true)
  if not quite && not is_mounted then pure false else drop_mounted

unfoldable pub set_fsck_hook : Run (Unit {0})
set_fsck_hook = do
  do_sethook ← yesno_widget "\nDo you want to use fsck hook?\n"
  set "FSCK_HOOK" (number (if do_sethook then pos 1 else pos 0))

abbrev pub cache_body : String
cache_body =
    "\nDo you want to use the pacman cache of the running system instead\nof the installation target?\nThis can reduce the size of the required downloads in the installation.\n"

unfoldable pub set_cache : Run (Unit {0})
set_cache = do
  host ← yesno_widget cache_body
  if not host
      then (do
        set "hostcache" (number (pos 0))
        set "cachepath" (text "/mnt/var/cache/pacman/pkg/"))
      else (do set "hostcache" (number (pos 1)); set "cachepath" (text "/var/cache/pacman/pkg/"))

-- The root of the files that are shown.
unfoldable pub shown_root : Run String
shown_root = if_ndevenv (get_text "MOUNTPOINT") (pure "/")

unfoldable pub edit_mkinitcpio : Run (Unit {0})
edit_mkinitcpio = do
  mountpoint ← shown_root
  interactive ("vim \"" <> mountpoint <> "/etc/mkinitcpio.conf\"")
  do_run ← yesno_widget "\nRun mkinitcpio?\n"
  if do_run then arch_chroot "mkinitcpio -P" true else pure tt

unfoldable pub edit_grub : Run (Unit {0})
edit_grub = do
  mountpoint ← shown_root
  interactive ("vim \"" <> mountpoint <> "/etc/default/grub\"")
  do_update ← yesno_widget "\nUpdate GRUB?\n"
  if do_update then arch_chroot "grub-mkconfig -o /boot/grub/grub.cfg" true else pure tt

unfoldable pub edit_pacman_conf : Run (Unit {0})
edit_pacman_conf = do
  interactive "vim /etc/pacman.conf"
  if_ndevenv (interactive "pacman -Syy") (pure tt)

-- the configuration files

-- The entries of the menu with what they do.
abbrev pub Functions : Type 0
Functions = List (String × Run (Unit {0}))

abbrev pub edit_file : String → Run (Unit {0})
edit_file file_path = interactive ("vim " <> file_path)

-- `fs::path{file_path}.filename()`: what is behind the last `/`, with what was read since then.
unfoldable pub filename : String → String → String
filename name String.[] = name
filename name (String.◌∷◌ c s) =
    filename (if same_char c "/" then "" else name <> String.◌∷◌ c "") s

unfoldable pub check_and_add : String → String → Run (Unit {0}) → Run Functions
check_and_add file_path dir function = do
  there ← lift (file_exists file_path)
  let name = filename "" file_path
  pure (
      if not there
      then []
      else if is_empty dir
      then (name, function) ∷ []
      else (name <> " " <> dir, function) ∷ [])

-- Several files in a row, each with the directory that is shown with it.
unfoldable pub check_and_add_all : List (String × String) → Run Functions
check_and_add_all [] = pure []
check_and_add_all ((file_path, dir) ∷ files) = do
  functions ← check_and_add file_path dir (edit_file file_path)
  others ← check_and_add_all files
  pure (functions ++ others)

abbrev pub home_files : String → List (String × String)
home_files dir_entry =
    (dir_entry <> "/.extend.xinitrc", filename "" dir_entry)
    ∷ (dir_entry <> "/.xinitrc", filename "" dir_entry)
    ∷ (dir_entry <> "/.extend.Xresources", filename "" dir_entry)
    ∷ (dir_entry <> "/.Xresources", filename "" dir_entry)
    ∷ []

unfoldable pub add_home_files : List String → Run Functions
add_home_files [] = pure []
add_home_files (dir_entry ∷ dir_entries) = do
  functions ← check_and_add_all (home_files dir_entry)
  others ← add_home_files dir_entries
  pure (functions ++ others)

abbrev pub local_paths : String → String → List (String × String)
local_paths mountpoint uefi_mount =
    (mountpoint <> "/etc/crypttab", "")
    ∷ (mountpoint <> "/etc/fstab", "")
    ∷ (mountpoint <> "/boot/refind_linux.conf", "")
    ∷ (mountpoint <> uefi_mount <> "/EFI/refind/refind_linux.conf", "")
    ∷ (mountpoint <> uefi_mount <> "/loader/loader.conf", "")
    ∷ (mountpoint <> "/etc/hostname", "")
    ∷ (mountpoint <> "/etc/hosts", "")
    ∷ (mountpoint <> "/etc/systemd/journald.conf", "")
    ∷ (mountpoint <> "/etc/conf.d/keymaps", "")
    ∷ (mountpoint <> "/etc/locale.conf", "")
    ∷ (mountpoint <> "/etc/lightdm/lightdm.conf", "")
    ∷ (mountpoint <> "/etc/lxdm/lxdm.conf", "")
    ∷ (mountpoint <> "/etc/rc.conf", "")
    ∷ (mountpoint <> "/etc/pacman.conf", "")
    ∷ (mountpoint <> "/etc/makepkg.conf", "")
    ∷ (mountpoint <> "/etc/sddm.conf", "")
    ∷ (mountpoint <> "/etc/sudoers.conf", "")
    ∷ (mountpoint <> "/boot/syslinux/syslinux.cfg", "")
    ∷ (mountpoint <> "/etc/vconsole.conf", "")
    ∷ []

abbrev pub fzf : String
fzf = "fzf --reverse --header=\"Exit by pressing esc\" --prompt=\"Type to filter log entries > \""

unfoldable pub function_names : Functions → List String
function_names [] = []
function_names ((name, function) ∷ functions) = name ∷ function_names functions

-- `functions[selected]()`, which is not defined beyond the end.
unfoldable pub call_function : Functions → ℕ → Run (Unit {0})
call_function [] selected = quit
call_function ((name, function) ∷ functions) zero = function
call_function ((name, function) ∷ functions) (suc selected) = call_function functions selected

module _ (menus : Menus) where
  -- `list_directory` gives the entries of a directory.
  unfoldable pub edit_configs : (String → M (List String)) → Run (Unit {0})
  edit_configs list_directory = do
    uefi_mount ← get_text "UEFI_MOUNT"
    mountpoint ← shown_root
    home ← lift (file_exists (mountpoint <> "/home"))
    dir_entries ← if home then lift (list_directory (mountpoint <> "/home")) else pure []
    home_functions ← add_home_files dir_entries
    local_functions ← check_and_add_all (local_paths mountpoint uefi_mount)
    grub ← check_and_add (mountpoint <> "/etc/default/grub") "" edit_grub
    mkinitcpio ← check_and_add (mountpoint <> "/etc/mkinitcpio.conf") "" edit_mkinitcpio
    let functions = home_functions ++ (local_functions ++ (grub ++ mkinitcpio))
    menus.stay (function_names functions)
        "\nSelect any file listed below to be reviewed or amended.\n"
        λ selected. call_function functions selected >> pure false

  unfoldable pub logs_menu : Run (Unit {0})
  logs_menu = do
    mountpoint ← shown_root
    menus.stay ("Dmesg" ∷ "Pacman log" ∷ "Xorg log" ∷ "Journalctl" ∷ "Back" ∷ []) "" λ selected.
        if eqb selected 0
        then interactive ("arch-chroot " <> mountpoint <> " dmesg | " <> fzf) >> pure false
        else if eqb selected 1
        then interactive (fzf <> " < " <> mountpoint <> "/var/log/pacman.log") >> pure false
        else if eqb selected 2
        then interactive (fzf <> " < " <> mountpoint <> "/var/log/Xorg.0.log") >> pure false
        else if eqb selected 3
        then interactive ("arch-chroot " <> mountpoint <> " journalctl | " <> fzf) >> pure false
        else pure true
