-- ===== src/Installer/System.antt =====
-- src/utils.cpp, src/utils.hpp and src/follow_process_log.cpp: running commands with the settings.
use new_cli_installer.Base.{
  String, ◌==◌, ◌<>◌, Bool, true, false, not, ◌&&◌, ◌||◌, Option, none, some, List, [], ◌∷◌,
  if◌then◌else◌,
}
use new_cli_installer.Sys.{ask, download, dialog, spawn, is_directory}
use new_cli_installer.Sys.Io.{safe_getenv, exec, exec_checked, arch_chroot_checked}
use new_cli_installer.Installer.State.{
  Run, pure, ◌>>=◌, ◌>>◌, lift, if_ndevenv, get_text, get_number, is_set,
}

-- Running a command with what it prints, running it with the terminal, and whether it succeeds.
abbrev pub output : String → Run String
output command = lift (exec command false)

abbrev pub interactive : String → Run (Unit {0})
interactive command = do lift (exec command true); pure tt

abbrev pub succeeds : String → Run Bool
succeeds command = lift (exec_checked command)

-- `fs::is_directory(path)`
abbrev pub directory_exists : String → Run Bool
directory_exists path =
    lift (ask (is_directory path) (λ os log. os.succeeds log (is_directory path)))

abbrev pub connection_url : String
connection_url = "https://cachyos.org"

-- Whether the site answers with success or a redirection.
unfoldable pub is_connected : Run Bool
is_connected =
    if_ndevenv
      (lift (ask (download connection_url) (λ os log. os.succeeds log (download connection_url))))
      (pure true)

unfoldable pub check_root : Run Bool
check_root = if_ndevenv (do user ← output "whoami"; pure (user == "root")) (pure true)

-- Whether a line was read from the standard input, and its character if it is one.
abbrev pub one_char : String → String
one_char String.[] = ""
one_char (String.◌∷◌ c String.[]) = String.◌∷◌ c ""
one_char (String.◌∷◌ c (String.◌∷◌ d s)) = ""

unfoldable pub prompt_char : String → Run (Option String)
prompt_char prompt = do
  line ← lift (ask (dialog prompt) (λ os log. os.input_of log prompt))
  pure (elim line [ none ↦ none | some tmp ↦ some (one_char tmp) ])

-- `exec_follow`: the status with which the process ends is not looked at.
unfoldable pub exec_follow : List String → Bool → Run Bool
exec_follow vec false = pure false
exec_follow vec true = do
  log_exec_cmds ← lift (safe_getenv "LOG_EXEC_CMDS")
  dirty_cmd_run ← lift (safe_getenv "DIRTY_CMD_RUN")
  if dirty_cmd_run == "1"
      then pure true
      else lift (ask (spawn vec) (λ os log. os.succeeds log (spawn vec)))

abbrev pub done_suffix : String
done_suffix = " ; echo -e \"\n----------DONE----------\n\""

-- The last argument of a command that is given with `-c` gets a suffix.
unfoldable pub with_suffix : List String → List String
with_suffix [] = []
with_suffix (a ∷ []) = a ∷ []
with_suffix (a ∷ b ∷ []) = a ∷ b ∷ []
with_suffix (a ∷ b ∷ c ∷ []) = if b == "-c" then a ∷ b ∷ (c <> done_suffix) ∷ [] else a ∷ b ∷ c ∷ []
with_suffix (a ∷ b ∷ c ∷ d ∷ rest) = a ∷ b ∷ c ∷ d ∷ rest

-- `follow_process_log_widget({"/bin/sh", "-c", command})`
unfoldable pub follow_process_log_widget : String → Run Bool
follow_process_log_widget command = exec_follow (with_suffix ("/bin/sh" ∷ "-c" ∷ command ∷ [])) true

-- In HEADLESS mode a command is run, else it is followed in a widget.
unfoldable pub run_or_follow : String → Run Bool
run_or_follow command = do
  headless_mode ← get_number "HEADLESS_MODE"
  if is_set headless_mode then succeeds command else follow_process_log_widget command

unfoldable pub arch_chroot : String → Bool → Run (Unit {0})
arch_chroot command follow = do
  mountpoint ← get_text "MOUNTPOINT"
  headless_mode ← get_number "HEADLESS_MODE"
  let follow_headless = follow && is_set headless_mode
  if_ndevenv
      (if not follow || follow_headless
        then (lift (arch_chroot_checked command mountpoint) >> pure tt)
        else (follow_process_log_widget (
              "arch-chroot " <> mountpoint <> " " <> command <> " 2>>/tmp/cachyos-install.log 2>&1")
            >> pure tt))
      (pure tt)

unfoldable pub inst_needed : String → Run (Unit {0})
inst_needed pkg = do
  installed ← succeeds ("pacman -Qq " <> pkg <> " &>/dev/null")
  if installed
      then pure tt
      else if_ndevenv (run_or_follow ("pacman -Sy --noconfirm " <> pkg) >> pure tt) (pure tt)

unfoldable pub bootloader_default_mount : String → String → String
bootloader_default_mount bootloader bios_mode =
    if bootloader == "systemd-boot" || (bootloader == "limine" || bios_mode == "BIOS")
    then "/boot"
    else if bootloader == "grub" || bootloader == "refind"
    then "/boot/efi"
    else "unknown bootloader"

unfoldable pub available_bootloaders : String → List String
available_bootloaders bios_mode =
    if bios_mode == "BIOS" then "grub" ∷ [] else "systemd-boot" ∷ "refind" ∷ "grub" ∷ "limine" ∷ []
