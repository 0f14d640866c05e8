-- ===== src/Installer/Connection.antt =====
-- src/utils.cpp: waiting for a connection.
pub mod Polling
use new_cli_installer.Base.{String, ◌==◌, Bool, true, none, some, ℕ, zero, suc, if◌then◌else◌, List}
use new_cli_installer.Packages.PacmanConf.{Pushed, returned, terminated, get_repo_list}
use new_cli_installer.Packages.Repos.{install_cachyos_repos}
use new_cli_installer.Sys.{ask, dialog}
use new_cli_installer.Installer.State.{Run, pure, ◌>>=◌, ◌>>◌, quit, lift, if_ndevenv}
use new_cli_installer.Installer.System.{interactive, is_connected, prompt_char}

abbrev pub ended : Pushed → Run (Unit {0})
ended (returned done) = pure tt
ended terminated = quit

-- `isa_levels` are the levels of the machine's processor.
unfoldable pub install_cachyos_repo : List String → Run (Unit {0})
install_cachyos_repo isa_levels = do
  repo_list ← lift (get_repo_list "/etc/pacman.conf")
  if_ndevenv (do pushed ← lift (install_cachyos_repos isa_levels); ended pushed) (pure tt)

-- `CONNECTION_TIMEOUT`
abbrev pub connection_timeout : ℕ
connection_timeout = 15

-- `while (!(connected = is_connected()))` with the rounds left in which `time_waited` is below the
-- timeout: behind the last of them the loop is left without a connection.
unfoldable pub wait_connected : ℕ → Run Bool
wait_connected zero = is_connected
wait_connected (suc rounds) = do
  connected ← is_connected
  if connected then pure true else wait_connected rounds

abbrev pub wifi_prompt : String
wifi_prompt =
    "An active network connection could not be detected, do you want to connect using wifi? [y/n]"

abbrev pub iwctl_msg : String
iwctl_msg =
    "iwctl is a wireless configuration utility.\nTo connect to a wireless network:\n1. List devices: iwctl device list\n2. Scan for networks: iwctl station <device> scan\n3. List networks: iwctl station <device> get-networks\n4. Connect: iwctl station <device> connect <network>\n\nPress any key to continue...\n"

unfoldable pub show_iwctl : Run (Unit {0})
show_iwctl = do lift (ask (dialog iwctl_msg) (λ os log. os.input_of log iwctl_msg)); pure tt

-- The loop over the prompt, which is left in its first round.
unfoldable pub offer_wifi : Run Bool
offer_wifi = do
  type ← prompt_char wifi_prompt
  elim type [ none ↦ pure tt | some answer ↦ if answer == "n" then pure tt else show_iwctl ]
  is_connected

-- What is tried where there is no connection at first.
unfoldable pub find_connection : Run Bool
find_connection = do
  connected ← wait_connected connection_timeout
  if connected then pure true else offer_wifi

unfoldable pub connect : Run Bool
connect = do connected ← is_connected; if connected then pure true else find_connection

unfoldable pub handle_connection : List String → Run Bool
handle_connection isa_levels =
    if_ndevenv
      (do
        connected ← connect
        (if connected
            then (do install_cachyos_repo isa_levels; interactive "yes | pacman -Sy --noconfirm")
            else pure tt)
        pure connected)
      (do connected ← is_connected; install_cachyos_repo isa_levels; pure connected)
