-- ===== src/Installer/Drivers.antt =====
-- src/drivers.cpp: installing the graphics drivers.
use new_cli_installer.Base.{
  String, ◌<>◌, true, false, none, some, [], ◌∷◌, if◌then◌else◌, eqb, is_empty,
}
use new_cli_installer.Host.Locale.{
  get_available_profile_names, install_available_profiles, no_names,
}
use new_cli_installer.Installer.Luks.{Menus, get_elem?}
use new_cli_installer.Installer.Packages.{touch}
use new_cli_installer.Installer.State.{Run, pure, ◌>>=◌, ◌>>◌, lift, if_ndevenv, get_text}
use new_cli_installer.Installer.System.{follow_process_log_widget}

unfoldable pub auto_install_drivers : Run (Unit {0})
auto_install_drivers = do
  mountpoint ← get_text "MOUNTPOINT"
  if_ndevenv
      (do
        installed ← lift (install_available_profiles mountpoint)
        if installed then touch (mountpoint <> "/.video_installed") else pure tt)
      (pure tt)

-- Installs the driver of that name. The file is made whether or not that succeeds.
unfoldable pub install_driver : String → Run (Unit {0})
install_driver driver = if is_empty driver then pure tt else do
  mountpoint ← get_text "MOUNTPOINT"
  cachepath ← get_text "cachepath"
  if_ndevenv
      (do
        follow_process_log_widget (
            "chwd --pmcachedir '" <> cachepath <> "' --pmroot " <> mountpoint <> " -f -i " <> driver
            <> " 2>>/tmp/cachyos-install.log 2>&1")
        touch (mountpoint <> "/.video_installed"))
      (pure tt)

module _ (menus : Menus) where
  unfoldable pub setup_graphics_card : Run (Unit {0})
  setup_graphics_card = do
    profile_names ← lift get_available_profile_names
    if no_names profile_names then pure tt else do
      selected ← menus.choose profile_names "\nUse [Spacebar] to de/select options listed.\n"
      driver ← elim selected [ none ↦ pure "" | some i ↦ get_elem? profile_names i ]
      install_driver driver

  unfoldable pub install_graphics_menu : Run (Unit {0})
  install_graphics_menu = do
    get_text "MOUNTPOINT"
    menus.stay ("Auto-install drivers" ∷ "Select Display Driver" ∷ "Back" ∷ []) "" λ selected.
        if eqb selected 0
        then auto_install_drivers >> pure false
        else if eqb selected 1
        then setup_graphics_card >> pure false
        else pure true

  unfoldable pub install_drivers_menu : Run (Unit {0})
  install_drivers_menu =
      menus.stay ("Install Display Driver" ∷ "Back" ∷ []) ""
        λ selected. if eqb selected 0 then install_graphics_menu >> pure false else pure true
