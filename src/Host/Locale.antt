-- ===== src/Host/Locale.antt =====
-- gucc/src/locale.cpp, hwclock.cpp, systemd_services.cpp and chwd.cpp: locale, clock, services and
-- the hardware profiles.
use new_cli_installer.Base.{
  String, ◌<>◌, Bool, true, false, List, [], ◌∷◌, if◌then◌else◌, concat, map, contains, keep_if,
}
use new_cli_installer.Lines.{make_multiline}
use new_cli_installer.Sys.{M, pure, and_then, ◌>>=◌, ◌>>◌}
use new_cli_installer.Sys.Io.{exec, arch_chroot_checked, create_file_for_overwrite}

abbrev pub locale_variables : List String
locale_variables =
    "LANG" ∷ "LC_NUMERIC" ∷ "LC_TIME" ∷ "LC_MONETARY" ∷ "LC_PAPER" ∷ "LC_NAME" ∷ "LC_ADDRESS"
    ∷ "LC_TELEPHONE" ∷ "LC_MEASUREMENT" ∷ "LC_IDENTIFICATION" ∷ "LC_MESSAGES" ∷ []

-- `fmt::format(LOCALE_CONFIG_PART, locale)`
unfoldable pub locale_config_text : String → String
locale_config_text locale =
    concat (map (λ variable. variable <> "=\"" <> locale <> "\"\n") locale_variables)

unfoldable pub prepare_locale_set : String → String → M Bool
prepare_locale_set locale mountpoint =
    and_then
      (create_file_for_overwrite (mountpoint <> "/etc/locale.conf") (locale_config_text locale))
      do
        exec
            ("sed -i \"s/#" <> locale <> "/" <> locale <> "/\" " <> mountpoint <> "/etc/locale.gen")
            false
        pure true

unfoldable pub set_locale : String → String → M Bool
set_locale locale mountpoint =
    and_then (prepare_locale_set locale mountpoint)
      (and_then (arch_chroot_checked "locale-gen" mountpoint) (pure true))

unfoldable pub get_possible_locales : M (List String)
get_possible_locales = do
  locales ←
      exec "cat /etc/locale.gen | grep -v '#  ' | sed 's/#//g' | awk '/UTF-8/ {print $1}'" false
  pure (make_multiline locales false "\n")

unfoldable pub set_hwclock_utc : String → M Bool
set_hwclock_utc root_mountpoint = do
  set ← arch_chroot_checked "hwclock --systohc --utc" root_mountpoint
  if set
      then pure true
      else arch_chroot_checked "hwclock --systohc --utc --directisa" root_mountpoint

unfoldable pub set_hwclock_localtime : String → M Bool
set_hwclock_localtime root_mountpoint =
    arch_chroot_checked "hwclock --systohc --localtime" root_mountpoint

unfoldable pub enable_systemd_service : String → String → M Bool
enable_systemd_service service_name root_mountpoint =
    arch_chroot_checked ("systemctl enable " <> service_name) root_mountpoint

unfoldable pub get_all_profile_names : M (List String)
get_all_profile_names = do
  profiles ← exec "chwd --list-all | grep -v 'Name' | grep '│' | awk '{print $2}'" false
  pure (make_multiline profiles false "\n")

abbrev pub no_names : List String → Bool
no_names [] = true
no_names (name ∷ names) = false

unfoldable pub get_available_profile_names : M (List String)
get_available_profile_names = do
  all_profile_names ← get_all_profile_names
  if no_names all_profile_names then pure [] else do
    listed ← exec "chwd --list -d | grep Name | awk '{print $4}'" false
    pure (keep_if (contains (make_multiline listed false "\n")) all_profile_names)

unfoldable pub install_available_profiles : String → M Bool
install_available_profiles root_mountpoint = arch_chroot_checked "chwd -a -f" root_mountpoint
