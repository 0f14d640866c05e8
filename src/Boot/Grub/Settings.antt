-- ===== src/Boot/Grub/Settings.antt =====
-- The configuration of GRUB line by line.
use new_cli_installer.Base.{
  String, false, ◌<>◌, ◌≡◌, refl, List, [], ◌∷◌, if◌then◌else◌, starts_with, contains_text,
}
use new_cli_installer.Base.Decimal.{to_string}
use new_cli_installer.Boot.Grub.{
  GrubConfig, if_given, parse_grub_line, convert_line, apply_settings, text_settings, bool_settings,
  has_boolean, convert_boolean_val,
}

-- What each line of the text with the default settings becomes: the lines of settings get the value of
-- the configuration, or are commented out without one, and all other lines stay.
abbrev pub settings_lines : GrubConfig → List String
settings_lines c =
    "# GRUB boot loader configuration"
    ∷ ""
    ∷ ("GRUB_DEFAULT=" <> c.default_entry)
    ∷ ("GRUB_TIMEOUT=" <> to_string c.grub_timeout)
    ∷ ("GRUB_DISTRIBUTOR=\"" <> (c.grub_distributor <> "\""))
    ∷ ("GRUB_CMDLINE_LINUX_DEFAULT=\"" <> (c.cmdline_linux_default <> "\""))
    ∷ ("GRUB_CMDLINE_LINUX=\"" <> (c.cmdline_linux <> "\""))
    ∷ ""
    ∷ "# Preload both GPT and MBR modules so that they are not missed"
    ∷ ("GRUB_PRELOAD_MODULES=\"" <> (c.preload_modules <> "\""))
    ∷ ""
    ∷ "# Uncomment to enable booting from LUKS encrypted devices"
    ∷ (if_given c.enable_cryptodisk "#GRUB_ENABLE_CRYPTODISK=y"
        (λ v. "GRUB_ENABLE_CRYPTODISK=" <> (if v then "y" else "n")))
    ∷ ""
    ∷ "# Set to 'countdown' or 'hidden' to change timeout behavior,"
    ∷ "# press ESC key to display menu."
    ∷ ("GRUB_TIMEOUT_STYLE=" <> c.timeout_style)
    ∷ ""
    ∷ "# Uncomment to use basic console"
    ∷ ("GRUB_TERMINAL_INPUT=" <> c.terminal_input)
    ∷ ""
    ∷ "# Uncomment to disable graphical terminal"
    ∷ (if_given c.terminal_output "#GRUB_TERMINAL_OUTPUT=console"
        (λ v. "GRUB_TERMINAL_OUTPUT=" <> v))
    ∷ ""
    ∷ "# The resolution used on graphical terminal"
    ∷ "# note that you can use only modes which your graphic card supports via VBE"
    ∷ "# you can see them in real GRUB with the command `videoinfo'"
    ∷ ("GRUB_GFXMODE=" <> c.gfxmode)
    ∷ ""
    ∷ "# Uncomment to allow the kernel use the same resolution used by grub"
    ∷ ("GRUB_GFXPAYLOAD_LINUX=" <> c.gfxpayload_linux)
    ∷ ""
    ∷ "# Uncomment if you want GRUB to pass to the Linux kernel the old parameter"
    ∷ "# format \"root=/dev/xxx\" instead of \"root=/dev/disk/by-uuid/xxx\""
    ∷ (if_given c.disable_linux_uuid "#GRUB_DISABLE_LINUX_UUID=true"
        (λ v. "GRUB_DISABLE_LINUX_UUID=" <> (if v then "true" else "false")))
    ∷ ""
    ∷ "# Uncomment to disable generation of recovery mode menu entries"
    ∷ ("GRUB_DISABLE_RECOVERY=" <> (if c.disable_recovery then "true" else "false"))
    ∷ ""
    ∷ "# Uncomment and set to the desired menu colors.  Used by normal and wallpaper"
    ∷ "# modes only.  Entries specified as foreground/background."
    ∷ (if_given c.color_normal "#GRUB_COLOR_NORMAL=\"light-blue/black\""
        (λ v. "GRUB_COLOR_NORMAL=\"" <> (v <> "\"")))
    ∷ (if_given c.color_highlight "#GRUB_COLOR_HIGHLIGHT=\"light-cyan/blue\""
        (λ v. "GRUB_COLOR_HIGHLIGHT=\"" <> (v <> "\"")))
    ∷ ""
    ∷ "# Uncomment one of them for the gfx desired, a image background or a gfxtheme"
    ∷ (if_given c.background "#GRUB_BACKGROUND=\"/path/to/wallpaper\""
        (λ v. "GRUB_BACKGROUND=\"" <> (v <> "\"")))
    ∷ (if_given c.theme "#GRUB_THEME=\"/path/to/gfxtheme\"" (λ v. "GRUB_THEME=\"" <> (v <> "\"")))
    ∷ ""
    ∷ "# Uncomment to get a beep at GRUB start"
    ∷ (if_given c.init_tune "#GRUB_INIT_TUNE=\"480 440 1\""
        (λ v. "GRUB_INIT_TUNE=\"" <> (v <> "\"")))
    ∷ ""
    ∷ "# Uncomment to make GRUB remember the last selection. This requires"
    ∷ "# setting 'GRUB_DEFAULT=saved' above."
    ∷ (if_given c.savedefault "#GRUB_SAVEDEFAULT=true"
        (λ v. "GRUB_SAVEDEFAULT=" <> (if v then "true" else "false")))
    ∷ ""
    ∷ "# Uncomment to disable submenus in boot menu"
    ∷ (if_given c.disable_submenu "#GRUB_DISABLE_SUBMENU=y"
        (λ v. "GRUB_DISABLE_SUBMENU=" <> (if v then "y" else "n")))
    ∷ ""
    ∷ "# Probing for other operating systems is disabled for security reasons. Read"
    ∷ "# documentation on GRUB_DISABLE_OS_PROBER, if still want to enable this"
    ∷ "# functionality install os-prober and uncomment to detect and include other"
    ∷ "# operating systems."
    ∷ (if_given c.disable_os_prober "#GRUB_DISABLE_OS_PROBER=false"
        (λ v. "GRUB_DISABLE_OS_PROBER=" <> (if v then "true" else "false")))
    ∷ []

pub kept_line :
    (c : GrubConfig) (line : String)
    → starts_with line "#GRUB_" ≡ false
    → starts_with line "GRUB_" ≡ false
    → parse_grub_line c line ≡ line
unfolding parse_grub_line convert_line
kept_line c line h k = rw (h, k)

module _ (c : GrubConfig) where
  pub default_line : parse_grub_line c "GRUB_DEFAULT=0" ≡ ("GRUB_DEFAULT=" <> c.default_entry)
  unfolding parse_grub_line convert_line apply_settings text_settings bool_settings has_boolean
      convert_boolean_val starts_with contains_text ◌<>◌
  default_line = refl

  pub timeout_line :
      parse_grub_line c "GRUB_TIMEOUT=5" ≡ ("GRUB_TIMEOUT=" <> to_string c.grub_timeout)
  unfolding parse_grub_line convert_line apply_settings text_settings bool_settings has_boolean
      convert_boolean_val starts_with contains_text ◌<>◌
  timeout_line = refl

  pub distributor_line :
      parse_grub_line c "GRUB_DISTRIBUTOR=\"Arch\""
      ≡ ("GRUB_DISTRIBUTOR=\"" <> (c.grub_distributor <> "\""))
  unfolding parse_grub_line convert_line apply_settings text_settings bool_settings has_boolean
      convert_boolean_val starts_with contains_text ◌<>◌
  distributor_line = refl

  pub cmdline_linux_default_line :
      parse_grub_line c "GRUB_CMDLINE_LINUX_DEFAULT=\"loglevel=3 quiet\""
      ≡ ("GRUB_CMDLINE_LINUX_DEFAULT=\"" <> (c.cmdline_linux_default <> "\""))
  unfolding parse_grub_line convert_line apply_settings text_settings bool_settings has_boolean
      convert_boolean_val starts_with contains_text ◌<>◌
  cmdline_linux_default_line = refl

  pub cmdline_linux_line :
      parse_grub_line c "GRUB_CMDLINE_LINUX=\"\""
      ≡ ("GRUB_CMDLINE_LINUX=\"" <> (c.cmdline_linux <> "\""))
  unfolding parse_grub_line convert_line apply_settings text_settings bool_settings has_boolean
      convert_boolean_val starts_with contains_text ◌<>◌
  cmdline_linux_line = refl

  pub preload_modules_line :
      parse_grub_line c "GRUB_PRELOAD_MODULES=\"part_gpt part_msdos\""
      ≡ ("GRUB_PRELOAD_MODULES=\"" <> (c.preload_modules <> "\""))
  unfolding parse_grub_line convert_line apply_settings text_settings bool_settings has_boolean
      convert_boolean_val starts_with contains_text ◌<>◌
  preload_modules_line = refl

  pub enable_cryptodisk_line : parse_grub_line c "#GRUB_ENABLE_CRYPTODISK=y" ≡ (
      if_given c.enable_cryptodisk "#GRUB_ENABLE_CRYPTODISK=y"
        (λ v. "GRUB_ENABLE_CRYPTODISK=" <> (if v then "y" else "n")))
  unfolding parse_grub_line convert_line apply_settings text_settings bool_settings has_boolean
      convert_boolean_val starts_with contains_text ◌<>◌
  enable_cryptodisk_line = refl

  pub timeout_style_line :
      parse_grub_line c "GRUB_TIMEOUT_STYLE=menu" ≡ ("GRUB_TIMEOUT_STYLE=" <> c.timeout_style)
  unfolding parse_grub_line convert_line apply_settings text_settings bool_settings has_boolean
      convert_boolean_val starts_with contains_text ◌<>◌
  timeout_style_line = refl

  pub terminal_input_line :
      parse_grub_line c "GRUB_TERMINAL_INPUT=console" ≡ ("GRUB_TERMINAL_INPUT=" <> c.terminal_input)
  unfolding parse_grub_line convert_line apply_settings text_settings bool_settings has_boolean
      convert_boolean_val starts_with contains_text ◌<>◌
  terminal_input_line = refl

  pub terminal_output_line : parse_grub_line c "#GRUB_TERMINAL_OUTPUT=console" ≡ (
      if_given c.terminal_output "#GRUB_TERMINAL_OUTPUT=console"
        (λ v. "GRUB_TERMINAL_OUTPUT=" <> v))
  unfolding parse_grub_line convert_line apply_settings text_settings bool_settings has_boolean
      convert_boolean_val starts_with contains_text ◌<>◌
  terminal_output_line = refl

  pub gfxmode_line : parse_grub_line c "GRUB_GFXMODE=auto" ≡ ("GRUB_GFXMODE=" <> c.gfxmode)
  unfolding parse_grub_line convert_line apply_settings text_settings bool_settings has_boolean
      convert_boolean_val starts_with contains_text ◌<>◌
  gfxmode_line = refl

  pub gfxpayload_linux_line :
      parse_grub_line c "GRUB_GFXPAYLOAD_LINUX=keep"
      ≡ ("GRUB_GFXPAYLOAD_LINUX=" <> c.gfxpayload_linux)
  unfolding parse_grub_line convert_line apply_settings text_settings bool_settings has_boolean
      convert_boolean_val starts_with contains_text ◌<>◌
  gfxpayload_linux_line = refl

  pub disable_linux_uuid_line : parse_grub_line c "#GRUB_DISABLE_LINUX_UUID=true" ≡ (
      if_given c.disable_linux_uuid "#GRUB_DISABLE_LINUX_UUID=true"
        (λ v. "GRUB_DISABLE_LINUX_UUID=" <> (if v then "true" else "false")))
  unfolding parse_grub_line convert_line apply_settings text_settings bool_settings has_boolean
      convert_boolean_val starts_with contains_text ◌<>◌
  disable_linux_uuid_line = refl

  pub disable_recovery_line :
      parse_grub_line c "GRUB_DISABLE_RECOVERY=true"
      ≡ ("GRUB_DISABLE_RECOVERY=" <> (if c.disable_recovery then "true" else "false"))
  unfolding parse_grub_line convert_line apply_settings text_settings bool_settings has_boolean
      convert_boolean_val starts_with contains_text ◌<>◌
  disable_recovery_line = refl

  pub color_normal_line : parse_grub_line c "#GRUB_COLOR_NORMAL=\"light-blue/black\"" ≡ (
      if_given c.color_normal "#GRUB_COLOR_NORMAL=\"light-blue/black\""
        (λ v. "GRUB_COLOR_NORMAL=\"" <> (v <> "\"")))
  unfolding parse_grub_line convert_line apply_settings text_settings bool_settings has_boolean
      convert_boolean_val starts_with contains_text ◌<>◌
  color_normal_line = refl

  pub color_highlight_line : parse_grub_line c "#GRUB_COLOR_HIGHLIGHT=\"light-cyan/blue\"" ≡ (
      if_given c.color_highlight "#GRUB_COLOR_HIGHLIGHT=\"light-cyan/blue\""
        (λ v. "GRUB_COLOR_HIGHLIGHT=\"" <> (v <> "\"")))
  unfolding parse_grub_line convert_line apply_settings text_settings bool_settings has_boolean
      convert_boolean_val starts_with contains_text ◌<>◌
  color_highlight_line = refl

  pub background_line : parse_grub_line c "#GRUB_BACKGROUND=\"/path/to/wallpaper\"" ≡ (
      if_given c.background "#GRUB_BACKGROUND=\"/path/to/wallpaper\""
        (λ v. "GRUB_BACKGROUND=\"" <> (v <> "\"")))
  unfolding parse_grub_line convert_line apply_settings text_settings bool_settings has_boolean
      convert_boolean_val starts_with contains_text ◌<>◌
  background_line = refl

  pub theme_line :
      parse_grub_line c "#GRUB_THEME=\"/path/to/gfxtheme\""
      ≡ (if_given c.theme "#GRUB_THEME=\"/path/to/gfxtheme\"" (λ v. "GRUB_THEME=\"" <> (v <> "\"")))
  unfolding parse_grub_line convert_line apply_settings text_settings bool_settings has_boolean
      convert_boolean_val starts_with contains_text ◌<>◌
  theme_line = refl

  pub init_tune_line : parse_grub_line c "#GRUB_INIT_TUNE=\"480 440 1\"" ≡ (
      if_given c.init_tune "#GRUB_INIT_TUNE=\"480 440 1\""
        (λ v. "GRUB_INIT_TUNE=\"" <> (v <> "\"")))
  unfolding parse_grub_line convert_line apply_settings text_settings bool_settings has_boolean
      convert_boolean_val starts_with contains_text ◌<>◌
  init_tune_line = refl

  pub savedefault_line : parse_grub_line c "#GRUB_SAVEDEFAULT=true" ≡ (
      if_given c.savedefault "#GRUB_SAVEDEFAULT=true"
        (λ v. "GRUB_SAVEDEFAULT=" <> (if v then "true" else "false")))
  unfolding parse_grub_line convert_line apply_settings text_settings bool_settings has_boolean
      convert_boolean_val starts_with contains_text ◌<>◌
  savedefault_line = refl

  pub disable_submenu_line : parse_grub_line c "#GRUB_DISABLE_SUBMENU=y" ≡ (
      if_given c.disable_submenu "#GRUB_DISABLE_SUBMENU=y"
        (λ v. "GRUB_DISABLE_SUBMENU=" <> (if v then "y" else "n")))
  unfolding parse_grub_line convert_line apply_settings text_settings bool_settings has_boolean
      convert_boolean_val starts_with contains_text ◌<>◌
  disable_submenu_line = refl

  pub disable_os_prober_line : parse_grub_line c "#GRUB_DISABLE_OS_PROBER=false" ≡ (
      if_given c.disable_os_prober "#GRUB_DISABLE_OS_PROBER=false"
        (λ v. "GRUB_DISABLE_OS_PROBER=" <> (if v then "true" else "false")))
  unfolding parse_grub_line convert_line apply_settings text_settings bool_settings has_boolean
      convert_boolean_val starts_with contains_text ◌<>◌
  disable_os_prober_line = refl
