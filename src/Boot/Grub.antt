-- ===== src/Boot/Grub.antt =====
-- gucc/src/bootloader.cpp: the configuration of GRUB, from a text with the default settings.
pub mod Defaults
pub mod Settings
pub mod Generated
use new_cli_installer.Base.{
  String, Char, ◌==◌, ◌<>◌, Bool, true, false, ◌||◌, Option, none, some, List, [], ◌∷◌, ◌++◌, map,
  if◌then◌else◌, starts_with, contains_text,
}
use new_cli_installer.Base.Decimal.{ℤ, to_string}
use new_cli_installer.Lines.{split, join, combine_lines}
use Defaults.{grub_default_lines, limine_default_lines}

pub record GrubConfig : Type 0 where
  pub default_entry : String
  pub grub_timeout : ℤ
  pub grub_distributor : String
  pub cmdline_linux_default : String
  pub cmdline_linux : String
  pub preload_modules : String
  pub enable_cryptodisk : Option Bool
  pub timeout_style : String
  pub terminal_input : String
  pub terminal_output : Option String
  pub gfxmode : String
  pub gfxpayload_linux : String
  pub disable_linux_uuid : Option Bool
  pub disable_recovery : Bool
  pub color_normal : Option String
  pub color_highlight : Option String
  pub background : Option String
  pub theme : Option String
  pub init_tune : Option String
  pub savedefault : Option Bool
  pub disable_submenu : Option Bool
  pub disable_os_prober : Option Bool

-- `GRUB_DEFAULT_CONFIG`
unfoldable pub grub_default_config : String
grub_default_config = combine_lines grub_default_lines false "\n"

-- `LIMINE_DEFAULT_CONFIG`
unfoldable pub limine_default_config : String
limine_default_config = combine_lines limine_default_lines false "\n"

unfoldable pub convert_boolean_val : String → Bool → String
convert_boolean_val needle value =
    if needle == "GRUB_ENABLE_CRYPTODISK=" || needle == "GRUB_DISABLE_SUBMENU="
    then (if value then "y" else "n")
    else if value
    then "true"
    else "false"

-- The line for a value, or the commented line where there is none.
abbrev pub if_given : {A : Type 0} → Option A → String → (A → String) → String
if_given none commented line = commented
if_given (some value) commented line = line value

-- A setting: the text that its line starts with, and the line that takes its place.
abbrev pub Setting : Type 0
Setting = String × String

-- `CONV_REQ_F`, `CONV_REQ_F_S`, `CONV_OPT_F`, `CONV_OPT_F_S`, `CONV_REQ_B` and `CONV_OPT_B`.
abbrev pub conv_req : String → String → Setting
conv_req needle value = (needle, needle <> value)

abbrev pub conv_req_quoted : String → String → Setting
conv_req_quoted needle value = (needle, needle <> "\"" <> value <> "\"")

abbrev pub conv_opt : String → Option String → String → Setting
conv_opt needle value default_val =
    (needle, if_given value ("#" <> needle <> default_val) (λ v. needle <> v))

abbrev pub conv_opt_quoted : String → Option String → String → Setting
conv_opt_quoted needle value default_val = (
  needle,
  if_given value ("#" <> needle <> "\"" <> default_val <> "\"") (λ v. needle <> "\"" <> v <> "\""),
)

abbrev pub conv_req_bool : String → Bool → Setting
conv_req_bool needle value = (needle, needle <> convert_boolean_val needle value)

abbrev pub conv_opt_bool : String → Option Bool → String → Setting
conv_opt_bool needle value default_val = (
  needle,
  if_given value ("#" <> needle <> default_val) (λ v. needle <> convert_boolean_val needle v),
)

unfoldable pub text_settings : GrubConfig → List Setting
text_settings grub_config =
    conv_req "GRUB_DEFAULT=" grub_config.default_entry
    ∷ conv_req "GRUB_TIMEOUT=" (to_string grub_config.grub_timeout)
    ∷ conv_req_quoted "GRUB_DISTRIBUTOR=" grub_config.grub_distributor
    ∷ conv_req_quoted "GRUB_CMDLINE_LINUX_DEFAULT=" grub_config.cmdline_linux_default
    ∷ conv_req_quoted "GRUB_CMDLINE_LINUX=" grub_config.cmdline_linux
    ∷ conv_req_quoted "GRUB_PRELOAD_MODULES=" grub_config.preload_modules
    ∷ conv_req "GRUB_TIMEOUT_STYLE=" grub_config.timeout_style
    ∷ conv_req "GRUB_TERMINAL_INPUT=" grub_config.terminal_input
    ∷ conv_opt "GRUB_TERMINAL_OUTPUT=" grub_config.terminal_output "console"
    ∷ conv_req "GRUB_GFXMODE=" grub_config.gfxmode
    ∷ conv_req "GRUB_GFXPAYLOAD_LINUX=" grub_config.gfxpayload_linux
    ∷ conv_opt_quoted "GRUB_COLOR_NORMAL=" grub_config.color_normal "light-blue/black"
    ∷ conv_opt_quoted "GRUB_COLOR_HIGHLIGHT=" grub_config.color_highlight "light-cyan/blue"
    ∷ conv_opt_quoted "GRUB_BACKGROUND=" grub_config.background "/path/to/wallpaper"
    ∷ conv_opt_quoted "GRUB_THEME=" grub_config.theme "/path/to/gfxtheme"
    ∷ conv_opt_quoted "GRUB_INIT_TUNE=" grub_config.init_tune "480 440 1"
    ∷ []

unfoldable pub bool_settings : GrubConfig → List Setting
bool_settings grub_config =
    conv_opt_bool "GRUB_ENABLE_CRYPTODISK=" grub_config.enable_cryptodisk "y"
    ∷ conv_opt_bool "GRUB_DISABLE_LINUX_UUID=" grub_config.disable_linux_uuid "true"
    ∷ conv_req_bool "GRUB_DISABLE_RECOVERY=" grub_config.disable_recovery
    ∷ conv_opt_bool "GRUB_SAVEDEFAULT=" grub_config.savedefault "true"
    ∷ conv_opt_bool "GRUB_DISABLE_SUBMENU=" grub_config.disable_submenu "y"
    ∷ conv_opt_bool "GRUB_DISABLE_OS_PROBER=" grub_config.disable_os_prober "false"
    ∷ []

-- The line of the first setting that fits, else the line itself.
unfoldable pub apply_settings : List Setting → String → Option String
apply_settings [] line = none
apply_settings ((needle, replaced) ∷ settings) line =
    let rest = apply_settings settings line in
    if starts_with line needle then some replaced else rest

abbrev pub or_else_line : Option String → String → String
or_else_line none line = line
or_else_line (some replaced) line = replaced

unfoldable pub has_boolean : String → Bool
has_boolean line =
    contains_text line "=y" || contains_text line "=true" || contains_text line "=false"

-- What is left to do for a line once it is uncommented.
unfoldable pub convert_line : GrubConfig → String → String
convert_line grub_config line =
    if starts_with line "GRUB_"
    then elim (apply_settings (text_settings grub_config) line) [
      | some replaced ↦ replaced
      | none ↦
          if has_boolean line
          then or_else_line (apply_settings (bool_settings grub_config) line) line
          else line
    ]
    else line

abbrev pub remove_first : String → String
remove_first String.[] = ""
remove_first (String.◌∷◌ c s) = s

unfoldable pub parse_grub_line : GrubConfig → String → String
parse_grub_line grub_config line =
    convert_line grub_config (if starts_with line "#GRUB_" then remove_first line else line)

unfoldable pub gen_grub_config : GrubConfig → String
gen_grub_config grub_config =
    join (map (parse_grub_line grub_config) (split grub_default_config "\n")) "\n"
