-- ===== src/Tests/Grub.antt =====
-- The generated configuration of GRUB at a concrete input.
use new_cli_installer.Base.{◌≡◌, true, false, none, some, [], ◌∷◌, ◌++◌}
use new_cli_installer.Base.Decimal.{pos}
use new_cli_installer.Lines.{join}
use new_cli_installer.Boot.Grub.{GrubConfig, gen_grub_config}
use new_cli_installer.Boot.Grub.Settings.{settings_lines}
use new_cli_installer.Boot.Grub.Generated.{gen_grub_config_lem}

abbrev config : GrubConfig
config = record {
  default_entry = "saved";
  grub_timeout = pos 5;
  grub_distributor = "CachyOS";
  cmdline_linux_default = "nowatchdog quiet";
  cmdline_linux = "";
  preload_modules = "part_gpt part_msdos";
  enable_cryptodisk = some true;
  timeout_style = "menu";
  terminal_input = "console";
  terminal_output = none;
  gfxmode = "auto";
  gfxpayload_linux = "keep";
  disable_linux_uuid = none;
  disable_recovery = true;
  color_normal = none;
  color_highlight = none;
  background = none;
  theme = some "/boot/theme.txt";
  init_tune = none;
  savedefault = some true;
  disable_submenu = none;
  disable_os_prober = some false;
}

gen_grub_config_lem_example : gen_grub_config config ≡ join (settings_lines config ++ "" ∷ []) "\n"
gen_grub_config_lem_example = gen_grub_config_lem config
