-- ===== src/Boot/Grub/Generated.antt =====
-- The generated configuration of GRUB.
use new_cli_installer.Base.{
  String, true, ◌&&◌, ◌++◌, ap, ◌∙◌, arith, ◌<>◌, ◌≡◌, refl, Bool, List, [], ◌∷◌, map, starts_with,
}
use new_cli_installer.Lines.{split, join, pieces, lines_text, combine_lines}
use new_cli_installer.Lines.Split.{lacks, lacks_sound, pieces-Lacks_append, split-pieces}
use new_cli_installer.Boot.Grub.{GrubConfig, gen_grub_config, grub_default_config, parse_grub_line}
use new_cli_installer.Boot.Grub.Defaults.{grub_default_lines}
use new_cli_installer.Boot.Grub.Settings.{
  settings_lines, kept_line, default_line, timeout_line, distributor_line,
  cmdline_linux_default_line, cmdline_linux_line, preload_modules_line, enable_cryptodisk_line,
  timeout_style_line, terminal_input_line, terminal_output_line, gfxmode_line,
  gfxpayload_linux_line, disable_linux_uuid_line, disable_recovery_line, color_normal_line,
  color_highlight_line, background_line, theme_line, init_tune_line, savedefault_line,
  disable_submenu_line, disable_os_prober_line,
}

grub_lines :
    (c : GrubConfig)
    → map (parse_grub_line c) (grub_default_lines ++ "" ∷ []) ≡ settings_lines c ++ "" ∷ []
unfolding starts_with
grub_lines c i =
    kept_line c "# GRUB boot loader configuration" refl refl i
    ∷ kept_line c "" refl refl i
    ∷ default_line c i
    ∷ timeout_line c i
    ∷ distributor_line c i
    ∷ cmdline_linux_default_line c i
    ∷ cmdline_linux_line c i
    ∷ kept_line c "" refl refl i
    ∷ kept_line c "# Preload both GPT and MBR modules so that they are not missed" refl refl i
    ∷ preload_modules_line c i
    ∷ kept_line c "" refl refl i
    ∷ kept_line c "# Uncomment to enable booting from LUKS encrypted devices" refl refl i
    ∷ enable_cryptodisk_line c i
    ∷ kept_line c "" refl refl i
    ∷ kept_line c "# Set to 'countdown' or 'hidden' to change timeout behavior," refl refl i
    ∷ kept_line c "# press ESC key to display menu." refl refl i
    ∷ timeout_style_line c i
    ∷ kept_line c "" refl refl i
    ∷ kept_line c "# Uncomment to use basic console" refl refl i
    ∷ terminal_input_line c i
    ∷ kept_line c "" refl refl i
    ∷ kept_line c "# Uncomment to disable graphical terminal" refl refl i
    ∷ terminal_output_line c i
    ∷ kept_line c "" refl refl i
    ∷ kept_line c "# The resolution used on graphical terminal" refl refl i
    ∷ kept_line c "# note that you can use only modes which your graphic card supports via VBE" refl
        refl i
    ∷ kept_line c "# you can see them in real GRUB with the command `videoinfo'" refl refl i
    ∷ gfxmode_line c i
    ∷ kept_line c "" refl refl i
    ∷ kept_line c "# Uncomment to allow the kernel use the same resolution used by grub" refl refl i
    ∷ gfxpayload_linux_line c i
    ∷ kept_line c "" refl refl i
    ∷ kept_line c "# Uncomment if you want GRUB to pass to the Linux kernel the old parameter" refl
        refl i
    ∷ kept_line c "# format \"root=/dev/xxx\" instead of \"root=/dev/disk/by-uuid/xxx\"" refl refl i
    ∷ disable_linux_uuid_line c i
    ∷ kept_line c "" refl refl i
    ∷ kept_line c "# Uncomment to disable generation of recovery mode menu entries" refl refl i
    ∷ disable_recovery_line c i
    ∷ kept_line c "" refl refl i
    ∷ kept_line c "# Uncomment and set to the desired menu colors.  Used by normal and wallpaper"
        refl refl i
    ∷ kept_line c "# modes only.  Entries specified as foreground/background." refl refl i
    ∷ color_normal_line c i
    ∷ color_highlight_line c i
    ∷ kept_line c "" refl refl i
    ∷ kept_line c "# Uncomment one of them for the gfx desired, a image background or a gfxtheme"
        refl refl i
    ∷ background_line c i
    ∷ theme_line c i
    ∷ kept_line c "" refl refl i
    ∷ kept_line c "# Uncomment to get a beep at GRUB start" refl refl i
    ∷ init_tune_line c i
    ∷ kept_line c "" refl refl i
    ∷ kept_line c "# Uncomment to make GRUB remember the last selection. This requires" refl refl i
    ∷ kept_line c "# setting 'GRUB_DEFAULT=saved' above." refl refl i
    ∷ savedefault_line c i
    ∷ kept_line c "" refl refl i
    ∷ kept_line c "# Uncomment to disable submenus in boot menu" refl refl i
    ∷ disable_submenu_line c i
    ∷ kept_line c "" refl refl i
    ∷ kept_line c "# Probing for other operating systems is disabled for security reasons. Read"
        refl refl i
    ∷ kept_line c "# documentation on GRUB_DISABLE_OS_PROBER, if still want to enable this" refl
        refl i
    ∷ kept_line c "# functionality install os-prober and uncomment to detect and include other" refl
        refl i
    ∷ kept_line c "# operating systems." refl refl i
    ∷ disable_os_prober_line c i
    ∷ kept_line c "" refl refl i
    ∷ []

all_lack : List String → Bool
all_lack [] = true
all_lack (l ∷ ls) = lacks "\n" l && all_lack ls

pieces-lines_text :
    (lines : List String)
    → all_lack lines ≡ true
    → pieces "\n" (lines_text lines "\n") ≡ lines ++ "" ∷ []
unfolding lines_text pieces all_lack ◌<>◌
pieces-lines_text [] h = refl
pieces-lines_text (l ∷ ls) h =
    pieces-Lacks_append "\n" l (lines_text ls "\n") (lacks_sound "\n" l (ground arith))
    ∙ ap (λ x. l ∷ x) (pieces-lines_text ls (ground arith))

default_split : split grub_default_config "\n" ≡ grub_default_lines ++ "" ∷ []
unfolding grub_default_config combine_lines lines_text all_lack ◌<>◌
default_split =
    split-pieces "\n" (lines_text grub_default_lines "\n") refl
    ∙ pieces-lines_text grub_default_lines refl

-- The configuration of GRUB is the text with the default settings in which each line of a setting has
-- the value of the configuration, or is commented out where there is none, and all other lines stay.
pub gen_grub_config_lem :
    (c : GrubConfig) → gen_grub_config c ≡ join (settings_lines c ++ "" ∷ []) "\n"
unfolding gen_grub_config
gen_grub_config_lem c =
    ap (λ ls. join (map (parse_grub_line c) ls) "\n") default_split
    ∙ ap (λ ls. join ls "\n") (grub_lines c)
