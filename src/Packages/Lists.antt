-- ===== src/Packages/Lists.antt =====
-- gucc/src/package_list.cpp and gucc/src/fetch_file.cpp: the packages of a system and of a desktop.
pub mod Desktop
use new_cli_installer.Base.{
  String, ◌==◌, ◌<>◌, Bool, true, false, not, ◌&&◌, ◌||◌, Option, none, some, List, [], ◌∷◌, ◌++◌,
  if◌then◌else◌, is_empty, starts_with, contains_text, find_if,
}
use new_cli_installer.Lines.{make_multiline}
use new_cli_installer.Sys.{M, ask, pure, ◌>>=◌, download}
use new_cli_installer.Packages.Profiles.{
  Toml, Parsed, parsed, nullopt, fault, BaseProfiles, DesktopProfile, parse_base_profiles,
  parse_desktop_profiles,
}

pub record NetProfileInfo : Type 0 where
  pub net_profs_url : String
  pub net_profs_fallback_url : String

-- The body of a response with an acceptable status.
unfoldable pub fetch_file : String → M (Option String)
fetch_file url = ask (download url) (λ os log. os.body_of log url)

unfoldable pub fetch_file_from_url : String → String → M (Option String)
fetch_file_from_url url fallback_url = do
  fetch_content ← fetch_file url
  elim fetch_content [ some content ↦ pure (some content) | none ↦ fetch_file fallback_url ]

-- What the loop over the kernel packages appends for one of them.
unfoldable pub kernel_extras : Bool → String → List String
kernel_extras is_root_on_zfs pkg =
    (pkg <> "-headers")
    ∷ (if is_root_on_zfs && starts_with pkg "linux-cachyos" then (pkg <> "-zfs") ∷ [] else [])

unfoldable pub append_extras : Bool → List String → List String → List String
append_extras is_root_on_zfs [] pkg_list = pkg_list
append_extras is_root_on_zfs (pkg ∷ pkgs) pkg_list =
    append_extras is_root_on_zfs pkgs (pkg_list ++ kernel_extras is_root_on_zfs pkg)

abbrev pub list_if : Bool → List String → List String
list_if true pkgs = pkgs
list_if false pkgs = []

-- The packages before the profiles are fetched.
unfoldable pub kernel_packages : String → String → List String
kernel_packages packages root_filesystem =
    let pkgs = make_multiline packages false " " in
    let is_root_on_zfs = root_filesystem == "zfs" in
    (append_extras is_root_on_zfs pkgs pkgs ++ list_if is_root_on_zfs ("zfs-utils" ∷ []))
    ++ list_if (root_filesystem == "bcachefs") ("bcachefs-tools" ∷ [])

-- The packages with those of the base profiles.
unfoldable pub with_base : List String → String → Bool → BaseProfiles → List String
with_base pkg_list root_filesystem server_mode base_net_profs =
    let snapper = list_if (root_filesystem == "btrfs") ("snapper" ∷ "btrfs-assistant-git" ∷ []) in
    (if server_mode
      then pkg_list
      else (pkg_list ++ snapper) ++ base_net_profs.base_desktop_packages)
    ++ base_net_profs.base_packages

abbrev pub no_url : NetProfileInfo → Bool
no_url info = is_empty info.net_profs_url && is_empty info.net_profs_fallback_url

module _ (toml : Toml) where
  unfoldable pub base_list : List String → String → Bool → Option String → Parsed (List String)
  base_list pkg_list root_filesystem server_mode none = nullopt
  base_list pkg_list root_filesystem server_mode (some net_profs_content) =
      elim (parse_base_profiles toml net_profs_content) [
        | nullopt ↦ nullopt
        | fault ↦ fault
        | parsed base ↦ parsed (with_base pkg_list root_filesystem server_mode base)
      ]

  unfoldable pub get_pkglist_base :
      String → String → Bool → NetProfileInfo → M (Parsed (List String))
  get_pkglist_base packages root_filesystem server_mode info =
      if no_url info then pure nullopt else do
        content ← fetch_file_from_url info.net_profs_url info.net_profs_fallback_url
        pure (
            base_list (kernel_packages packages root_filesystem) root_filesystem server_mode
              content)

-- The desktops in the order in which the code looks for them, and whether each needs Xorg.
abbrev pub desktops : List (String × Bool)
desktops =
    ("i3wm", true)
    ∷ ("sway", false)
    ∷ ("kde", true)
    ∷ ("xfce", true)
    ∷ ("gnome", true)
    ∷ ("wayfire", false)
    ∷ ("openbox", true)
    ∷ ("lxqt", true)
    ∷ ("bspwm", true)
    ∷ ("cinnamon", true)
    ∷ ("ukui", true)
    ∷ ("qtile", true)
    ∷ ("mate", true)
    ∷ ("lxde", true)
    ∷ ("hyprland", false)
    ∷ ("budgie", true)
    ∷ []

-- The packages of the profile; a profile that is missing is read beyond the end.
unfoldable pub profile_packages : String → List DesktopProfile → Parsed (List String)
profile_packages name profiles = elim (find_if (λ p. p.profile_name == name) profiles) [
  | none ↦ fault
  | some profile ↦ parsed profile.packages
]

-- The packages so far, and `needed_xorg`.
unfoldable pub add_desktops :
    List (String × Bool) → String → List DesktopProfile → List String → Bool → Parsed (List String)
add_desktops [] desktop_env profiles pkg_list needed_xorg =
    if not needed_xorg then parsed pkg_list else elim (profile_packages "xorg" profiles) [
      | parsed packages ↦ parsed (pkg_list ++ packages)
      | nullopt ↦ nullopt
      | fault ↦ fault
    ]
add_desktops ((name, xorg) ∷ rest) desktop_env profiles pkg_list needed_xorg =
    let skip = add_desktops rest desktop_env profiles pkg_list needed_xorg in
    let take : Parsed (List String) = elim (profile_packages name profiles) [
      | parsed packages ↦
          add_desktops rest desktop_env profiles (pkg_list ++ packages) (xorg || needed_xorg)
      | nullopt ↦ nullopt
      | fault ↦ fault
    ] in
    if contains_text desktop_env name then take else skip

module _ (toml : Toml) where
  unfoldable pub desktop_list : String → Option String → Parsed (List String)
  desktop_list desktop_env none = nullopt
  desktop_list desktop_env (some net_profs_content) =
      elim (parse_desktop_profiles toml net_profs_content) [
        | nullopt ↦ nullopt
        | fault ↦ fault
        | parsed profiles ↦ add_desktops desktops desktop_env profiles [] false
      ]

  unfoldable pub get_pkglist_desktop : String → NetProfileInfo → M (Parsed (List String))
  get_pkglist_desktop desktop_env info = if no_url info then pure nullopt else do
    content ← fetch_file_from_url info.net_profs_url info.net_profs_fallback_url
    pure (desktop_list desktop_env content)
