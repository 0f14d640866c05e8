-- ===== src/Tests/Host.antt =====
-- The properties of users and packages at concrete inputs.
use new_cli_installer.Base.{
  String, ◌==◌, none, ◌<>◌, ◌≡◌, refl, true, ◌&&◌, some, List, [], ◌∷◌, ◌++◌, contains,
  if◌then◌else◌, contains_text, starts_with,
}
use new_cli_installer.Host.User.{
  UserInfo, create_new_user, create_groups, create_group, set_user_password, setup_sudoers,
}
use new_cli_installer.Host.User.Creation.{HasRights, create_new_user-HasRights}
use new_cli_installer.Packages.Cpu.{
  Registers, bit, has_leaf_7, saves_avx, saves_avx512, get_cpu_features, supports_v2, supports_v3,
  supports_v4, get_isa_levels,
}
use new_cli_installer.Packages.Cpu.Levels.{get_isa_levels_chain, supports_v4_saved}
use new_cli_installer.Packages.Profiles.{
  Toml, DesktopProfile, parsed, ◌>>=◌, parse_base_profiles, parse_desktop_profiles,
  parse_net_profiles, parse_document, desktops_of, parse_toml_array, copy_elements,
}
use new_cli_installer.Packages.Profiles.Agreement.{together, parse_net_profiles_lem}
use new_cli_installer.Packages.Lists.{
  NetProfileInfo, get_pkglist_desktop, fetch_file, fetch_file_from_url,
}
use new_cli_installer.Packages.Lists.Desktop.{
  all_packages, asked_for, desktop_order, needs_xorg, own_packages, get_pkglist_desktop_lem,
}
use new_cli_installer.Sys.{Os}
use new_cli_installer.Packages.PacmanConf.{insert_one_before, insert_later}
use new_cli_installer.Packages.PacmanConf.Insertion.{Inserted, insert_one_before-Inserted}
use new_cli_installer.Sys.Io.{arch_chroot_checked, exec, exec_checked, create_file_for_overwrite}
use new_cli_installer.Tests.{willing}

abbrev user : UserInfo
user = record { username = "liz"; password = "pw"; shell = ""; sudoers_group = "wheel" }

creates : (create_new_user user ("wheel" ∷ []) "/mnt" willing []).0 ≡ true
unfolding create_new_user create_groups create_group set_user_password setup_sudoers
    arch_chroot_checked exec_checked exec create_file_for_overwrite
creates = refl

create_new_user-HasRights_example :
    (contains ("wheel" ∷ []) "wheel" ≡ true)
    × HasRights "wheel" "/mnt" (create_new_user user ("wheel" ∷ []) "/mnt" willing []).1
create_new_user-HasRights_example =
    create_new_user-HasRights user ("wheel" ∷ []) "/mnt" willing [] refl creates

abbrev zen : Registers
zen = record { eax_0 = 16; ecx_1 = 4294967295; ebx_7 = 4294967295; xcr0 = 231; machine = "x86_64" }

get_isa_levels_chain_example :
    get_isa_levels zen
    ≡ "x86_64"
      ∷ (if supports_v4 (get_cpu_features zen)
          then "x86_64_v2" ∷ "x86_64_v3" ∷ "x86_64_v4" ∷ []
          else if supports_v3 (get_cpu_features zen)
          then "x86_64_v2" ∷ "x86_64_v3" ∷ []
          else if supports_v2 (get_cpu_features zen)
          then "x86_64_v2" ∷ []
          else [])
get_isa_levels_chain_example = get_isa_levels_chain zen

supports_v4_saved_example :
    (supports_v4 (get_cpu_features zen) ≡ true
      → (saves_avx512 zen.xcr0 && has_leaf_7 zen.eax_0) ≡ true)
    × (supports_v3 (get_cpu_features zen) ≡ true → (bit zen.ecx_1 27 && saves_avx zen.xcr0) ≡ true)
supports_v4_saved_example = supports_v4_saved zen

inserts :
    insert_one_before "[core]" "\n[cachyos]\n" "[options]\n\n[core]\n"
    ≡ some "[options]\n\n[cachyos]\n\n[core]\n"
unfolding insert_one_before insert_later starts_with ◌<>◌
inserts = refl

insert_one_before-Inserted_example :
    Inserted "[core]" "\n[cachyos]\n" "[options]\n\n[core]\n" "[options]\n\n[cachyos]\n\n[core]\n"
insert_one_before-Inserted_example =
    insert_one_before-Inserted "[core]" "\n[cachyos]\n" "[options]\n\n[core]\n" inserts

-- A reader that knows one document.
abbrev reader : Toml
reader = record {
  Table = Unit {0};
  parse = λ text. if text == "ok" then some tt else none;
  as_array = λ table path. some (some "linux" ∷ []);
  as_table = λ table key. some (("kde", some tt) ∷ []);
}

parse_net_profiles_lem_example : parse_net_profiles reader "ok" ≡ (do
  base ← parse_base_profiles reader "ok"
  desktops ← parse_desktop_profiles reader "ok"
  parsed (together base desktops))
parse_net_profiles_lem_example = parse_net_profiles_lem reader "ok"

-- A reader whose table of desktops has the profiles of Xorg and of KDE.
abbrev desktop_reader : Toml
desktop_reader = record {
  Table = String;
  parse = λ text. some "";
  as_array = λ table path. some (some table ∷ []);
  as_table = λ table key. some (("xorg", some "xorg") ∷ ("kde", some "kde") ∷ []);
}

abbrev served : Os
served = record willing { body_of = λ log url. some "profiles" }

abbrev info : NetProfileInfo
info = record { net_profs_url = "https://a"; net_profs_fallback_url = "" }

abbrev desktop_profiles : List DesktopProfile
desktop_profiles =
    record { profile_name = "xorg"; packages = "xorg" ∷ [] }
    ∷ record { profile_name = "kde"; packages = "kde" ∷ [] }
    ∷ []

get_pkglist_desktop_lem_example :
    (get_pkglist_desktop desktop_reader "kde" info served []).0
    ≡ parsed (
        all_packages desktop_profiles (asked_for "kde" desktop_order)
        ++ (if needs_xorg "kde" then own_packages desktop_profiles "xorg" else []))
unfolding contains_text fetch_file_from_url fetch_file parse_desktop_profiles parse_document
    desktops_of parse_toml_array copy_elements
get_pkglist_desktop_lem_example =
    get_pkglist_desktop_lem desktop_reader "kde" "profiles" info desktop_profiles served [] refl
      refl refl (refl, tt) (λ h. refl)
