-- ===== src/Packages/Repos.antt =====
-- gucc/src/repos.cpp: adding the repositories of CachyOS to pacman.conf.
use new_cli_installer.Base.{
  String, ◌<>◌, Bool, true, false, not, List, [], ◌∷◌, if◌then◌else◌, contains, concat,
}
use new_cli_installer.Packages.PacmanConf.{
  Pushed, returned, terminated, push_repos_front, get_repo_list,
}
use new_cli_installer.Sys.{M, Event, ask, pure, ◌>>=◌, copy_file, rename}
use new_cli_installer.Sys.Io.{exec_checked}

unfoldable pub cachyos_v1_repo_str : String
cachyos_v1_repo_str = "\n[cachyos]\nInclude = /etc/pacman.d/cachyos-mirrorlist\n"

abbrev pub v3_mirrors : String
v3_mirrors = "Include = /etc/pacman.d/cachyos-v3-mirrorlist\n"

abbrev pub v4_mirrors : String
v4_mirrors = "Include = /etc/pacman.d/cachyos-v4-mirrorlist\n"

unfoldable pub cachyos_v3_repo_str : String
cachyos_v3_repo_str = concat (
    "\n[cachyos-v3]\n" ∷ v3_mirrors ∷ "[cachyos-core-v3]\n" ∷ v3_mirrors ∷ "[cachyos-extra-v3]\n"
    ∷ v3_mirrors ∷ [])

unfoldable pub cachyos_v4_repo_str : String
cachyos_v4_repo_str = concat (
    "\n[cachyos-v4]\n" ∷ v4_mirrors ∷ "[cachyos-core-v4]\n" ∷ v4_mirrors ∷ "[cachyos-extra-v4]\n"
    ∷ v4_mirrors ∷ [])

unfoldable pub cachyos_znver4_repo_str : String
cachyos_znver4_repo_str = concat (
    "\n[cachyos-znver4]\n" ∷ v4_mirrors ∷ "[cachyos-core-znver4]\n" ∷ v4_mirrors
    ∷ "[cachyos-extra-znver4]\n" ∷ v4_mirrors ∷ [])

abbrev pub pacman_conf : String
pacman_conf = "/etc/pacman.conf"

abbrev pub pacman_conf_cachyos : String
pacman_conf_cachyos = "./pacman.conf"

abbrev pub pacman_conf_path_backup : String
pacman_conf_path_backup = "/etc/pacman.conf.bak"

-- A file operation, and whether it succeeds.
abbrev pub attempt : Event → M Bool
attempt request = ask request (λ os log. os.succeeds log request)

-- `if (!step) return false; rest` where the program may end.
abbrev pub then_pushed : M Bool → M Pushed → M Pushed
then_pushed step rest = do done ← step; if done then rest else pure (returned false)

-- Replaces the system's configuration by the working copy.
unfoldable pub replace_conf : M Pushed
replace_conf =
    then_pushed (attempt (rename pacman_conf pacman_conf_path_backup))
      (then_pushed (attempt (rename pacman_conf_cachyos pacman_conf)) (pure (returned true)))

-- The result of adding the repositories to the working copy is dropped.
unfoldable pub push_and_replace : String → M Pushed
push_and_replace repos_data = do
  pushed ← push_repos_front pacman_conf_cachyos repos_data
  elim pushed [ terminated ↦ pure terminated | returned _ ↦ replace_conf ]

unfoldable pub add_arch_specific_repo : String → String → List String → String → M Pushed
add_arch_specific_repo isa_level repo_name isa_levels repos_data =
    if not (contains isa_levels isa_level) then pure (returned true) else do
      repo_list ← get_repo_list pacman_conf
      if contains repo_list ("[" <> repo_name <> "]")
          then pure (returned true)
          else then_pushed (attempt (copy_file pacman_conf pacman_conf_cachyos))
              (push_and_replace repos_data)

unfoldable pub check_supported_znver45 : M Bool
check_supported_znver45 =
    exec_checked
      "gcc -march=native -Q --help=target 2>&1 | head -n 35 | grep -E '(znver4|znver5)' > /dev/null"

-- The repository for the CPU, the best that it supports.
unfoldable pub add_best_repo : List String → M Pushed
add_best_repo isa_levels = do
  znver45 ← check_supported_znver45
  if znver45
      then add_arch_specific_repo "x86_64_v4" "cachyos-znver4" isa_levels cachyos_znver4_repo_str
      else if contains isa_levels "x86_64_v4"
      then add_arch_specific_repo "x86_64_v4" "cachyos-v4" isa_levels cachyos_v4_repo_str
      else if contains isa_levels "x86_64_v3"
      then add_arch_specific_repo "x86_64_v3" "cachyos-v3" isa_levels cachyos_v3_repo_str
      else pure (returned true)

-- Behind the repository for every CPU.
unfoldable pub add_isa_repos : List String → M Pushed
add_isa_repos isa_levels = do
  oracle ← exec_checked "systemd-detect-virt | grep -q oracle"
  if oracle then pure (returned true) else add_best_repo isa_levels

unfoldable pub install_cachyos_repos : List String → M Pushed
install_cachyos_repos isa_levels =
    then_pushed
      (exec_checked
        "pacman-key --recv-keys F3B607488DB35A47 --keyserver keyserver.ubuntu.com 2>>/tmp/cachyos-install.log &>/dev/null")
      (then_pushed
        (exec_checked
          "pacman-key --lsign-key F3B607488DB35A47 2>>/tmp/cachyos-install.log &>/dev/null")
        do
          added ← add_arch_specific_repo "x86_64" "cachyos" isa_levels cachyos_v1_repo_str
          elim added [
            | terminated ↦ pure terminated
            | returned false ↦ pure (returned false)
            | returned true ↦ add_isa_repos isa_levels
          ])
