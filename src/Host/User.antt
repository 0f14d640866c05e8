-- ===== src/Host/User.antt =====
-- gucc/src/user.cpp and gucc/src/autologin.cpp: groups, users, passwords, host names, autologin.
pub mod Creation
use new_cli_installer.Base.{
  String, ◌==◌, ◌<>◌, Bool, true, false, not, ◌&&◌, List, [], ◌∷◌, if◌then◌else◌, is_empty,
  contains,
}
use new_cli_installer.Lines.{join}
use new_cli_installer.Sys.{M, ask, pure, and_then, ◌>>=◌, ◌>>◌, permissions}
use new_cli_installer.Sys.Io.{exec, arch_chroot_checked, create_file_for_overwrite}

pub record UserInfo : Type 0 where
  pub username : String
  pub password : String
  pub shell : String
  pub sudoers_group : String

unfoldable pub groupadd_cmd : String → Bool → String
groupadd_cmd group is_system =
    "groupadd --force " <> (if is_system then "--system" else "") <> group

unfoldable pub create_group : String → String → Bool → M Bool
create_group group mountpoint is_system =
    arch_chroot_checked (groupadd_cmd group is_system) mountpoint

unfoldable pub set_user_password : String → String → String → M Bool
set_user_password username password mountpoint = do
  encrypted_passwd ← exec ("openssl passwd " <> password) false
  arch_chroot_checked ("usermod -p '" <> encrypted_passwd <> "' " <> username) mountpoint

unfoldable pub create_groups : List String → String → M Bool
create_groups [] mountpoint = pure true
create_groups (default_group ∷ default_groups) mountpoint =
    and_then (create_group default_group mountpoint false) (create_groups default_groups mountpoint)

unfoldable pub usercmd : String → String → String
usercmd username user_shell =
    if is_empty user_shell
    then "useradd -m -U " <> username
    else "useradd -m -U -s " <> user_shell <> " " <> username

abbrev pub sudoers_filepath : String → String
sudoers_filepath mountpoint = mountpoint <> "/etc/sudoers.d/10-installer"

abbrev pub sudoers_line : String → String
sudoers_line sudoers_group = "%" <> sudoers_group <> " ALL=(ALL) ALL\n"

unfoldable pub setup_sudoers : String → String → M Bool
setup_sudoers sudoers_group mountpoint =
    let request = permissions (sudoers_filepath mountpoint) "0440" in
    if is_empty sudoers_group
    then pure true
    else and_then
        (create_file_for_overwrite (sudoers_filepath mountpoint) (sudoers_line sudoers_group))
        (ask request (λ os log. os.succeeds log request))

unfoldable pub create_new_user : UserInfo → List String → String → M Bool
create_new_user user_info default_groups mountpoint =
    let username = user_info.username in
    if not (is_empty user_info.sudoers_group)
      && not (contains default_groups user_info.sudoers_group)
    then pure false
    else and_then (create_groups default_groups mountpoint) (
        and_then (arch_chroot_checked (usercmd username user_info.shell) mountpoint) (
          and_then
            (arch_chroot_checked ("usermod -aG " <> join default_groups "," <> " " <> username)
              mountpoint)
            (and_then
              (arch_chroot_checked
                ("chown -R " <> username <> ":" <> username <> " /home/" <> username) mountpoint)
              (and_then (set_user_password username user_info.password mountpoint)
                (setup_sudoers user_info.sudoers_group mountpoint)))))

abbrev pub standard_hosts : String
standard_hosts =
    "# Standard host addresses\n127.0.0.1  localhost\n::1        localhost ip6-localhost ip6-loopback\nff02::1    ip6-allnodes\nff02::2    ip6-allrouters\n"

unfoldable pub set_hosts : String → String → M Bool
set_hosts hostname mountpoint = create_file_for_overwrite (mountpoint <> "/etc/hosts") (
    standard_hosts
    <> (if is_empty hostname then "" else "# This host address\n127.0.1.1  " <> hostname <> "\n"))

unfoldable pub set_hostname : String → String → M Bool
set_hostname hostname mountpoint =
    and_then (create_file_for_overwrite (mountpoint <> "/etc/hostname") (hostname <> "\n"))
      (and_then (set_hosts hostname mountpoint) (pure true))

unfoldable pub set_root_password : String → String → M Bool
set_root_password password mountpoint = set_user_password "root" password mountpoint

-- Runs the commands one after another, whatever becomes of them.
unfoldable pub exec_each : List String → M (Unit {0})
exec_each [] = pure tt
exec_each (command ∷ rest) = do exec command false; exec_each rest

unfoldable pub gdm_commands : String → String → List String
gdm_commands username root_mountpoint =
    ("sed -i 's/^AutomaticLogin=*/AutomaticLogin=" <> username <> "/g' " <> root_mountpoint
      <> "/etc/gdm/custom.conf")
    ∷ ("sed -i 's/^AutomaticLoginEnable=*/AutomaticLoginEnable=true/g' " <> root_mountpoint
        <> "/etc/gdm/custom.conf")
    ∷ ("sed -i 's/^TimedLoginEnable=*/TimedLoginEnable=true/g' " <> root_mountpoint
        <> "/etc/gdm/custom.conf")
    ∷ ("sed -i 's/^TimedLogin=*/TimedLoginEnable=" <> username <> "/g' " <> root_mountpoint
        <> "/etc/gdm/custom.conf")
    ∷ ("sed -i 's/^TimedLoginDelay=*/TimedLoginDelay=0/g' " <> root_mountpoint
        <> "/etc/gdm/custom.conf")
    ∷ []

unfoldable pub lightdm_commands : String → String → List String
lightdm_commands username root_mountpoint =
    ("sed -i 's/^#autologin-user=/autologin-user=" <> username <> "/' " <> root_mountpoint
      <> "/etc/lightdm/lightdm.conf")
    ∷ ("sed -i 's/^#autologin-user-timeout=0/autologin-user-timeout=0/' " <> root_mountpoint
        <> "/etc/lightdm/lightdm.conf")
    ∷ []

unfoldable pub sddm_commands : String → String → List String
sddm_commands username root_mountpoint =
    ("sed -i 's/^User=/User=" <> username <> "/g' " <> root_mountpoint <> "/etc/sddm.conf") ∷ []

unfoldable pub lxdm_commands : String → String → List String
lxdm_commands username root_mountpoint =
    ("sed -i 's/^# autologin=dgod/autologin=" <> username <> "/g' " <> root_mountpoint
      <> "/etc/lxdm/lxdm.conf")
    ∷ []

unfoldable pub enable_lightdm : String → String → M Bool
enable_lightdm username root_mountpoint = do
  exec_each (lightdm_commands username root_mountpoint)
  and_then (create_group "autologin" root_mountpoint true) (
      and_then (arch_chroot_checked ("gpasswd -a " <> username <> " autologin") root_mountpoint)
        (pure true))

unfoldable pub enable_autologin : String → String → String → M Bool
enable_autologin displaymanager username root_mountpoint =
    if displaymanager == "gdm"
    then exec_each (gdm_commands username root_mountpoint) >> pure true
    else if displaymanager == "lightdm"
    then enable_lightdm username root_mountpoint
    else if displaymanager == "sddm"
    then exec_each (sddm_commands username root_mountpoint) >> pure true
    else if displaymanager == "lxdm"
    then exec_each (lxdm_commands username root_mountpoint) >> pure true
    else pure true
