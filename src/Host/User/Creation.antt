-- ===== src/Host/User/Creation.antt =====
-- When `create_new_user` gives the user rights, and when it does nothing.
use mathlib.Core.Path.{subst}
use new_cli_installer.Base.{
  String, ◌<>◌, ◌≡◌, sym, ap, ◌∙◌, Bool, true, false, List, ◌∷◌, Bool-cases, inl, inr, is_empty,
  contains,
}
use new_cli_installer.Lines.{join}
use new_cli_installer.Sys.{Os, Log, M, and_then, ask, write, permissions}
use new_cli_installer.Sys.Io.{arch_chroot_checked, create_file_for_overwrite}
use new_cli_installer.Sys.Script.{and_then-true}
use new_cli_installer.Host.User.{
  UserInfo, create_groups, usercmd, set_user_password, setup_sudoers, create_new_user,
  sudoers_filepath, sudoers_line,
}

-- What the end of the log holds once a group has its rights.
pub record HasRights (group mountpoint : String) (log : Log) : Type 0 where
  pub earlier : Log
  pub written :
      log
      ≡ permissions (sudoers_filepath mountpoint) "0440"
        ∷ write (sudoers_filepath mountpoint) (sudoers_line group)
        ∷ earlier

EndsIn : M Bool → Os → (Log → Type 0) → Type 0
EndsIn m os P = (log : Log) → (m os log).0 ≡ true → P (m os log).1

EndsIn-then :
    (a b : M Bool) (os : Os) (P : Log → Type 0) → EndsIn b os P → EndsIn (and_then a b) os P
unfolding EndsIn
EndsIn-then a b os P h log e =
    let r = and_then-true os a b log e in
    subst (λ x. P x.1) (sym r.1) (h (a os log).1 (ap (λ x. x.0) (sym r.1) ∙ e))

setup_sudoers_lem :
    (group mountpoint : String) (os : Os) (log : Log)
    → is_empty group ≡ false
    → (setup_sudoers group mountpoint os log).0 ≡ true
    → (setup_sudoers group mountpoint os log).1
      ≡ permissions (sudoers_filepath mountpoint) "0440"
        ∷ write (sudoers_filepath mountpoint) (sudoers_line group)
        ∷ log
unfolding setup_sudoers create_file_for_overwrite
setup_sudoers_lem group mountpoint os log n e =
    let request = permissions (sudoers_filepath mountpoint) "0440" in
    let step = create_file_for_overwrite (sudoers_filepath mountpoint) (sudoers_line group) in
    let grant : M Bool = ask request (λ o l. o.succeeds l request) in
    let r = and_then-true os step grant log (rw n at e) in rw n (ap (λ x. x.1) r.1)

setup_sudoers-EndsIn :
    (group mountpoint : String) (os : Os)
    → is_empty group ≡ false
    → EndsIn (setup_sudoers group mountpoint) os (HasRights group mountpoint)
unfolding EndsIn
setup_sudoers-EndsIn group mountpoint os n log e = record {
  earlier = log;
  written = setup_sudoers_lem group mountpoint os log n e;
}

steps-EndsIn :
    (u : UserInfo) (groups : List String) (mountpoint : String) (os : Os)
    → (is_empty u.sudoers_group ≡ false)
    → contains groups u.sudoers_group ≡ true
    → EndsIn (create_new_user u groups mountpoint) os (HasRights u.sudoers_group mountpoint)
unfolding create_new_user EndsIn
steps-EndsIn u groups mountpoint os n c log e =
    let name = u.username in
    let path = mountpoint in
    let sudo = setup_sudoers u.sudoers_group path in
    let set_passwd = set_user_password name u.password path in
    let run_chown =
      arch_chroot_checked ("chown -R " <> name <> ":" <> name <> " /home/" <> name) path in
    let run_usermod = arch_chroot_checked ("usermod -aG " <> join groups "," <> " " <> name) path in
    let run_useradd = arch_chroot_checked (usercmd name u.shell) path in
    let passwd = and_then set_passwd sudo in
    let chown = and_then run_chown passwd in
    let usermod = and_then run_usermod chown in
    let useradd = and_then run_useradd usermod in
    let P = HasRights u.sudoers_group path in
    let end : EndsIn useradd os P = EndsIn-then run_useradd usermod os P (
      EndsIn-then run_usermod chown os P (
        EndsIn-then run_chown passwd os P
          (EndsIn-then set_passwd sudo os P (setup_sudoers-EndsIn u.sudoers_group path os n)))) in
    let run : EndsIn (and_then (create_groups groups path) useradd) os P =
      EndsIn-then (create_groups groups path) useradd os P end in
    rw (n, c) (run log (rw (n, c) at e))

-- If the group for the sudoers file is not one of the default groups, nothing at all is run.
missing_group :
    (u : UserInfo) (groups : List String) (mountpoint : String) (os : Os) (log : Log)
    → is_empty u.sudoers_group ≡ false
    → contains groups u.sudoers_group ≡ false
    → create_new_user u groups mountpoint os log ≡ (false, log)
unfolding create_new_user
missing_group u groups mountpoint os log n absent = rw (n, absent)

-- If a user is created with a group for the sudoers file, then that group is one of the default groups,
-- and the last things that were done are writing its line to the sudoers file and restricting the
-- file's permissions.
pub create_new_user-HasRights :
    (u : UserInfo) (groups : List String) (mountpoint : String) (os : Os) (log : Log)
    → is_empty u.sudoers_group ≡ false
    → (create_new_user u groups mountpoint os log).0 ≡ true
    → (contains groups u.sudoers_group ≡ true)
      × HasRights u.sudoers_group mountpoint (create_new_user u groups mountpoint os log).1
create_new_user-HasRights u groups mountpoint os log n e =
    elim (Bool-cases (contains groups u.sudoers_group)) [
      | inl c ↦ (c, unfold EndsIn in steps-EndsIn u groups mountpoint os n c log e)
      | inr absent ↦ absurd (cc (missing_group u groups mountpoint os log n absent))
    ]
