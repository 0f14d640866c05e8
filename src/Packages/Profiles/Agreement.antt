-- ===== src/Packages/Profiles/Agreement.antt =====
-- The three readers of profiles.
use new_cli_installer.Base.{
  String, ◌≡◌, fun_ext, refl, none, some, Option, List, [], ◌∷◌, Option-cases, inl, inr,
}
use new_cli_installer.Packages.Profiles.{
  Toml, Parsed, parsed, nullopt, fault, ◌>>=◌, need, BaseProfiles, DesktopProfile, NetProfiles,
  parse_document, base_of, desktops_of, parse_base_profiles, parse_desktop_profiles,
  parse_net_profiles, net_desktops, parse_toml_array,
}

-- The profiles of both kinds.
abbrev pub together : BaseProfiles → List DesktopProfile → NetProfiles
together base desktops = record { base_profiles = base; desktop_profiles = desktops }

need_document :
    (toml : Toml) (text : String) → toml.parse text ≡ none → parse_document toml text ≡ nullopt
unfolding parse_document
need_document toml text e = rw (parse_document, e)

table_document :
    (toml : Toml) (text : String) (t : toml.Table)
    → toml.parse text ≡ some t
    → parse_document toml text ≡ parsed t
unfolding parse_document
table_document toml text t e = rw (parse_document, e)

net_desktops-desktops_of :
    (toml : Toml) (table : List (String × Option toml.Table))
    → net_desktops toml table ≡ desktops_of toml table
unfolding net_desktops desktops_of
net_desktops-desktops_of toml [] = refl
net_desktops-desktops_of toml ((key, value) ∷ rest) = rw (net_desktops-desktops_of toml rest) refl

-- Three readings after one another, of which the first two belong together, as do the third and what
-- is read with it.
regroup :
    {A : Type 0} (packages desktop : Parsed (List String)) (table : Parsed A)
    (f : A → Parsed (List DesktopProfile))
    → (packages >>= λ p. desktop >>= λ d. table >>= λ t. f t >>= λ ds.
        parsed (together (record { base_packages = p; base_desktop_packages = d }) ds))
      ≡ ((packages >>= λ p.
            desktop >>= λ d. parsed (record { base_packages = p; base_desktop_packages = d }))
          >>= λ b. (table >>= f) >>= λ ds. parsed (together b ds))
regroup (parsed p) (parsed d) (parsed t) f = refl
regroup (parsed p) (parsed d) nullopt f = refl
regroup (parsed p) (parsed d) fault f = refl
regroup (parsed p) nullopt table f = refl
regroup (parsed p) fault table f = refl
regroup nullopt desktop table f = refl
regroup fault desktop table f = refl

-- Reading all profiles of a text, by code of its own, is reading its base profiles and then its desktop
-- profiles, in every outcome.
pub parse_net_profiles_lem :
    (toml : Toml) (text : String)
    → parse_net_profiles toml text ≡ (do
      base ← parse_base_profiles toml text
      desktops ← parse_desktop_profiles toml text
      parsed (together base desktops))
unfolding parse_net_profiles parse_base_profiles parse_desktop_profiles base_of
parse_net_profiles_lem toml text = elim (Option-cases (toml.parse text)) [
  | inl e ↦ rw (need_document toml text e) refl
  | inr (t, e) ↦ rw (table_document toml text t e) (
      rw (fun_ext (net_desktops-desktops_of toml)) (
        regroup (parse_toml_array (toml.as_array t ("base-packages" ∷ "packages" ∷ [])))
          (parse_toml_array (toml.as_array t ("base-packages" ∷ "desktop" ∷ "packages" ∷ [])))
          (need (toml.as_table t "desktop")) (desktops_of toml)))
]
