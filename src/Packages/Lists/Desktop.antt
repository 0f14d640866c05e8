-- ===== src/Packages/Lists/Desktop.antt =====
-- Which packages are listed for a desktop environment.
use new_cli_installer.Base.{
  String, ◌==◌, ◌≡◌, refl, sym, ap, ◌∙◌, Bool, true, false, ◌||◌, ◌&&◌, some, none, is_some, List,
  [], ◌∷◌, ◌++◌, append_assoc, append-nil, arith, any, map, All, keep_if, find_if, contains_text,
  Bool-cases, Option-cases, inl, inr, if◌then◌else◌,
}
use new_cli_installer.Packages.Profiles.{Toml, parsed, DesktopProfile, parse_desktop_profiles}
use new_cli_installer.Packages.Lists.{
  NetProfileInfo, no_url, fetch_file_from_url, profile_packages, desktops, add_desktops,
  desktop_list, get_pkglist_desktop,
}
use new_cli_installer.Sys.{Os, Log}

-- The desktops in their order.
abbrev pub desktop_order : List String
desktop_order =
    "i3wm" ∷ "sway" ∷ "kde" ∷ "xfce" ∷ "gnome" ∷ "wayfire" ∷ "openbox" ∷ "lxqt" ∷ "bspwm"
    ∷ "cinnamon" ∷ "ukui" ∷ "qtile" ∷ "mate" ∷ "lxde" ∷ "hyprland" ∷ "budgie" ∷ []

-- Those that need Xorg: all but sway, wayfire and hyprland.
abbrev pub xorg_desktops : List String
xorg_desktops =
    "i3wm" ∷ "kde" ∷ "xfce" ∷ "gnome" ∷ "openbox" ∷ "lxqt" ∷ "bspwm" ∷ "cinnamon" ∷ "ukui" ∷ "qtile"
    ∷ "mate" ∷ "lxde" ∷ "budgie" ∷ []

-- The profile of that name is there.
abbrev pub IsKnown : List DesktopProfile → String → Type 0
IsKnown profiles name = is_some (find_if (λ p. p.profile_name == name) profiles) ≡ true

-- The packages of the first profile of that name.
unfoldable pub own_packages : List DesktopProfile → String → List String
own_packages profiles name = elim (find_if (λ p. p.profile_name == name) profiles) [
  | none ↦ []
  | some profile ↦ profile.packages
]

abbrev pub all_packages : List DesktopProfile → List String → List String
all_packages profiles [] = []
all_packages profiles (name ∷ names) = own_packages profiles name ++ all_packages profiles names

-- The desktops whose names stand in the text, and whether one of them needs Xorg.
abbrev pub asked_for : String → List String → List String
asked_for desktop_env names = keep_if (contains_text desktop_env) names

abbrev pub needs_xorg : String → Bool
needs_xorg desktop_env = any (contains_text desktop_env) xorg_desktops

profile_packages-own :
    (profiles : List DesktopProfile) (name : String)
    → IsKnown profiles name
    → profile_packages name profiles ≡ parsed (own_packages profiles name)
unfolding profile_packages own_packages
profile_packages-own profiles name h =
    elim (Option-cases (find_if (λ p. p.profile_name == name) profiles)) [
      | inl gone ↦ absurd (cc (rw gone at h))
      | inr (profile, there) ↦ rw (profile_packages, own_packages, there) refl
    ]

abbrev names_of : List (String × Bool) → List String
names_of ds = map (λ d. d.0) ds

abbrev xorg_of : String → List (String × Bool) → Bool
xorg_of desktop_env ds = any (λ d. d.1 && contains_text desktop_env d.0) ds

abbrev xorg_packages : List DesktopProfile → Bool → List String
xorg_packages profiles needed = if needed then own_packages profiles "xorg" else []

or_false : (a : Bool) → (a || false) ≡ a
or_false a = ground arith

add_desktops-all :
    (env : String) (profiles : List DesktopProfile) (ds : List (String × Bool)) (list : List String)
    (before : Bool)
    → All (IsKnown profiles) (asked_for env (names_of ds))
    → ((xorg_of env ds || before) ≡ true → IsKnown profiles "xorg")
    → add_desktops ds env profiles list before
      ≡ parsed (
          (list ++ all_packages profiles (asked_for env (names_of ds)))
          ++ xorg_packages profiles (xorg_of env ds || before))
unfolding add_desktops
add_desktops-all env profiles [] list false known xorg = rw (append-nil, append-nil) refl
add_desktops-all env profiles [] list true known xorg =
    rw (profile_packages-own profiles "xorg" (xorg refl), append-nil list) refl
add_desktops-all env profiles ((name, x) ∷ ds) list before known xorg =
    elim (Bool-cases (contains_text env name)) [
      | inr other ↦
          let e : (xorg_of env ((name, x) ∷ ds) || before) ≡ (xorg_of env ds || before) =
            ground arith in
          rw (e, other)
            (add_desktops-all env profiles ds list before (rw other at known) (λ h. xorg (e ∙ h)))
      | inl asked ↦
          let e : (xorg_of env ((name, x) ∷ ds) || before) ≡ (xorg_of env ds || (x || before)) =
            ground arith in
          let (own, others) : IsKnown profiles name
              × All (IsKnown profiles) (asked_for env (names_of ds)) =
            rw asked at known in
          rw (e, asked, profile_packages-own profiles name own)
            (add_desktops-all env profiles ds (list ++ own_packages profiles name) (x || before)
                others (λ h. xorg (e ∙ h))
              ∙ ap (λ l. parsed (l ++ xorg_packages profiles (xorg_of env ds || (x || before))))
                  (append_assoc list (own_packages profiles name) _))
    ]

-- If the profiles are downloaded and parse, and there is a profile for each desktop whose name stands in
-- the given text, and one of Xorg if one of these needs it, the packages are those of these desktops in
-- the order of the sixteen desktops, and then those of Xorg if one of them needs it: all but sway,
-- wayfire and hyprland do.
pub get_pkglist_desktop_lem :
    (toml : Toml) (env content : String) (info : NetProfileInfo) (profiles : List DesktopProfile)
    (os : Os) (log : Log)
    → no_url info ≡ false
    → (fetch_file_from_url info.net_profs_url info.net_profs_fallback_url os log).0 ≡ some content
    → parse_desktop_profiles toml content ≡ parsed profiles
    → All (IsKnown profiles) (asked_for env desktop_order)
    → (needs_xorg env ≡ true → IsKnown profiles "xorg")
    → (get_pkglist_desktop toml env info os log).0
      ≡ parsed (
          all_packages profiles (asked_for env desktop_order)
          ++ (if needs_xorg env then own_packages profiles "xorg" else []))
unfolding get_pkglist_desktop desktop_list
get_pkglist_desktop_lem toml env content info profiles os log url fetched parses known xorg =
    let b : (xorg_of env desktops || false) ≡ needs_xorg env = or_false (needs_xorg env) in
    rw (url, fetched, desktop_list, parses)
      (add_desktops-all env profiles desktops [] false known (λ h. xorg (sym b ∙ h))
        ∙ ap
            (λ n.
              parsed
                (all_packages profiles (asked_for env desktop_order) ++ xorg_packages profiles n))
            b)
