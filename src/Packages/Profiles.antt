-- ===== src/Packages/Profiles.antt =====
-- gucc/src/package_profiles.cpp: the profiles in a TOML document. The TOML library is a parameter.
pub mod Agreement
use new_cli_installer.Base.{String, Option, none, some, List, [], ◌∷◌}

-- What toml++ answers: whether a text parses, and what stands under a path of keys. A node that is no
-- text has no value.
pub record Toml : Type 1 where
  pub Table : Type 0
  pub parse : String → Option Table
  pub as_array : Table → List String → Option (List (Option String))
  pub as_table : Table → String → Option (List (String × Option Table))

pub record BaseProfiles : Type 0 where
  pub base_packages : List String
  pub base_desktop_packages : List String

pub record DesktopProfile : Type 0 where
  pub profile_name : String
  pub packages : List String

pub record NetProfiles : Type 0 where
  pub base_profiles : BaseProfiles
  pub desktop_profiles : List DesktopProfile

-- `nullopt` if the text does not parse; `fault` for the use of an array, a table or a text that is not
-- there, which is undefined or ends the program.
pub data Parsed (A : Type 0) : Type 0 where
  parsed : A → Parsed A
  nullopt : Parsed A
  fault : Parsed A

infixl 5 ◌>>=◌
abbrev pub ◌>>=◌ : {A B : Type 0} → Parsed A → (A → Parsed B) → Parsed B
parsed a >>= f = f a
nullopt >>= f = nullopt
fault >>= f = fault

abbrev pub need : {A : Type 0} → Option A → Parsed A
need none = fault
need (some a) = parsed a

unfoldable pub copy_elements : List (Option String) → Parsed (List String)
copy_elements [] = parsed []
copy_elements (node_el ∷ nodes) = do
  elem ← need node_el
  rest ← copy_elements nodes
  parsed (elem ∷ rest)

unfoldable pub parse_toml_array : Option (List (Option String)) → Parsed (List String)
parse_toml_array arr = do nodes ← need arr; copy_elements nodes

module _ (toml : Toml) where
  unfoldable pub parse_document : String → Parsed toml.Table
  parse_document config_content = elim (toml.parse config_content) [
    | none ↦ nullopt
    | some netprof_table ↦ parsed netprof_table
  ]

  unfoldable pub base_of : toml.Table → Parsed BaseProfiles
  base_of netprof_table = do
    packages ← parse_toml_array (toml.as_array netprof_table ("base-packages" ∷ "packages" ∷ []))
    desktop ←
        parse_toml_array
          (toml.as_array netprof_table ("base-packages" ∷ "desktop" ∷ "packages" ∷ []))
    parsed (record { base_packages = packages; base_desktop_packages = desktop })

  unfoldable pub desktops_of : List (String × Option toml.Table) → Parsed (List DesktopProfile)
  desktops_of [] = parsed []
  desktops_of ((key, value) ∷ rest) = do
    value_table ← need value
    packages ← parse_toml_array (toml.as_array value_table ("packages" ∷ []))
    profiles ← desktops_of rest
    parsed (record { profile_name = key; packages = packages } ∷ profiles)

  unfoldable pub parse_base_profiles : String → Parsed BaseProfiles
  parse_base_profiles config_content = do
    netprof_table ← parse_document config_content
    base_of netprof_table

  unfoldable pub parse_desktop_profiles : String → Parsed (List DesktopProfile)
  parse_desktop_profiles config_content = do
    netprof_table ← parse_document config_content
    desktop_table ← need (toml.as_table netprof_table "desktop")
    desktops_of desktop_table

  -- The loop over the desktops in `parse_net_profiles`, which has the code of its own.
  unfoldable pub net_desktops : List (String × Option toml.Table) → Parsed (List DesktopProfile)
  net_desktops [] = parsed []
  net_desktops ((key, value) ∷ rest) = do
    value_table ← need value
    desktop_profile_packages ← parse_toml_array (toml.as_array value_table ("packages" ∷ []))
    profiles ← net_desktops rest
    parsed (record { profile_name = key; packages = desktop_profile_packages } ∷ profiles)

  unfoldable pub parse_net_profiles : String → Parsed NetProfiles
  parse_net_profiles config_content = do
    netprof_table ← parse_document config_content
    base_packages ←
        parse_toml_array (toml.as_array netprof_table ("base-packages" ∷ "packages" ∷ []))
    base_desktop_packages ←
        parse_toml_array
          (toml.as_array netprof_table ("base-packages" ∷ "desktop" ∷ "packages" ∷ []))
    desktop_table ← need (toml.as_table netprof_table "desktop")
    desktop_profiles ← net_desktops desktop_table
    parsed (record {
      base_profiles = record {
        base_packages = base_packages;
        base_desktop_packages = base_desktop_packages;
      };
      desktop_profiles = desktop_profiles;
    })
