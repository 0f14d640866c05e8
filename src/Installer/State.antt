-- ===== src/Installer/State.antt =====
-- src/config.cpp and src/config.hpp: the settings that the installer's parts share, and computations
-- that read and change them.
pub mod Kinds
use new_cli_installer.Base.{
  String, ◌==◌, Bool, true, false, not, Option, none, some, List, [], ◌∷◌, if◌then◌else◌, eqb,
}
use new_cli_installer.Base.Decimal.{ℤ, pos, negsuc}
use new_cli_installer.Sys.{Os, Log, M}
use new_cli_installer.Disk.Zfs.{ZfsSetupConfig}
use new_cli_installer.Boot.Initcpio.{file_exists}

-- The alternatives of the `std::variant` of a setting.
pub data Value : Type 0 where
  text : String → Value
  number : ℤ → Value
  texts : List String → Value
  zfs_setup : ZfsSetupConfig → Value

-- The map of the settings. A key that is missing reads as the variant's default, the empty text,
-- which is also what `operator[]` inserts.
abbrev pub Config : Type 0
Config = String → Value

-- `m_data[key] = value`
abbrev pub put : String → Value → Config → Config
put key value config k = if k == key then value else config k

-- Many of these in the order in which they are written.
unfoldable pub put_all : List (String × Value) → Config → Config
put_all [] config = config
put_all ((key, value) ∷ entries) config = put_all entries (put key value config)

unfoldable pub initial_entries : Bool → List (String × Value)
initial_entries on_bootmnt =
    ("cachepath", text "/var/cache/pacman/pkg/")
    ∷ ("hostcache", number (if not on_bootmnt then pos 1 else pos 0))
    ∷ ("menus", number (pos 2))
    ∷ ("POST_INSTALL", text "")
    ∷ ("H_INIT", text "openrc")
    ∷ ("SYSTEM", text "BIOS")
    ∷ ("KEYMAP", text "us")
    ∷ ("XKBMAP", text "us")
    ∷ ("BTRFS", number (pos 0))
    ∷ ("ZFS", number (pos 0))
    ∷ ("LUKS", number (pos 0))
    ∷ ("LUKS_DEV", text "")
    ∷ ("LUKS_NAME", text "")
    ∷ ("LUKS_OPT", text "")
    ∷ ("LUKS_UUID", text "")
    ∷ ("LVM", number (pos 0))
    ∷ ("LVM_LV_NAME", text "")
    ∷ ("LVM_SEP_BOOT", number (pos 0))
    ∷ ("RAID", number (pos 0))
    ∷ ("READY_PARTITIONS", texts [])
    ∷ ("ZFS_ZPOOL_NAMES", texts [])
    ∷ ("ZFS_ZPOOL_NAME", text "zpcachyos")
    ∷ (
      "ZFS_SETUP_CONFIG",
      zfs_setup (record { zpool_name = ""; zpool_options = ""; passphrase = none; datasets = [] }),
    )
    ∷ ("SWAP_DEVICE", text "")
    ∷ (
      "NET_PROFILES_URL",
      text "https://raw.githubusercontent.com/CachyOS/New-Cli-Installer/master/net-profiles.toml",
    )
    ∷ ("NET_PROFILES_FALLBACK_URL", text "file:///var/lib/cachyos-installer/net-profiles.toml")
    ∷ ("MOUNTPOINT", text "/mnt")
    ∷ ("HEADLESS_MODE", number (pos 0))
    ∷ ("SERVER_MODE", number (pos 0))
    ∷ ("GRAPHIC_CARD", text "")
    ∷ []

-- `Config{}`
unfoldable pub empty_config : Config
empty_config key = text ""

-- `Config::initialize` of the static `s_config`, which may be there already.
unfoldable pub initialize : Option Config → M (Bool × Option Config)
unfolding file_exists
initialize (some s_config) os log = ((false, some s_config), log)
initialize none os log =
    let on_bootmnt = file_exists "/run/miso/bootmnt" os log in
    ((true, some (put_all (initial_entries on_bootmnt.0) empty_config)), on_bootmnt.1)

pub record State : Type 0 where
  pub config : Config
  pub log : Log

-- A computation over the settings and the system. Its result is `none` if it does not return: it ends
-- the program by `exit` or by an exception in a function that is `noexcept`, or the condition of an
-- `assert` is false, which ends the program too or, where NDEBUG leaves the assertions out, leads to a
-- read that is undefined.
abbrev pub Run : Type 0 → Type 0
Run A = Os → State → Option A × State

abbrev pub pure : {A : Type 0} → A → Run A
pure a os s = (some a, s)

abbrev pub next : {A B : Type 0} → Option A → (A → Run B) → Run B
next none f os s = (none, s)
next (some a) f os s = f a os s

infixl 5 ◌>>=◌ ◌>>◌
abbrev pub ◌>>=◌ : {A B : Type 0} → Run A → (A → Run B) → Run B
◌>>=◌ m f os s = let r = m os s in next r.0 f os r.1

abbrev pub ◌>>◌ : {A B : Type 0} → Run A → Run B → Run B
m >> n = m >>= λ _. n

abbrev pub quit : {A : Type 0} → Run A
quit os s = (none, s)

-- A request of the system in the midst of it.
abbrev pub lift : {A : Type 0} → M A → Run A
lift m os s = let r = m os s.log in (some r.0, record { config = s.config; log = r.1 })

-- `#ifdef NDEVENV`
abbrev pub if_ndevenv : {A : Type 0} → Run A → Run A → Run A
if_ndevenv action other os s = if os.ndevenv then action os s else other os s

-- `if (test) action`, and `if (test) { return ...; }` with what follows otherwise.
abbrev pub when : Bool → Run (Unit {0}) → Run (Unit {0})
when true action = action
when false action = pure tt

-- `std::get<T>(config_data[key])`: another alternative throws.
abbrev pub as_text : Value → Option String
as_text (text t) = some t
as_text (number n) = none
as_text (texts l) = none
as_text (zfs_setup c) = none

abbrev pub as_number : Value → Option ℤ
as_number (text t) = none
as_number (number n) = some n
as_number (texts l) = none
as_number (zfs_setup c) = none

abbrev pub as_texts : Value → Option (List String)
as_texts (text t) = none
as_texts (number n) = none
as_texts (texts l) = some l
as_texts (zfs_setup c) = none

unfoldable pub get_text : String → Run String
get_text key os s = (as_text (s.config key), s)

unfoldable pub get_number : String → Run ℤ
get_number key os s = (as_number (s.config key), s)

unfoldable pub get_texts : String → Run (List String)
get_texts key os s = (as_texts (s.config key), s)

-- `config_data[key] = value`
unfoldable pub set : String → Value → Run (Unit {0})
set key value os s = (some tt, record { config = put key value s.config; log = s.log })

-- `a == b` on `std::int32_t`.
abbrev pub is_int : ℤ → ℤ → Bool
is_int (pos m) (pos n) = eqb m n
is_int (pos m) (negsuc n) = false
is_int (negsuc m) (pos n) = false
is_int (negsuc m) (negsuc n) = eqb m n

-- A number as a condition.
abbrev pub is_set : ℤ → Bool
is_set z = not (is_int z (pos 0))
