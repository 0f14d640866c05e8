-- ===== src/Installer/State/Kinds.antt =====
-- The alternative that each setting holds, so that `std::get` of it does not throw.
use new_cli_installer.Base.{
  String, ◌==◌, ◌≡◌, refl, sym, Bool, true, false, not, ◌||◌, none, some, List, [], ◌∷◌, All,
  Bool-cases, inl, inr, contains, eq_iff, arith, is_some, if◌then◌else◌, map,
}
use new_cli_installer.Sys.{Os, Log}
use new_cli_installer.Boot.Initcpio.{file_exists}
use new_cli_installer.Installer.State.{
  Config, Value, text, put, put_all, initial_entries, empty_config, initialize, as_text, as_number,
  as_texts,
}

pub data Kind : Type 0 where
  text_kind number_kind texts_kind setup_kind any_kind : Kind

abbrev pub number_keys : List String
number_keys =
    "hostcache" ∷ "menus" ∷ "BTRFS" ∷ "ZFS" ∷ "LUKS" ∷ "LVM" ∷ "LVM_SEP_BOOT" ∷ "RAID"
    ∷ "HEADLESS_MODE" ∷ "SERVER_MODE" ∷ []

abbrev pub texts_keys : List String
texts_keys = "READY_PARTITIONS" ∷ "ZFS_ZPOOL_NAMES" ∷ []

-- Settings that are no text once they are set, and are not set at first.
abbrev pub late_keys : List String
late_keys = "fde" ∷ "NUMBER_PARTITIONS" ∷ "PARTITIONS" ∷ "fs_opts" ∷ []

unfoldable pub kind_of : String → Kind
kind_of key =
    if contains number_keys key
    then number_kind
    else if contains texts_keys key
    then texts_kind
    else if contains ("ZFS_SETUP_CONFIG" ∷ []) key
    then setup_kind
    else if contains late_keys key
    then any_kind
    else text_kind

abbrev pub fits : Kind → Value → Bool
fits text_kind value = is_some (as_text value)
fits number_kind value = is_some (as_number value)
fits texts_kind value = is_some (as_texts value)
fits setup_kind value =
    not (is_some (as_text value) || (is_some (as_number value) || is_some (as_texts value)))
fits any_kind value = true

-- Every setting holds the alternative of its kind.
abbrev pub HasKinds : Config → Type 0
HasKinds config = (key : String) → fits (kind_of key) (config key) ≡ true

pub put-HasKinds :
    (key : String) (value : Value) (config : Config)
    → fits (kind_of key) value ≡ true
    → HasKinds config
    → HasKinds (put key value config)
put-HasKinds key value config h all k = elim (Bool-cases (k == key)) [
  | inl same ↦ rw same (let e : k ≡ key = (eq_iff k key).0 same in rw e h)
  | inr other ↦ rw other (all k)
]

keys_of : List (String × Value) → List String
keys_of entries = map (λ entry. entry.0) entries

different : (a b : String) → (a == b) ≡ false → (b == a) ≡ false
different a b h = elim (Bool-cases (b == a)) [
  | inl e ↦ absurd (cc ((eq_iff a b).1 (sym ((eq_iff b a).0 e))))
  | inr n ↦ n
]

put_all-fits :
    (entries : List (String × Value)) (config : Config) (key : String)
    → All (λ entry. fits (kind_of entry.0) entry.1 ≡ true) entries
    → (contains (keys_of entries) key ≡ false → fits (kind_of key) (config key) ≡ true)
    → fits (kind_of key) (put_all entries config key) ≡ true
unfolding put_all keys_of
put_all-fits [] config key h rest = rest refl
put_all-fits ((k, v) ∷ entries) config key h rest =
    put_all-fits entries (put k v config) key h.1 (λ absent. elim (Bool-cases (key == k)) [
      | inl same ↦ rw same (let e : key ≡ k = (eq_iff key k).0 same in rw e h.0)
      | inr other ↦ rw other (rest (rw (different key k other) absent))
    ])

initial_fits :
    (on_bootmnt : Bool)
    → All (λ entry. fits (kind_of entry.0) entry.1 ≡ true) (initial_entries on_bootmnt)
unfolding kind_of initial_entries
initial_fits on_bootmnt = ground arith

contains_some :
    (xs : List String) (a b : String)
    → (a == b) ≡ true
    → contains xs b ≡ false
    → contains xs a ≡ false
contains_some xs a b e h = let e' : a ≡ b = (eq_iff a b).0 e in rw e' h

absent_part :
    (xs ys : List String) (key : String)
    → All (λ y. contains xs y ≡ true) ys
    → contains xs key ≡ false
    → contains ys key ≡ false
absent_part xs [] key h absent = refl
absent_part xs (y ∷ ys) key h absent = elim (Bool-cases (y == key)) [
  | inl e ↦ absurd (cc (contains_some xs y key e absent, h.0))
  | inr n ↦ rw n (absent_part xs ys key h.1 absent)
]

all_keys : List String
all_keys = keys_of (initial_entries true)

-- The keys are the same whatever the first answer is.
keys_of_initial : (on_bootmnt : Bool) → keys_of (initial_entries on_bootmnt) ≡ all_keys
unfolding all_keys initial_entries keys_of
keys_of_initial on_bootmnt = refl

-- A setting that is not among the first ones may be a text.
kind_of_absent :
    (key : String) → contains all_keys key ≡ false → fits (kind_of key) (text "") ≡ true
unfolding kind_of all_keys initial_entries keys_of
kind_of_absent key h =
    let a = absent_part all_keys number_keys key (ground arith) h in
    let b = absent_part all_keys texts_keys key (ground arith) h in
    let c = absent_part all_keys ("ZFS_SETUP_CONFIG" ∷ []) key (ground arith) h in
    rw (a, b, c) (elim (Bool-cases (contains late_keys key)) [ inl l ↦ rw l | inr n ↦ rw n ])

-- The first settings hold the alternative of their kind.
pub initial-HasKinds :
    (on_bootmnt : Bool) → HasKinds (put_all (initial_entries on_bootmnt) empty_config)
unfolding empty_config
initial-HasKinds on_bootmnt key =
    put_all-fits (initial_entries on_bootmnt) empty_config key (initial_fits on_bootmnt)
      (λ absent. kind_of_absent key (rw (keys_of_initial on_bootmnt) at absent))

-- All settings that `initialize` leaves hold the alternative of their kind.
pub initialize-HasKinds :
    (os : Os) (log : Log) {config : Config}
    → (initialize none os log).0 ≡ (true, some config)
    → HasKinds config
unfolding initialize
initialize-HasKinds os log {config} h =
    let on_bootmnt = (file_exists "/run/miso/bootmnt" os log).0 in
    let e : put_all (initial_entries on_bootmnt) empty_config ≡ config = cc in
    rw (sym e) (initial-HasKinds on_bootmnt)
