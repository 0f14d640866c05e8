-- ===== src/Disk/Mtab/Reading.antt =====
-- Which entries are read from a mount table.
use new_cli_installer.Base.{
  String, ◌≡◌, refl, sym, true, false, not, ◌&&◌, ◌||◌, Option, none, some, List, [], ◌∷◌, ◌++◌,
  All, All-append, arith, Bool-cases, inl, inr, starts_with, leb, length, is_empty,
}
use new_cli_installer.Lines.{make_split_view}
use new_cli_installer.Disk.Mtab.{
  MTabEntry, fields_entry, line_entry, append_entries, lines_entries, parse_mtab_content,
}

-- The entry is mounted at a path that starts with the root mountpoint, and its device is no comment.
abbrev pub IsBelow : String → MTabEntry → Type 0
IsBelow root e = (starts_with e.mountpoint root ≡ true) × (starts_with e.device "#" ≡ false)

fields_entry-IsBelow :
    (fields : List String) (root : String) {es : List MTabEntry}
    → fields_entry fields root ≡ some es
    → All (IsBelow root) es
unfolding fields_entry
fields_entry-IsBelow [] root h = absurd (cc)
fields_entry-IsBelow (device ∷ []) root {es} h = let e : [] ≡ es = cc in rw (sym e) tt
fields_entry-IsBelow (device ∷ mountpoint ∷ rest) root {es} h =
    elim (Bool-cases (
      leb 3 (length (device ∷ mountpoint ∷ rest))
      && not (starts_with device "#")
      && starts_with mountpoint root)) [
        | inl t ↦
            let e : record { device = device; mountpoint = mountpoint } ∷ [] ≡ es =
              cc (rw t at h) in
            rw (sym e) ((ground arith, ground arith), tt)
        | inr f ↦ let e : [] ≡ es = cc (rw f at h) in rw (sym e) tt
      ]

line_entry-IsBelow :
    (line root : String) {es : List MTabEntry}
    → line_entry line root ≡ some es
    → All (IsBelow root) es
unfolding line_entry
line_entry-IsBelow line root {es} h = elim (Bool-cases (is_empty line || starts_with line "#")) [
  | inl t ↦ let e : [] ≡ es = cc (rw t at h) in rw (sym e) tt
  | inr f ↦ fields_entry-IsBelow (make_split_view line " ") root (rw f at h)
]

append_entries-IsBelow :
    (root : String) (a b : Option (List MTabEntry)) {es : List MTabEntry}
    → ((xs : List MTabEntry) → a ≡ some xs → All (IsBelow root) xs)
    → ((xs : List MTabEntry) → b ≡ some xs → All (IsBelow root) xs)
    → append_entries a b ≡ some es
    → All (IsBelow root) es
unfolding append_entries
append_entries-IsBelow root none b h k e = absurd (cc)
append_entries-IsBelow root (some xs) none h k e = absurd (cc)
append_entries-IsBelow root (some xs) (some ys) {es} h k e =
    let e' : xs ++ ys ≡ es = cc in rw (sym e') (All-append _ xs ys (h xs refl) (k ys refl))

lines_entries-IsBelow :
    (lines : List String) (root : String) {es : List MTabEntry}
    → lines_entries lines root ≡ some es
    → All (IsBelow root) es
unfolding lines_entries
lines_entries-IsBelow [] root {es} h = let e : [] ≡ es = cc in rw (sym e) tt
lines_entries-IsBelow (line ∷ lines) root h =
    append_entries-IsBelow root (line_entry line root) (lines_entries lines root)
      (λ xs. line_entry-IsBelow line root) (λ xs. lines_entries-IsBelow lines root) h

-- Every entry that is read from a mount table is mounted at a path that starts with the root
-- mountpoint, and its device does not start with `#`.
pub parse_mtab_content-IsBelow :
    (content root : String) {es : List MTabEntry}
    → parse_mtab_content content root ≡ some es
    → All (IsBelow root) es
unfolding parse_mtab_content
parse_mtab_content-IsBelow content root h =
    lines_entries-IsBelow (make_split_view content "\n") root h
