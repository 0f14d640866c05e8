-- ===== src/Disk/Fstab/Content.antt =====
-- The text of /etc/fstab against the list of its entries.
use new_cli_installer.Base.{
  String, ◌==◌, ◌<>◌, ◌≡◌, ◌↔◌, sym, ◌∙◌, Option, none, some, List, [], ◌∷◌, if◌then◌else◌, concat,
  <>_assoc, <>-nil, eq_iff, arith, Bool-cases, Option-cases, inl, inr,
}
use new_cli_installer.Disk.{Partition}
use new_cli_installer.Disk.Fstab.{
  fstab_header, get_converted_fs, gen_fstab_entry, add_entry, add_entries, generate_fstab_content,
}

-- The entry that a partition has in the file, if it has one.
abbrev pub own_entry : Partition → Option String
own_entry p = if p.fstype == "zfs" then none else gen_fstab_entry p

abbrev pub cons_entry : Option String → List String → List String
cons_entry none rest = rest
cons_entry (some entry) rest = entry ∷ rest

-- The entries of the partitions that have one, in their order.
abbrev pub fstab_entries : List Partition → List String
fstab_entries [] = []
fstab_entries (p ∷ ps) = cons_entry (own_entry p) (fstab_entries ps)

add_entry-concat :
    (p : Partition) (content : String) (rest : List String)
    → add_entry p content <> concat rest ≡ content <> concat (cons_entry (own_entry p) rest)
unfolding add_entry concat
add_entry-concat p content rest = elim (Bool-cases (p.fstype == "zfs")) [
  | inl zfs ↦ rw zfs
  | inr other ↦ elim (Option-cases (gen_fstab_entry p)) [
    | inl skipped ↦ rw (other, skipped)
    | inr (entry, e) ↦ rw (other, e) (<>_assoc content entry (concat rest))
  ]
]

add_entries-concat :
    (ps : List Partition) (content : String)
    → add_entries ps content ≡ content <> concat (fstab_entries ps)
unfolding add_entries
add_entries-concat [] content = unfold concat in sym (<>-nil content)
add_entries-concat (p ∷ ps) content =
    add_entries-concat ps (add_entry p content) ∙ add_entry-concat p content (fstab_entries ps)

-- The file is its header and then the entries of the partitions that have one, in their order.
pub generate_fstab_content_lem :
    (ps : List Partition) → generate_fstab_content ps ≡ fstab_header <> concat (fstab_entries ps)
unfolding generate_fstab_content
generate_fstab_content_lem ps = add_entries-concat ps fstab_header

-- A partition has no entry exactly when its file system is swap, under either name and in any case.
pub gen_fstab_entry-none_iff :
    (p : Partition) → (gen_fstab_entry p ≡ none) ↔ (get_converted_fs p.fstype ≡ "swap")
unfolding gen_fstab_entry
gen_fstab_entry-none_iff p = (
  λ h. ground (arith, eq_iff (get_converted_fs p.fstype) "swap"),
  λ h. ground (arith, eq_iff (get_converted_fs p.fstype) "swap"),
)
