-- ===== src/Installer/Settings/Partitions.antt =====
-- The partitions of settings.json as the texts in READY_PARTITIONS, and reading them back.
use new_cli_installer.Base.{
  String, ◌==◌, ◌<>◌, ◌≡◌, refl, sym, true, false, some, [], ◌∷◌, All, Bool-cases, inl, inr,
  contains, eq_iff, arith,
}
use new_cli_installer.Lines.{make_multiline, join}
use new_cli_installer.Lines.Split.{IsLine, make_multiline-join}
use new_cli_installer.Installer.Settings.{
  RapidJson, ready, valid_types, part_data, string_member, read_part_fs, lacks_fs_name, check_entry,
  read_entry,
}

-- A part of the text that is read back: not empty, and without a tab.
abbrev pub IsPart : String → Type 0
IsPart = IsLine "\t"

part_data-join : (a b c d e : String) → part_data a b c d e ≡ join (a ∷ b ∷ c ∷ d ∷ e ∷ []) "\t"
unfolding part_data join ◌<>◌
part_data-join a b c d e = refl

-- The types of partitions are such parts.
valid_type-IsPart : (part_type : String) → contains valid_types part_type ≡ true → IsPart part_type
valid_type-IsPart part_type h = elim (Bool-cases ("root" == part_type)) [
  | inl e ↦ let e' = (eq_iff "root" part_type).0 e in rw (sym e') (ground arith)
  | inr n ↦ elim (Bool-cases ("boot" == part_type)) [
    | inl e ↦ let e' = (eq_iff "boot" part_type).0 e in rw (sym e') (ground arith)
    | inr n' ↦ elim (Bool-cases ("additional" == part_type)) [
      | inl e ↦ let e' = (eq_iff "additional" part_type).0 e in rw (sym e') (ground arith)
      | inr n'' ↦ absurd (cc (rw (n, n', n'') at h))
    ]
  ]
]

module _ (json : RapidJson) (partition_map : json.Json) (root_fstype : String) where
  check_entry_ready :
      (name mountpoint size part_type : String) {part_fs_name line : String}
      → read_part_fs json partition_map root_fstype part_type ≡ some part_fs_name
      → check_entry json partition_map root_fstype name mountpoint size part_type ≡ ready line
      → (contains valid_types part_type ≡ true)
        × (line ≡ part_data name mountpoint size part_fs_name part_type)
  unfolding check_entry
  check_entry_ready name mountpoint size part_type fs h =
      elim (Bool-cases (contains valid_types part_type)) [
        | inr bad ↦ absurd (cc (rw (check_entry, bad) at h))
        | inl valid ↦ elim (Bool-cases (lacks_fs_name json partition_map root_fstype part_type)) [
          | inl bad ↦ absurd (cc (rw (check_entry, valid, bad) at h))
          | inr fine ↦ (valid, cc (rw (check_entry, valid, fine, fs) at h))
        ]
      ]

  read_entry_ready :
      {name mountpoint size part_type part_fs_name line : String}
      → string_member json partition_map "name" ≡ some name
      → string_member json partition_map "mountpoint" ≡ some mountpoint
      → string_member json partition_map "size" ≡ some size
      → string_member json partition_map "type" ≡ some part_type
      → read_part_fs json partition_map root_fstype part_type ≡ some part_fs_name
      → read_entry json partition_map root_fstype ≡ ready line
      → (contains valid_types part_type ≡ true)
        × (line ≡ part_data name mountpoint size part_fs_name part_type)
  unfolding read_entry
  read_entry_ready n m s t fs h = elim (Bool-cases (json.is_object partition_map)) [
    | inr bad ↦ absurd (cc (rw (read_entry, bad) at h))
    | inl object ↦ check_entry_ready _ _ _ _ fs (rw (read_entry, object, n, m, s, t) at h)
  ]

  -- A partition of settings.json that is taken has a valid type, and splitting its text at the tabs,
  -- as the installation does, gives its five parts, if they are not empty and have no tab.
  pub read_entry-make_multiline :
      {name mountpoint size part_type part_fs_name line : String}
      → string_member json partition_map "name" ≡ some name
      → string_member json partition_map "mountpoint" ≡ some mountpoint
      → string_member json partition_map "size" ≡ some size
      → string_member json partition_map "type" ≡ some part_type
      → read_part_fs json partition_map root_fstype part_type ≡ some part_fs_name
      → read_entry json partition_map root_fstype ≡ ready line
      → All IsPart (name ∷ mountpoint ∷ size ∷ part_fs_name ∷ [])
      → (contains valid_types part_type ≡ true)
        × (make_multiline line false "\t"
            ≡ name ∷ mountpoint ∷ size ∷ part_fs_name ∷ part_type ∷ [])
  read_entry-make_multiline n m s t fs h (pn, (pm, (ps, (pf, _)))) =
      let (valid, e) = read_entry_ready n m s t fs h in
      (
        valid,
        rw (e, part_data-join)
            (make_multiline-join "\t" _ (pn, (pm, (ps, (pf, (valid_type-IsPart _ valid, tt)))))),
      )
