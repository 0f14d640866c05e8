-- ===== src/Installer/Disk/Default.antt =====
-- The default subvolumes of a btrfs root.
use new_cli_installer.Base.{
  ◌≡◌, refl, ap, ◌∙◌, Bool, true, false, not, ◌||◌, some, is_some, List, any, Bool-cases,
  Option-cases, inl, inr, arith,
}
use new_cli_installer.Base.Sort.{Sorter, Sorted, less_by}
use new_cli_installer.Disk.{Partition}
use new_cli_installer.Disk.Btrfs.{find_root_btrfs_part, btrfs_append_subvolumes}
use new_cli_installer.Disk.Btrfs.Append.{AllApart, AllHeld, btrfs_append_subvolumes-AllHeld}
use new_cli_installer.Disk.Btrfs.Defined.{lasting, has_root, btrfs_append_subvolumes-root}
use new_cli_installer.Sys.{Os, dialog}
use new_cli_installer.Sys.Io.{exec}
use new_cli_installer.Installer.State.{State, Run, if_ndevenv, ◌>>◌}
use new_cli_installer.Installer.System.{output}
use new_cli_installer.Installer.Disk.{
  default_subvolumes, append_subvols, create_and_append, create_automatically, btrfs_create_subvols,
  default_note, mount_options_command,
}

-- The default subvolumes differ in their names and in their mountpoints.
default-AllApart : AllApart default_subvolumes
unfolding default_subvolumes
default-AllApart = ground arith

-- The scheme that the default subvolumes lead to.
abbrev pub IsDefault : Sorter → List Partition → List Partition → Type 0
IsDefault sorter ps ps' =
    (btrfs_append_subvolumes sorter ps default_subvolumes ≡ some (true, ps'))
    × AllHeld default_subvolumes ps'
    × Sorted (less_by (λ p. p.device)) ps'
    × (is_some (find_root_btrfs_part ps') ≡ true)

module _ (sorter : Sorter) (ps : List Partition)
    (k : any (lasting default_subvolumes) ps ≡ true) where
  default_scheme : (ps' : List Partition) × IsDefault sorter ps ps'
  unfolding default_subvolumes
  default_scheme =
      let (ps', e, root) = btrfs_append_subvolumes-root sorter ps _ _ default-AllApart k in
      let (_, held, sorted) =
        btrfs_append_subvolumes-AllHeld sorter ps _ _ (has_root default_subvolumes ps k)
          default-AllApart e in
      (ps', (e, held, sorted, root))

  append_default :
      (os : Os) (s : State)
      → append_subvols sorter ps default_subvolumes os s ≡ (some (default_scheme.0), s)
  unfolding append_subvols
  append_default os s =
      let (ps', (e, _, _, root)) = default_scheme in
      elim (Option-cases (find_root_btrfs_part ps')) [
        | inl gone ↦ absurd (cc (rw gone at root))
        | inr (p, there) ↦ rw (append_subvols, e, there) refl
      ]

-- The note about the subvolumes is not shown, or the user accepts it.
abbrev pub accepted : Bool → Os → State → Bool
accepted ignore_note os s =
    ignore_note
    || (not os.ndevenv
        || os.succeeds (exec mount_options_command false os s.log).1 (dialog default_note))

-- The partitions where the subvolumes are created and where they are declined.
abbrev pub Outcome : Bool → Sorter → List Partition → List Partition → Type 0
Outcome true sorter ps ps' = IsDefault sorter ps ps'
Outcome false sorter ps ps' = ps' ≡ ps

if_built :
    (action other : Run (List Partition)) (os : Os) (s : State)
    → os.ndevenv ≡ true
    → if_ndevenv action other os s ≡ action os s
if_built action other os s h = rw h refl

-- In automatic mode the call returns for every answer of the system. If the note is ignored or accepted,
-- or the build is without NDEVENV, the partitions are then the scheme with the default subvolumes: every
-- subvolume has its partition, they are sorted by device, and there is still a btrfs root to read, if
-- there was one whose name no default subvolume has that is mounted elsewhere. If the user declines the
-- note, they are unchanged.
pub btrfs_create_subvols-Outcome :
    (sorter : Sorter) (ps : List Partition) (ignore_note : Bool) (os : Os) (s : State)
    → any (lasting default_subvolumes) ps ≡ true
    → (ps' : List Partition) × ((btrfs_create_subvols sorter ps "automatic" ignore_note os s).0
        ≡ some ps')
      × Outcome (accepted ignore_note os s) sorter ps ps'
unfolding btrfs_create_subvols create_automatically create_and_append
btrfs_create_subvols-Outcome sorter ps ignore_note os s k =
    let (ps', default) = default_scheme sorter ps k in
    let action : Partition → Run (List Partition) = λ root_part.
      output mount_options_command >> create_automatically sorter ps root_part ignore_note in
    elim (Option-cases (find_root_btrfs_part ps)) [
      | inl gone ↦ absurd (cc (has_root default_subvolumes ps k, gone))
      | inr (root_part, there) ↦ elim (Bool-cases os.ndevenv) [
        | inr other ↦ (
          ps',
          rw (there, other, append_default sorter ps k) refl,
          rw other (elim (Bool-cases ignore_note) [
            | inl ignored ↦ rw ignored default
            | inr shown ↦ rw shown default
          ]),
        )
        | inl built ↦ elim (Bool-cases ignore_note) [
          | inl ignored ↦
              (ps', rw (there, built, ignored, append_default sorter ps k) refl, rw ignored default)
          | inr shown ↦
              elim (Bool-cases
                (os.succeeds (exec mount_options_command false os s.log).1 (dialog default_note))) [
                  | inl taken ↦ (
                    ps',
                    rw there (
                        ap (λ r. r.0)
                          (if_built (action root_part) (append_subvols sorter ps default_subvolumes)
                            os s built)
                        ∙ rw (shown, taken, append_default sorter ps k) refl),
                    rw (shown, taken, built) default,
                  )
                  | inr declined ↦ (
                    ps,
                    rw there (
                        ap (λ r. r.0)
                          (if_built (action root_part) (append_subvols sorter ps default_subvolumes)
                            os s built)
                        ∙ rw (shown, declined) refl),
                    rw (shown, declined, built) refl,
                  )
                ]
        ]
      ]
    ]
