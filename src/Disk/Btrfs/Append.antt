-- ===== src/Disk/Btrfs/Append.antt =====
-- What `btrfs_append_subvolumes` does to a scheme.
use new_cli_installer.Base.{
  String, ◌==◌, ◌≡◌, refl, sym, ◌∙◌, Bool, true, false, ◌&&◌, ◌||◌, Option, none, some, List, [],
  ◌∷◌, ◌++◌, is_some, any, arith, Bool-cases, Option-cases, inl, inr, eq_iff, eq_refl, All,
  any-perm,
}
use new_cli_installer.Base.Sort.{Sorter, less_by, less_by-StrictWeak, Sorted}
use new_cli_installer.Disk.{Partition}
use new_cli_installer.Disk.Btrfs.{
  BtrfsSubvolume, has_subvolume, find_partition, find_root_btrfs_part, overwrite, based_on,
  append_subvolume, append_each, btrfs_append_subvolumes,
}

-- The partition is the subvolume's: it is mounted there and names it.
abbrev pub holds : BtrfsSubvolume → Partition → Bool
holds subvol p = p.mountpoint == subvol.mountpoint && has_subvolume p.subvolume subvol.subvolume

-- Two subvolumes share neither their name nor their mountpoint.
abbrev pub Apart : BtrfsSubvolume → BtrfsSubvolume → Type 0
Apart a b = ((a.mountpoint == b.mountpoint) ≡ false) × ((a.subvolume == b.subvolume) ≡ false)

-- All subvolumes of the list are pairwise apart.
abbrev pub AllApart : List BtrfsSubvolume → Type 0
AllApart [] = Unit
AllApart (b ∷ bs) = All (Apart b) bs × AllApart bs

-- Every subvolume of the list is held by some partition.
abbrev pub AllHeld : List BtrfsSubvolume → List Partition → Type 0
AllHeld subvols ps = All (λ subvol. any (holds subvol) ps ≡ true) subvols

pub any-append :
    (f : Partition → Bool) (xs ys : List Partition) → any f (xs ++ ys) ≡ (any f xs || any f ys)
any-append f [] ys = refl
any-append f (x ∷ xs) ys = ground (arith, any-append f xs ys)

unfoldable pub taken : BtrfsSubvolume → Partition → Partition
taken subvol p = record p { mountpoint = subvol.mountpoint; subvolume = some subvol.subvolume }

holds-taken : (subvol : BtrfsSubvolume) (p : Partition) → holds subvol (taken subvol p) ≡ true
unfolding taken
holds-taken subvol p = rw (eq_refl subvol.mountpoint, eq_refl subvol.subvolume)

holds-based_on : (subvol : BtrfsSubvolume) (p : Partition) → holds subvol (based_on p subvol) ≡ true
unfolding based_on
holds-based_on subvol p = rw (eq_refl subvol.mountpoint, eq_refl subvol.subvolume)

pub overwrite_hit :
    (subvol : BtrfsSubvolume) (p : Partition) (ps : List Partition)
    → find_partition p subvol ≡ true
    → overwrite subvol (p ∷ ps) ≡ some (taken subvol p ∷ ps)
unfolding overwrite taken
overwrite_hit subvol p ps h = rw h

pub overwrite_miss :
    (subvol : BtrfsSubvolume) (p : Partition) (ps : List Partition) (qs : List Partition)
    → find_partition p subvol ≡ false
    → overwrite subvol ps ≡ some qs
    → overwrite subvol (p ∷ ps) ≡ some (p ∷ qs)
unfolding overwrite
overwrite_miss subvol p ps qs h e = rw (h, e)

pub overwrite_gone :
    (subvol : BtrfsSubvolume) (p : Partition) (ps : List Partition)
    → find_partition p subvol ≡ false
    → overwrite subvol ps ≡ none
    → overwrite subvol (p ∷ ps) ≡ none
unfolding overwrite
overwrite_gone subvol p ps h e = rw (h, e)

-- Overwriting gives the subvolume a partition.
overwrite-holds :
    (subvol : BtrfsSubvolume) (ps : List Partition) {ps' : List Partition}
    → overwrite subvol ps ≡ some ps'
    → any (holds subvol) ps' ≡ true
overwrite-holds subvol [] h = absurd (unfold overwrite in cc)
overwrite-holds subvol (p ∷ ps) {ps'} h = elim (Bool-cases (find_partition p subvol)) [
  | inl found ↦
      let e : taken subvol p ∷ ps ≡ ps' = cc (overwrite_hit subvol p ps found) in
      rw (sym e) (ground (arith, holds-taken subvol p))
  | inr other ↦ elim (Option-cases (overwrite subvol ps)) [
    | inl gone ↦ absurd (cc (overwrite_gone subvol p ps other gone))
    | inr (qs, e) ↦
        let e' : p ∷ qs ≡ ps' = cc (overwrite_miss subvol p ps qs other e) in
        rw (sym e') (ground (arith, overwrite-holds subvol ps e))
  ]
]

-- A partition that another subvolume takes was not held by a subvolume apart from it.
eq_apart : (x y z : String) → (x == y) ≡ false → (z == y) ≡ true → (z == x) ≡ false
eq_apart x y z d h = elim (Bool-cases (z == x)) [
  | inl e ↦ absurd (cc (rw ((eq_iff z x).0 e) at h))
  | inr n ↦ n
]

has_subvolume_apart :
    (x y : String) (o : Option String)
    → (x == y) ≡ false
    → has_subvolume o y ≡ true
    → has_subvolume o x ≡ false
has_subvolume_apart x y none d h = refl
has_subvolume_apart x y (some z) d h = eq_apart x y z d h

Apart-holds :
    (a b : BtrfsSubvolume) (p : Partition)
    → Apart a b
    → find_partition p b ≡ true
    → holds a p ≡ false
unfolding find_partition
Apart-holds a b p (m, s) h = ground (
  arith,
  eq_apart a.mountpoint b.mountpoint p.mountpoint m,
  has_subvolume_apart a.subvolume b.subvolume p.subvolume s,
)

-- Overwriting leaves the partitions of subvolumes that are apart.
overwrite-keeps :
    (a b : BtrfsSubvolume) (ps : List Partition) {ps' : List Partition}
    → Apart a b
    → overwrite b ps ≡ some ps'
    → any (holds a) ps ≡ true
    → any (holds a) ps' ≡ true
overwrite-keeps a b [] d h k = absurd (cc)
overwrite-keeps a b (p ∷ ps) {ps'} d h k = elim (Bool-cases (find_partition p b)) [
  | inl found ↦
      let e : taken b p ∷ ps ≡ ps' = cc (overwrite_hit b p ps found) in
      rw (sym e) (ground (arith, Apart-holds a b p d found))
  | inr other ↦ elim (Option-cases (overwrite b ps)) [
    | inl gone ↦ absurd (cc (overwrite_gone b p ps other gone))
    | inr (qs, e) ↦
        let e' : p ∷ qs ≡ ps' = cc (overwrite_miss b p ps qs other e) in
        rw (sym e') (elim (Bool-cases (holds a p)) [
          | inl here ↦ rw here
          | inr there ↦ rw there (overwrite-keeps a b ps d e (rw there at k))
        ])
  ]
]

append_subvolume-holds :
    (subvol : BtrfsSubvolume) (ps : List Partition) {ps' : List Partition}
    → append_subvolume subvol ps ≡ some ps'
    → any (holds subvol) ps' ≡ true
unfolding append_subvolume
append_subvolume-holds subvol ps {ps'} h = elim (Option-cases (overwrite subvol ps)) [
  | inl gone ↦ elim (Option-cases (find_root_btrfs_part ps)) [
    | inl e ↦ absurd (cc (rw (append_subvolume, gone, e) at h))
    | inr (root, e) ↦
        let e' : ps ++ based_on root subvol ∷ [] ≡ ps' = cc (rw (append_subvolume, gone, e) at h) in
        rw (sym e', any-append (holds subvol) ps, holds-based_on subvol root) (ground arith)
  ]
  | inr (qs, e) ↦ overwrite-holds subvol ps (cc (rw (append_subvolume, e) at h))
]

append_subvolume-keeps :
    (a b : BtrfsSubvolume) (ps : List Partition) {ps' : List Partition}
    → Apart a b
    → append_subvolume b ps ≡ some ps'
    → any (holds a) ps ≡ true
    → any (holds a) ps' ≡ true
unfolding append_subvolume
append_subvolume-keeps a b ps {ps'} d h k = elim (Option-cases (overwrite b ps)) [
  | inl gone ↦ elim (Option-cases (find_root_btrfs_part ps)) [
    | inl e ↦ absurd (cc (rw (append_subvolume, gone, e) at h))
    | inr (root, e) ↦
        let e' : ps ++ based_on root b ∷ [] ≡ ps' = cc (rw (append_subvolume, gone, e) at h) in
        rw (sym e', any-append (holds a) ps, k) refl
  ]
  | inr (qs, e) ↦ overwrite-keeps a b ps d (cc (rw (append_subvolume, e) at h)) k
]

append_each-keeps :
    (a : BtrfsSubvolume) (subvols : List BtrfsSubvolume) (ps : List Partition)
    {ps' : List Partition}
    → All (Apart a) subvols
    → append_each subvols ps ≡ some ps'
    → any (holds a) ps ≡ true
    → any (holds a) ps' ≡ true
unfolding append_each
append_each-keeps a [] ps {ps'} d h k = let e : ps ≡ ps' = cc in rw (sym e) k
append_each-keeps a (b ∷ bs) ps (d, ds) h k = elim (Option-cases (append_subvolume b ps)) [
  | inl gone ↦ absurd (cc (rw (append_each, gone) at h))
  | inr (qs, e) ↦
      append_each-keeps a bs qs ds (rw (append_each, e) at h) (append_subvolume-keeps a b ps d e k)
]

append_each-AllHeld :
    (subvols : List BtrfsSubvolume) (ps : List Partition) {ps' : List Partition}
    → AllApart subvols
    → append_each subvols ps ≡ some ps'
    → AllHeld subvols ps'
unfolding append_each
append_each-AllHeld [] ps d h = tt
append_each-AllHeld (b ∷ bs) ps {ps'} (d, ds) h = elim (Option-cases (append_subvolume b ps)) [
  | inl gone ↦ absurd (cc (rw (append_each, gone) at h))
  | inr (qs, e) ↦
      let rest : append_each bs qs ≡ some ps' = rw (append_each, e) at h in
      (
        append_each-keeps b bs qs d rest (append_subvolume-holds b ps e),
        append_each-AllHeld bs qs ds rest,
      )
]

All-map :
    {P Q : BtrfsSubvolume → Type 0} (xs : List BtrfsSubvolume)
    → ((a : BtrfsSubvolume) → P a → Q a)
    → All P xs
    → All Q xs
All-map [] f h = tt
All-map (x ∷ xs) f (h, hs) = (f x h, All-map xs f hs)

-- If there is a btrfs root and the subvolumes differ in their names and in their mountpoints, then
-- whenever the call returns it returns true, every subvolume has a partition that is mounted at the
-- subvolume's mountpoint and names it, and the partitions are sorted by device.
pub btrfs_append_subvolumes-AllHeld :
    (sorter : Sorter) (ps : List Partition) (subvol : BtrfsSubvolume)
    (subvols : List BtrfsSubvolume) {ok : Bool} {ps' : List Partition}
    → is_some (find_root_btrfs_part ps) ≡ true
    → AllApart (subvol ∷ subvols)
    → btrfs_append_subvolumes sorter ps (subvol ∷ subvols) ≡ some (ok, ps')
    → (ok ≡ true) × AllHeld (subvol ∷ subvols) ps' × Sorted (less_by (λ p. p.device)) ps'
unfolding btrfs_append_subvolumes
btrfs_append_subvolumes-AllHeld sorter ps subvol subvols {ok} {ps'} r d h =
    elim (Option-cases (append_each (subvol ∷ subvols) ps)) [
      | inl gone ↦ absurd (cc (rw (r, gone) at h))
      | inr (qs, e) ↦
          let by_device : Partition → Partition → Bool = less_by (λ p. p.device) in
          let e' : some (true, sorter.sort Partition by_device qs) ≡ some (ok, ps') =
            rw (r, e) at h in
          let sorted : sorter.sort Partition by_device qs ≡ ps' = cc e' in
          let held : AllHeld (subvol ∷ subvols) ps' =
            All-map (subvol ∷ subvols)
              (λ a k.
                rw (sym sorted) (any-perm (holds a) (sorter.sort-perm Partition by_device qs) ∙ k))
              (append_each-AllHeld (subvol ∷ subvols) ps d e) in
          (
            cc e',
            held,
            rw (sym sorted) (sorter.sort-Sorted Partition by_device (less_by-StrictWeak _) qs),
          )
    ]
