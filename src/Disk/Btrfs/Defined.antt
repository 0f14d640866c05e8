-- ===== src/Disk/Btrfs/Defined.antt =====
-- When `btrfs_append_subvolumes` never reads beyond the end of the partitions.
use new_cli_installer.Base.{
  String, ◌==◌, ◌≡◌, refl, sym, ap, ◌∙◌, Bool, true, false, not, ◌&&◌, ◌||◌, some, List, [], ◌∷◌,
  ◌++◌, is_some, any, arith, Bool-cases, Option-cases, inl, inr, eq_iff, All, any-perm,
}
use new_cli_installer.Base.Sort.{Sorter, less_by}
use new_cli_installer.Disk.{Partition}
use new_cli_installer.Disk.Btrfs.{
  BtrfsSubvolume, has_subvolume, find_partition, is_root_btrfs_part, find_root_btrfs_part,
  overwrite, based_on, append_subvolume, append_each, btrfs_append_subvolumes,
}
use new_cli_installer.Disk.Btrfs.Append.{
  Apart, AllApart, taken, overwrite_hit, overwrite_miss, overwrite_gone, any-append,
}

-- A btrfs root whose name none of the subvolumes has that are mounted elsewhere.
abbrev pub lasting : List BtrfsSubvolume → Partition → Bool
lasting [] p = is_root_btrfs_part p
lasting (a ∷ bs) p =
    ((a.mountpoint == "/") || not (has_subvolume p.subvolume a.subvolume)) && lasting bs p

lasting-root :
    (bs : List BtrfsSubvolume) (p : Partition) → lasting bs p ≡ true → is_root_btrfs_part p ≡ true
lasting-root [] p h = h
lasting-root (b ∷ bs) p h = lasting-root bs p (ground arith)

eq_chain : (x y z : String) → (z == x) ≡ true → (z == y) ≡ true → (x == y) ≡ true
eq_chain x y z h k = ap (λ t. t == y) (sym ((eq_iff z x).0 h)) ∙ k

taken-lasting :
    (a : BtrfsSubvolume) (bs : List BtrfsSubvolume) (p : Partition)
    → All (Apart a) bs
    → is_root_btrfs_part p ≡ true
    → (a.mountpoint == "/") ≡ true
    → lasting bs (taken a p) ≡ true
unfolding taken is_root_btrfs_part
taken-lasting a [] p d r m = ground arith
taken-lasting a (b ∷ bs) p (d, ds) r m = ground (arith, d.1, taken-lasting a bs p ds r m)

hit_mountpoint :
    (a : BtrfsSubvolume) (bs : List BtrfsSubvolume) (p : Partition)
    → find_partition p a ≡ true
    → lasting (a ∷ bs) p ≡ true
    → (a.mountpoint == "/") ≡ true
unfolding find_partition
hit_mountpoint a bs p f l = elim (Bool-cases (a.mountpoint == "/")) [
  | inl e ↦ e
  | inr n ↦
      let r = lasting-root bs p (ground arith) in
      eq_chain a.mountpoint "/" p.mountpoint (ground arith) (root_mountpoint p r)
]
  where
    root_mountpoint : (q : Partition) → is_root_btrfs_part q ≡ true → (q.mountpoint == "/") ≡ true
    root_mountpoint q h = unfold is_root_btrfs_part in ground arith

any_later :
    (bs : List BtrfsSubvolume) (p : Partition) (ps : List Partition)
    → any (lasting bs) ps ≡ true
    → any (lasting bs) (p ∷ ps) ≡ true
any_later bs p ps h = ground arith

rest_of :
    (bs : List BtrfsSubvolume) (p : Partition) (ps : List Partition)
    → lasting bs p ≡ false
    → any (lasting bs) (p ∷ ps) ≡ true
    → any (lasting bs) ps ≡ true
rest_of bs p ps n h = rw n at h

lasting_tail :
    (a : BtrfsSubvolume) (bs : List BtrfsSubvolume) (p : Partition)
    → lasting (a ∷ bs) p ≡ true
    → lasting bs p ≡ true
lasting_tail a bs p h = ground arith

any_weaken :
    (a : BtrfsSubvolume) (bs : List BtrfsSubvolume) (ps : List Partition)
    → any (lasting (a ∷ bs)) ps ≡ true
    → any (lasting bs) ps ≡ true
any_weaken a bs [] h = h
any_weaken a bs (p ∷ ps) h = elim (Bool-cases (lasting (a ∷ bs) p)) [
  | inl here ↦ let l : lasting bs p ≡ true = lasting_tail a bs p here in rw l
  | inr there ↦ any_later bs p ps (any_weaken a bs ps (rest_of (a ∷ bs) p ps there h))
]

-- The first partition after it was taken over, or one behind it.
overwrite-lasting :
    (a : BtrfsSubvolume) (bs : List BtrfsSubvolume) (ps : List Partition) {ps' : List Partition}
    → All (Apart a) bs
    → overwrite a ps ≡ some ps'
    → any (lasting (a ∷ bs)) ps ≡ true
    → any (lasting bs) ps' ≡ true
overwrite-lasting a bs [] d h k = absurd (cc)
overwrite-lasting a bs (p ∷ ps) {ps'} d h k = elim (Bool-cases (find_partition p a)) [
  | inl found ↦
      let e : taken a p ∷ ps ≡ ps' = cc (overwrite_hit a p ps found) in
      rw (sym e) (elim (Bool-cases (lasting (a ∷ bs) p)) [
        | inl here ↦
            let l =
              taken-lasting a bs p d (lasting-root (a ∷ bs) p here)
                (hit_mountpoint a bs p found here) in
            rw l
        | inr there ↦
            any_later bs (taken a p) ps (any_weaken a bs ps (rest_of (a ∷ bs) p ps there k))
      ])
  | inr other ↦ elim (Option-cases (overwrite a ps)) [
    | inl gone ↦ absurd (cc (overwrite_gone a p ps other gone))
    | inr (qs, e) ↦
        let e' : p ∷ qs ≡ ps' = cc (overwrite_miss a p ps qs other e) in
        rw (sym e') (elim (Bool-cases (lasting (a ∷ bs) p)) [
          | inl here ↦ let l : lasting bs p ≡ true = lasting_tail a bs p here in rw l
          | inr there ↦
              any_later bs p qs (overwrite-lasting a bs ps d e (rest_of (a ∷ bs) p ps there k))
        ])
  ]
]

pub append_subvolume-lasting :
    (a : BtrfsSubvolume) (bs : List BtrfsSubvolume) (ps : List Partition) {ps' : List Partition}
    → All (Apart a) bs
    → append_subvolume a ps ≡ some ps'
    → any (lasting (a ∷ bs)) ps ≡ true
    → any (lasting bs) ps' ≡ true
unfolding append_subvolume
append_subvolume-lasting a bs ps {ps'} d h k = elim (Option-cases (overwrite a ps)) [
  | inl gone ↦ elim (Option-cases (find_root_btrfs_part ps)) [
    | inl e ↦ absurd (cc (rw (append_subvolume, gone, e) at h))
    | inr (root, e) ↦
        let e' : ps ++ based_on root a ∷ [] ≡ ps' = cc (rw (append_subvolume, gone, e) at h) in
        rw (sym e', any-append (lasting bs) ps, any_weaken a bs ps k) refl
  ]
  | inr (qs, e) ↦ overwrite-lasting a bs ps d (cc (rw (append_subvolume, e) at h)) k
]

pub has_root :
    (bs : List BtrfsSubvolume) (ps : List Partition)
    → any (lasting bs) ps ≡ true
    → is_some (find_root_btrfs_part ps) ≡ true
unfolding find_root_btrfs_part
has_root bs [] h = absurd (cc)
has_root bs (p ∷ ps) h = elim (Bool-cases (is_root_btrfs_part p)) [
  | inl r ↦ rw r
  | inr n ↦ rw n (has_root bs ps (rest_of bs p ps (not_lasting bs p n) h))
]
  where
    not_lasting :
        (cs : List BtrfsSubvolume) (q : Partition)
        → is_root_btrfs_part q ≡ false
        → lasting cs q ≡ false
    not_lasting cs q m = elim (Bool-cases (lasting cs q)) [
      | inl l ↦ absurd (cc (lasting-root cs q l))
      | inr k ↦ k
    ]

append_subvolume_some :
    (a : BtrfsSubvolume) (bs : List BtrfsSubvolume) (ps : List Partition)
    → any (lasting bs) ps ≡ true
    → is_some (append_subvolume a ps) ≡ true
unfolding append_subvolume
append_subvolume_some a bs ps k = elim (Option-cases (overwrite a ps)) [
  | inl gone ↦ elim (Option-cases (find_root_btrfs_part ps)) [
    | inl e ↦ absurd (cc (has_root bs ps k))
    | inr (root, e) ↦ rw (append_subvolume, gone, e)
  ]
  | inr (qs, e) ↦ rw (append_subvolume, e)
]

append_each_some :
    (subvols : List BtrfsSubvolume) (ps : List Partition)
    → AllApart subvols
    → any (lasting subvols) ps ≡ true
    → is_some (append_each subvols ps) ≡ true
unfolding append_each
append_each_some [] ps d k = refl
append_each_some (b ∷ bs) ps (d, ds) k = elim (Option-cases (append_subvolume b ps)) [
  | inl gone ↦ absurd (cc (append_subvolume_some b (b ∷ bs) ps k))
  | inr (qs, e) ↦
      rw (append_each, e) (append_each_some bs qs ds (append_subvolume-lasting b bs ps d e k))
]

-- The call returns, and never reads beyond the end of the partitions, if the subvolumes differ in
-- their names and in their mountpoints and there is a btrfs root whose name no subvolume has that is
-- mounted elsewhere.
pub btrfs_append_subvolumes_defined :
    (sorter : Sorter) (ps : List Partition) (subvols : List BtrfsSubvolume)
    → AllApart subvols
    → any (lasting subvols) ps ≡ true
    → is_some (btrfs_append_subvolumes sorter ps subvols) ≡ true
unfolding btrfs_append_subvolumes
btrfs_append_subvolumes_defined sorter ps [] d k = refl
btrfs_append_subvolumes_defined sorter ps (b ∷ bs) d k =
    elim (Option-cases (append_each (b ∷ bs) ps)) [
      | inl gone ↦ absurd (cc (append_each_some (b ∷ bs) ps d k))
      | inr (qs, e) ↦ rw (has_root (b ∷ bs) ps k, e)
    ]

-- Behind the loop there is still a btrfs root.
append_each-root :
    (subvols : List BtrfsSubvolume) (ps : List Partition) {ps' : List Partition}
    → AllApart subvols
    → any (lasting subvols) ps ≡ true
    → append_each subvols ps ≡ some ps'
    → any (lasting []) ps' ≡ true
unfolding append_each
append_each-root [] ps {ps'} d k h = let e : ps ≡ ps' = cc in rw (sym e) k
append_each-root (b ∷ bs) ps (d, ds) k h = elim (Option-cases (append_subvolume b ps)) [
  | inl gone ↦ absurd (cc (rw (append_each, gone) at h))
  | inr (qs, e) ↦
      append_each-root bs qs ds (append_subvolume-lasting b bs ps d e k) (rw (append_each, e) at h)
]

-- So there is one after the call, which the installer reads.
pub btrfs_append_subvolumes-root :
    (sorter : Sorter) (ps : List Partition) (b : BtrfsSubvolume) (bs : List BtrfsSubvolume)
    → AllApart (b ∷ bs)
    → any (lasting (b ∷ bs)) ps ≡ true
    → (ps' : List Partition) × (btrfs_append_subvolumes sorter ps (b ∷ bs) ≡ some (true, ps'))
      × (is_some (find_root_btrfs_part ps') ≡ true)
unfolding btrfs_append_subvolumes
btrfs_append_subvolumes-root sorter ps b bs d k = elim (Option-cases (append_each (b ∷ bs) ps)) [
  | inl gone ↦ absurd (cc (append_each_some (b ∷ bs) ps d k))
  | inr (qs, e) ↦
      let by_device : Partition → Partition → Bool = less_by (λ p. p.device) in
      let root = append_each-root (b ∷ bs) ps d k e in
      (
        sorter.sort Partition by_device qs,
        rw (has_root (b ∷ bs) ps k, e) refl,
        has_root [] (sorter.sort Partition by_device qs)
            (any-perm (lasting []) (sorter.sort-perm Partition by_device qs) ∙ root),
      )
]
