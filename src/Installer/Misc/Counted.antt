-- ===== src/Installer/Misc/Counted.antt =====
-- src/misc.cpp: the partitions and their number behind a mount.
use new_cli_installer.Base.{
  ℕ, ◌+◌, suc, zero, String, ◌<>◌, ◌≡◌, Option, refl, Bool, true, false, not, some, List, [], ◌∷◌,
  if◌then◌else◌, length, keep_if, contains_text, arith, Bool-cases, inl, inr,
}
use new_cli_installer.Base.Decimal.{pos}
use new_cli_installer.Sys.{Os}
use new_cli_installer.Sys.Io.{exec_checked}
use new_cli_installer.Installer.Misc.{minus_one, drop_mounted, confirm_mount}
use new_cli_installer.Installer.State.{
  Config, State, text, number, texts, get_text, get_texts, get_number, set,
}

-- The lines with the text of a partition.
abbrev pub lines_of : String → List String → List String
lines_of partition ps = keep_if (λ x. contains_text x partition) ps

-- The lines without it.
abbrev pub others_of : String → List String → List String
others_of partition ps = keep_if (λ x. not (contains_text x partition)) ps

length-others_of :
    (partition : String) (ps : List String)
    → length (others_of partition ps) + length (lines_of partition ps) ≡ length ps
length-others_of partition [] = refl
length-others_of partition (p ∷ ps) =
    let rest = length-others_of partition ps in
    elim (Bool-cases (contains_text p partition)) [
      | inl has ↦ rw (has) (omega arith)
      | inr lacks ↦ rw (lacks) (omega arith)
    ]

minus_one-pos : (m n : ℕ) → m + 1 ≡ n → minus_one (pos n) ≡ pos m
minus_one-pos m zero e = absurd (omega arith)
minus_one-pos m (suc n) e = let same : n ≡ m = omega arith in rw (same) refl

-- The partitions behind a mount that was confirmed or not.
abbrev pub left_by : Bool → String → List String → List String
left_by confirmed partition ps = if confirmed then others_of partition ps else ps

abbrev pub Confirmed : Option Bool → String → List String → Config → Type 0
Confirmed result partition ps config =
    (confirmed : Bool) × (result ≡ some confirmed)
    × (config "PARTITIONS" ≡ texts (left_by confirmed partition ps))
    × (config "NUMBER_PARTITIONS" ≡ number (pos (length (left_by confirmed partition ps))))

drop_mounted-Confirmed :
    (partition : String) (ps : List String) (os : Os) (s : State)
    → s.config "PARTITION" ≡ text partition
    → s.config "PARTITIONS" ≡ texts ps
    → s.config "NUMBER_PARTITIONS" ≡ number (pos (length ps))
    → length (lines_of partition ps) ≡ 1
    → Confirmed (drop_mounted os s).0 partition ps (drop_mounted os s).1.config
unfolding drop_mounted get_text get_texts get_number set
drop_mounted-Confirmed partition ps os s part listed counted one =
    let fewer =
      minus_one-pos (length (others_of partition ps)) (length ps)
        (rw (one) at (length-others_of partition ps)) in
    simp (part, listed, counted, fewer) (true, refl, refl, refl)

-- A call of confirm_mount returns, if the number of partitions is how many are listed and the text of
-- the partition in the settings stands in exactly one line. Confirmed, it leaves the other lines in
-- their order, and else all of them; and the number is still how many are listed.
pub confirm_mount-Confirmed :
    (part_user partition : String) (quite : Bool) (ps : List String) (os : Os) (s : State)
    → s.config "PARTITION" ≡ text partition
    → s.config "PARTITIONS" ≡ texts ps
    → s.config "NUMBER_PARTITIONS" ≡ number (pos (length ps))
    → length (lines_of partition ps) ≡ 1
    → let r = confirm_mount part_user quite os s in Confirmed r.0 partition ps r.1.config
unfolding confirm_mount
confirm_mount-Confirmed part_user partition quite ps os s part listed counted one =
    let request = exec_checked ("mount | grep -q " <> part_user) os s.log in
    let asked : State = record { config = s.config; log = request.1 } in
    let dropped = drop_mounted-Confirmed partition ps os s part listed counted one in
    let dropped_asked = drop_mounted-Confirmed partition ps os asked part listed counted one in
    elim (Bool-cases quite) [
      | inl q ↦ elim (Bool-cases os.ndevenv) [
        | inl built ↦ simp (built, q) dropped_asked
        | inr other ↦ simp (other, q) dropped
      ]
      | inr q ↦ elim (Bool-cases os.ndevenv) [
        | inl built ↦ elim (Bool-cases request.0) [
          | inl mounted ↦ simp (built, mounted, q) dropped_asked
          | inr failed ↦ simp (built, failed, q) (false, refl, listed, counted)
        ]
        | inr other ↦ simp (other, q) dropped
      ]
    ]
