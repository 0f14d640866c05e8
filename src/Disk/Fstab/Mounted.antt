-- ===== src/Disk/Fstab/Mounted.antt =====
-- The text of /etc/fstab as the reader of mount tables, gucc/src/mtab.cpp, reads it.
use new_cli_installer.Base.{
  String, ◌<>◌, ◌≡◌, inl, inr, refl, sym, ap, ◌∙◌, false, Option, none, some, List, [], ◌∷◌, ◌++◌,
  if◌then◌else◌, starts_with, concat, pad_right, All, arith, Option-cases,
}
use new_cli_installer.Lines.{make_split_view}
use new_cli_installer.Lines.Words.{view-delim, view-line_literal}
use new_cli_installer.Disk.{Partition}
use new_cli_installer.Disk.Mtab.{
  MTabEntry, fields_entry, line_entry, append_entries, lines_entries, parse_mtab_content,
}
use new_cli_installer.Disk.Fstab.{fstab_header, device_str, gen_fstab_entry, generate_fstab_content}
use new_cli_installer.Disk.Fstab.Content.{
  own_entry, cons_entry, fstab_entries, generate_fstab_content_lem,
}
use new_cli_installer.Disk.Fstab.Fields.{
  IsPlain, entry_line, entry_text, entry-text, entry_line-IsLine, entry_line-fields,
  entry_text-lines, is_empty-<>, starts_with_hash-<>,
}

-- The entry of the mount table that a partition's line is read as.
abbrev pub mounted : Partition → String → List MTabEntry
mounted p root =
    if starts_with p.mountpoint root
    then record { device = device_str p; mountpoint = p.mountpoint } ∷ []
    else []

line_entry-comment : (device root : String) → line_entry ("# " <> device) root ≡ some []
unfolding line_entry ◌<>◌ starts_with
line_entry-comment device root = refl

entry_line-starts_with : (p : Partition) → IsPlain p → starts_with (entry_line p) "#" ≡ false
unfolding entry_line pad_right
entry_line-starts_with p f =
    starts_with_hash-<> _ _ (is_empty-<> _ _ f.spec.filled)
    ∙ starts_with_hash-<> _ _ f.spec.filled
    ∙ f.spec.no_comment

line_entry-entry_line :
    (p : Partition) (root : String)
    → IsPlain p
    → line_entry (entry_line p) root ≡ some (mounted p root)
unfolding line_entry fields_entry
line_entry-entry_line p root f =
    rw (entry_line-IsLine p f).0
      (rw (entry_line-starts_with p f, entry_line-fields p f, f.spec.no_comment) (ground arith))

abbrev of_entry : Option String → Partition → String → List MTabEntry
of_entry none p root = []
of_entry (some _) p root = mounted p root

-- The entries that the partitions with a line are read as.
abbrev pub mounted_all : List Partition → String → List MTabEntry
mounted_all [] root = []
mounted_all (p ∷ ps) root = of_entry (own_entry p) p root ++ mounted_all ps root

own_entry-gen : (p : Partition) {e : String} → own_entry p ≡ some e → gen_fstab_entry p ≡ some e
own_entry-gen p h = ground arith

append_entries-nil : (found : Option (List MTabEntry)) → append_entries (some []) found ≡ found
unfolding append_entries
append_entries-nil none = refl
append_entries-nil (some found) = refl

-- A line that gives no entry is as good as absent.
lines_entries-skip :
    (line : String) (lines : List String) (root : String)
    → line_entry line root ≡ some []
    → lines_entries (line ∷ lines) root ≡ lines_entries lines root
unfolding lines_entries
lines_entries-skip line lines root h = rw h (append_entries-nil _)

entry_text-entries :
    (p : Partition) (rest root : String)
    → IsPlain p
    → lines_entries (make_split_view (entry_text p rest) "\n") root
      ≡ append_entries (some (mounted p root)) (lines_entries (make_split_view rest "\n") root)
entry_text-entries p rest root f =
    rw (entry_text-lines p rest f, lines_entries-skip _ _ root (line_entry-comment p.device root))
      (unfold lines_entries in rw (line_entry-entry_line p root f))

entries-cons :
    (p : Partition) (rest : List String) (root : String)
    → IsPlain p
    → lines_entries (make_split_view (concat (cons_entry (own_entry p) rest)) "\n") root
      ≡ append_entries
          (some (of_entry (own_entry p) p root))
          (lines_entries (make_split_view (concat rest) "\n") root)
entries-cons p rest root f = elim (Option-cases (own_entry p)) [
  | inl skipped ↦ rw skipped (sym (append_entries-nil _))
  | inr (e, h) ↦ rw h (
      unfold concat in
      rw (entry-text p (concat rest) (own_entry-gen p h))
        (entry_text-entries p (concat rest) root f))
]

entries-mounted :
    (ps : List Partition) (root : String)
    → All IsPlain ps
    → lines_entries (make_split_view (concat (fstab_entries ps)) "\n") root
      ≡ some (mounted_all ps root)
entries-mounted [] root f = unfold concat lines_entries make_split_view in refl
entries-mounted (p ∷ ps) root (f, fs) =
    rw (entries-cons p (fstab_entries ps) root f, entries-mounted ps root fs)
      (unfold append_entries in refl)

header-view :
    (s : String)
    → make_split_view (fstab_header <> s) "\n"
      ≡ "# Static information about the filesystems."
        ∷ "# See fstab(5) for details."
        ∷ "# <file system> <dir> <type> <options> <dump> <pass>"
        ∷ make_split_view s "\n"
unfolding ◌<>◌
header-view s =
    view-line_literal "\n" "# Static information about the filesystems." _ refl refl
    ∙ ap (λ l. "# Static information about the filesystems." ∷ l)
        (view-line_literal "\n" "# See fstab(5) for details." _ refl refl
          ∙ ap (λ l. "# See fstab(5) for details." ∷ l)
              (view-delim "\n" _
                ∙ view-line_literal "\n" "# <file system> <dir> <type> <options> <dump> <pass>" s
                    refl refl))

header_comments :
    (root : String)
    → (line_entry "# Static information about the filesystems." root ≡ some [])
      × (line_entry "# See fstab(5) for details." root ≡ some [])
      × (line_entry "# <file system> <dir> <type> <options> <dump> <pass>" root ≡ some [])
unfolding line_entry starts_with
header_comments root = (refl, refl, refl)

-- The table of file systems that the installer writes is read back by its reader of mount tables:
-- for partitions whose fields are plain, the entries are those of the partitions with a line, each
-- with its device field and mountpoint, as far as they lie below the root, and in their order.
pub parse_mtab_content-generate_fstab_content :
    (ps : List Partition) (root : String)
    → All IsPlain ps
    → parse_mtab_content (generate_fstab_content ps) root ≡ some (mounted_all ps root)
unfolding parse_mtab_content
parse_mtab_content-generate_fstab_content ps root f =
    rw
      (
        generate_fstab_content_lem,
        header-view,
        lines_entries-skip _ _ root (header_comments root).0,
        lines_entries-skip _ _ root (header_comments root).1,
        lines_entries-skip _ _ root (header_comments root).2,
      )
      (entries-mounted ps root f)
