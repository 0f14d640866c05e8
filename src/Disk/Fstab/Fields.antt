-- ===== src/Disk/Fstab/Fields.antt =====
-- The lines and the fields of the entries of /etc/fstab.
use new_cli_installer.Base.{
  String, ◌<>◌, ◌≡◌, ◌⊎◌, inl, inr, refl, false, some, [], ◌∷◌, is_empty, starts_with, <>_assoc,
  pad_right, value_or, arith,
}
use new_cli_installer.Base.Decimal.{pos, to_string}
use new_cli_installer.Lines.{make_split_view}
use new_cli_installer.Lines.Split.{Lacks, IsLine}
use new_cli_installer.Lines.Words.{
  view-delim, view-line, view_single, view-pad_right, Lacks-<>, Lacks-pad_right,
}
use new_cli_installer.Disk.{Partition}
use new_cli_installer.Disk.Fstab.{
  get_converted_fs, get_check_number, get_mount_options, device_str, format_entry, gen_fstab_entry,
}

-- A text that can stand as a field of a line.
pub record IsField (s : String) : Type 0 where
  pub filled : is_empty s ≡ false
  pub no_space : Lacks " " s
  pub no_newline : Lacks "\n" s
  pub no_comment : starts_with s "#" ≡ false

-- The options that a partition is mounted with.
abbrev pub options_of : Partition → String
options_of p = get_mount_options p.mount_opts (value_or p.subvolume "") (get_converted_fs p.fstype)

-- A partition of which every field of its entry is one.
pub record IsPlain (p : Partition) : Type 0 where
  pub device : Lacks "\n" p.device
  pub spec : IsField (device_str p)
  pub mountpoint : IsField p.mountpoint
  pub fstype : IsField (get_converted_fs p.fstype)
  pub options : IsField (options_of p)

unfoldable pub check_number : Partition → String
check_number p = to_string (pos (get_check_number p.mountpoint (get_converted_fs p.fstype)))

-- The second line of an entry.
unfoldable pub entry_line : Partition → String
entry_line p =
    pad_right 41 (device_str p)
    <> " "
    <> pad_right 14 p.mountpoint
    <> " "
    <> pad_right 7 (get_converted_fs p.fstype)
    <> " "
    <> pad_right 10 (options_of p)
    <> " 0 "
    <> check_number p

unfoldable pub entry_text : Partition → String → String
entry_text p rest =
    ("# " <> p.device) <> String.◌∷◌ "\n" (entry_line p <> String.◌∷◌ "\n" (String.◌∷◌ "\n" rest))

pub is_empty-<> : (s t : String) → is_empty s ≡ false → is_empty (s <> t) ≡ false
unfolding ◌<>◌
is_empty-<> String.[] t h = absurd (cc)
is_empty-<> (String.◌∷◌ c s) t h = refl

pub starts_with_hash-<> :
    (s t : String) → is_empty s ≡ false → starts_with (s <> t) "#" ≡ starts_with s "#"
unfolding ◌<>◌ starts_with
starts_with_hash-<> String.[] t h = absurd (cc)
starts_with_hash-<> (String.◌∷◌ c s) t h = refl

zero_step : (s : String) → " 0 " <> s ≡ " " <> ("0" <> String.◌∷◌ " " s)
unfolding ◌<>◌
zero_step s = refl

entry-format :
    (p : Partition) {entry : String}
    → gen_fstab_entry p ≡ some entry
    → entry
      ≡ format_entry p.device
          (device_str p)
          p.mountpoint
          (get_converted_fs p.fstype)
          (options_of p)
          (check_number p)
unfolding gen_fstab_entry check_number
entry-format p h = ground arith

pub entry-text :
    (p : Partition) {entry : String} (rest : String)
    → gen_fstab_entry p ≡ some entry
    → entry <> rest ≡ entry_text p rest
unfolding format_entry entry_text entry_line ◌<>◌
entry-text p rest h = rw (entry-format p h) (simp <>_assoc)

check_cases : (m f : String) → let n = get_check_number m f in (n ≡ 0) ⊎ (n ≡ 1) ⊎ (n ≡ 2)
unfolding get_check_number
check_cases m f = ground arith

check_number-IsField : (p : Partition) → IsField (check_number p)
unfolding check_number to_string starts_with
check_number-IsField p = elim (check_cases p.mountpoint (get_converted_fs p.fstype)) [
  | inl e ↦
      rw e (record {
        filled = refl;
        no_space = (refl, tt);
        no_newline = (refl, tt);
        no_comment = refl;
      })
  | inr (inl e) ↦
      rw e (record {
        filled = refl;
        no_space = (refl, tt);
        no_newline = (refl, tt);
        no_comment = refl;
      })
  | inr (inr e) ↦
      rw e (record {
        filled = refl;
        no_space = (refl, tt);
        no_newline = (refl, tt);
        no_comment = refl;
      })
]

IsField-IsLine : {s : String} → IsField s → IsLine " " s
IsField-IsLine f = (f.filled, f.no_space)

-- The fields of the second line.
pub entry_line-fields :
    (p : Partition)
    → IsPlain p
    → make_split_view (entry_line p) " "
      ≡ device_str p
        ∷ p.mountpoint
        ∷ get_converted_fs p.fstype
        ∷ options_of p
        ∷ "0"
        ∷ check_number p
        ∷ []
unfolding entry_line
entry_line-fields p f = rw (
  view-pad_right 41 (device_str p) _ (IsField-IsLine f.spec),
  view-pad_right 14 p.mountpoint _ (IsField-IsLine f.mountpoint),
  view-pad_right 7 (get_converted_fs p.fstype) _ (IsField-IsLine f.fstype),
  zero_step,
  view-pad_right 10 (options_of p) _ (IsField-IsLine f.options),
  view-line " " "0" _ (refl, (refl, tt)),
  view_single " " (check_number p) (IsField-IsLine (check_number-IsField p)),
)

space-Lacks : (s : String) → Lacks "\n" s → Lacks "\n" (" " <> s)
unfolding ◌<>◌
space-Lacks s h = (refl, h)

zero-Lacks : (s : String) → Lacks "\n" s → Lacks "\n" (" 0 " <> s)
unfolding ◌<>◌
zero-Lacks s h = (refl, (refl, (refl, h)))

pub entry_line-IsLine : (p : Partition) → IsPlain p → IsLine "\n" (entry_line p)
unfolding entry_line
entry_line-IsLine p f = (
  is_empty-<> _ _ (unfold pad_right in (is_empty-<> _ _ f.spec.filled)),
  Lacks-<> "\n" _ _ (Lacks-pad_right 41 _ f.spec.no_newline) (
      space-Lacks _ (
        Lacks-<> "\n" _ _ (Lacks-pad_right 14 _ f.mountpoint.no_newline) (
          space-Lacks _ (
            Lacks-<> "\n" _ _ (Lacks-pad_right 7 _ f.fstype.no_newline) (
              space-Lacks _ (
                Lacks-<> "\n" _ _ (Lacks-pad_right 10 _ f.options.no_newline)
                  (zero-Lacks _ (check_number-IsField p).no_newline))))))),
)

comment-IsLine : (device : String) → Lacks "\n" device → IsLine "\n" ("# " <> device)
unfolding ◌<>◌
comment-IsLine device h = (refl, (refl, (refl, h)))

-- The lines of an entry in front of other text.
pub entry_text-lines :
    (p : Partition) (rest : String)
    → IsPlain p
    → make_split_view (entry_text p rest) "\n"
      ≡ ("# " <> p.device) ∷ entry_line p ∷ make_split_view rest "\n"
unfolding entry_text
entry_text-lines p rest f = rw (
  view-line "\n" ("# " <> p.device) _ (comment-IsLine p.device f.device),
  view-line "\n" (entry_line p) _ (entry_line-IsLine p f),
  view-delim "\n" rest,
)
