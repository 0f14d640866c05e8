-- ===== src/Tests/Boot.antt =====
-- The properties of the kernel's parameters and of the initcpio at concrete inputs.
use new_cli_installer.Base.{
  String, ◌<>◌, ◌≡◌, arith, refl, true, false, none, some, [], ◌∷◌, ◌++◌, All, is_empty,
  if◌then◌else◌, contains, ◌||◌,
}
use new_cli_installer.Disk.{Partition}
use new_cli_installer.Lines.{make_multiline, make_split_view, split, join, trim}
use new_cli_installer.Lines.Split.{
  lacks, lacks_sound, IsLine, make_multiline-join, make_multiline-IsLine,
}
use new_cli_installer.Lines.Trim.{starts_clean, ends_clean, all_blank, trim-cut}
use new_cli_installer.Boot.KernelParams.{params, nullopt, resume, get_kernel_params, is_root_on_zfs}
use new_cli_installer.Boot.KernelParams.Root.{
  IsReady, root_uuid, root_params, all_fs_params, last, is_plain_swap, is_crypt_swap,
  get_kernel_params_lem,
}
use new_cli_installer.Boot.KernelParams.Errors.{get_kernel_params_no_dataset}
use new_cli_installer.Boot.Initcpio.{
  Initcpio, modify_initcpio_fields, parse_fields, place_hooks, add_hook, drop_hook, missing,
  insert_before,
}
use new_cli_installer.Boot.Initcpio.Parsing.{IsWord}
use new_cli_installer.Boot.Initcpio.Editing.{
  IsWritable, has_field, parse_fields-modify_initcpio_fields,
}
use new_cli_installer.Boot.Initcpio.Hooks.{place_hooks-contains, drop_hook-add_hook}
use new_cli_installer.Tests.{root, efi, swap, scheme, initcpio}

root-IsReady : IsReady none root
unfolding is_root_on_zfs
root-IsReady = record { crypt = λ r m. refl; zfs = λ h. h }

efi-IsReady : IsReady none efi
unfolding is_root_on_zfs
efi-IsReady = record { crypt = λ r m. absurd (cc r); zfs = λ h. h }

swap-IsReady : IsReady none swap
unfolding is_root_on_zfs
swap-IsReady = record { crypt = λ r m. absurd (cc r); zfs = λ h. h }

get_kernel_params_lem_example :
    get_kernel_params scheme "quiet splash" none ≡ elim (root_uuid scheme) [
      | none ↦ nullopt
      | some uuid ↦
          if is_empty uuid
          then nullopt
          else params (
              ((((make_multiline "quiet splash" false " " ++ "rw" ∷ [])
                    ++ all_fs_params none scheme)
                  ++ root_params scheme uuid)
                ++ resume "resume=UUID=" (last is_plain_swap (λ p. some p.uuid_str) none scheme))
              ++ resume "resume=/dev/mapper/"
                  (last is_crypt_swap (λ p. p.luks_mapper_name) none scheme))
    ]
get_kernel_params_lem_example =
    get_kernel_params_lem scheme "quiet splash" none
      (root-IsReady, (efi-IsReady, (swap-IsReady, tt)))

abbrev zfs_root : Partition
zfs_root = record root { fstype = "zfs" }

get_kernel_params_no_dataset_example :
    get_kernel_params (efi ∷ zfs_root ∷ []) "quiet" none ≡ nullopt
unfolding is_root_on_zfs
get_kernel_params_no_dataset_example =
    get_kernel_params_no_dataset (efi ∷ zfs_root ∷ []) "quiet" (ground arith, (ground arith, tt))
      refl

word :
    (w : String)
    → is_empty w ≡ false
    → lacks " " w ≡ true
    → lacks ")" w ≡ true
    → lacks "\n" w ≡ true
    → IsWord w
word w e a b c = ((e, lacks_sound " " w a), lacks_sound ")" w b, lacks_sound "\n" w c)

initcpio-IsWritable : IsWritable initcpio
initcpio-IsWritable = record {
  modules = (word "btrfs" refl refl refl refl, tt);
  files = tt;
  hooks = (
    word "base" refl refl refl refl,
    (word "udev" refl refl refl refl, (word "fsck" refl refl refl refl, tt)),
  );
}

abbrev conf : String
conf = "# vim:set ft=sh\nMODULES=()\nHOOKS=(base)\n"

abbrev blank : Initcpio
blank = record { modules = []; files = "a" ∷ []; hooks = []; m_file_path = "/etc/mkinitcpio.conf" }

parse_fields-modify_initcpio_fields_example :
    let lines = split conf "\n" in
    parse_fields
      (make_split_view
        (modify_initcpio_fields conf
          (join initcpio.modules " ")
          (join initcpio.files " ")
          (join initcpio.hooks " "))
        "\n")
      blank
    ≡ record blank {
      modules = if has_field "MODULES" lines then initcpio.modules else blank.modules;
      files = if has_field "FILES" lines then initcpio.files else blank.files;
      hooks = if has_field "HOOKS" lines then initcpio.hooks else blank.hooks;
    }
parse_fields-modify_initcpio_fields_example =
    parse_fields-modify_initcpio_fields initcpio blank conf initcpio-IsWritable

abbrev placed : Initcpio
placed = record initcpio { hooks = "base" ∷ "udev" ∷ "encrypt" ∷ "fsck" ∷ [] }

places : place_hooks "fsck" ("udev" ∷ "encrypt" ∷ []) initcpio ≡ some placed
unfolding place_hooks missing insert_before
places = refl

place_hooks-contains_example :
    contains placed.hooks "encrypt"
    ≡ (contains initcpio.hooks "encrypt" || contains ("udev" ∷ "encrypt" ∷ []) "encrypt")
place_hooks-contains_example =
    place_hooks-contains "fsck" ("udev" ∷ "encrypt" ∷ []) initcpio "encrypt" places

abbrev added : Initcpio
added = record initcpio { hooks = "base" ∷ "udev" ∷ "fsck" ∷ "encrypt" ∷ [] }

adds : add_hook "encrypt" initcpio ≡ some added
unfolding add_hook
adds = refl

drop_hook-add_hook_example : drop_hook "encrypt" added ≡ some initcpio
drop_hook-add_hook_example = drop_hook-add_hook "encrypt" initcpio adds

make_multiline-join_example : make_multiline (join ("a" ∷ "b" ∷ []) ",") false "," ≡ "a" ∷ "b" ∷ []
make_multiline-join_example =
    make_multiline-join "," ("a" ∷ "b" ∷ [])
      ((refl, lacks_sound "," "a" refl), ((refl, lacks_sound "," "b" refl), tt))

make_multiline-IsLine_example : All (IsLine ",") (make_multiline "a,,b," true ",")
make_multiline-IsLine_example = make_multiline-IsLine "," "a,,b," true

trim-cut_example :
    (pre : String) × (post : String) × (" a b\n" ≡ pre <> trim " a b\n" <> post)
    × (all_blank pre ≡ true)
    × (all_blank post ≡ true)
    × (starts_clean (trim " a b\n") ≡ true)
    × (ends_clean (trim " a b\n") ≡ true)
trim-cut_example = trim-cut " a b\n"
