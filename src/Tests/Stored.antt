-- ===== src/Tests/Stored.antt =====
-- Appending a hook to a stored configuration at a concrete input.
use new_cli_installer.Base.{
  String, ◌≡◌, refl, true, false, some, [], is_empty, starts_with, contains,
}
use new_cli_installer.Lines.{make_split_view, split}
use new_cli_installer.Lines.Split.{lacks, lacks_sound}
use new_cli_installer.Boot.Initcpio.{
  Initcpio, append_hook, parse_file, parse_fields, parse_field, parse_line, behind, before,
  closes_first,
}
use new_cli_installer.Boot.Initcpio.Parsing.{IsWord}
use new_cli_installer.Boot.Initcpio.Editing.{IsWritable}
use new_cli_installer.Boot.Initcpio.Stored.{
  Keeps, file_at, fields_of, with_hook, overlaid, append_hook-parse_file,
}
use new_cli_installer.Sys.{Os}
use new_cli_installer.Tests.{willing}

abbrev conf : String
conf = "MODULES=()\nHOOKS=(base)\n"

abbrev conf_path : String
conf_path = "/mnt/etc/mkinitcpio.conf"

-- A system with this file.
abbrev keeping : Os
keeping = record willing { content_of = λ log path. some (file_at path conf log) }

keeping-Keeps : Keeps keeping conf_path conf
keeping-Keeps = record { there = λ log. refl; writes = λ log text. refl; reads = λ log. refl }

abbrev unread : Initcpio
unread = record { modules = []; files = []; hooks = []; m_file_path = conf_path }

word :
    (w : String)
    → is_empty w ≡ false
    → lacks " " w ≡ true
    → lacks ")" w ≡ true
    → lacks "\n" w ≡ true
    → IsWord w
word w e a b c = ((e, lacks_sound " " w a), lacks_sound ")" w b, lacks_sound "\n" w c)

not_there : contains (fields_of conf unread).hooks "encrypt" ≡ false
unfolding make_split_view parse_fields parse_field parse_line behind before closes_first split
    starts_with
not_there = refl

conf-IsWritable : IsWritable (with_hook "encrypt" (fields_of conf unread))
unfolding make_split_view parse_fields parse_field parse_line behind before closes_first split
    starts_with
conf-IsWritable = record {
  modules = tt;
  files = tt;
  hooks = (word "base" refl refl refl refl, (word "encrypt" refl refl refl refl, tt));
}

append_hook-parse_file_example :
    let q = with_hook "encrypt" (fields_of conf unread) in
    ((append_hook "encrypt" unread keeping []).0 ≡ (true, q))
    × ((parse_file unread keeping (append_hook "encrypt" unread keeping []).1).0
        ≡ (true, overlaid conf q unread))
append_hook-parse_file_example =
    append_hook-parse_file keeping conf_path conf unread unread "encrypt" [] keeping-Keeps refl refl
      refl not_there conf-IsWritable
