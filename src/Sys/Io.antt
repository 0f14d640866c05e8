-- ===== src/Sys/Io.antt =====
-- gucc/src/io_utils.cpp and gucc/src/file_utils.cpp: running commands and reading and writing files.
use new_cli_installer.Base.{
  String, ◌==◌, ◌<>◌, Bool, true, false, none, some, List, if◌then◌else◌, value_or,
}
use new_cli_installer.Base.Decimal.{to_string}
use new_cli_installer.Sys.{M, ask, pure, ◌>>=◌, ◌>>◌, system, popen, read, write, spawn}

-- `utils::safe_getenv`
unfoldable pub safe_getenv : String → M String
safe_getenv name os log = (value_or (os.env name) "", log)

-- `utils::exec` of an argument vector: nothing is run where `DIRTY_CMD_RUN` is `1`.
unfoldable pub exec_args : List String → M (Unit {0})
unfolding safe_getenv
exec_args args = do
  dirty_cmd_run ← safe_getenv "DIRTY_CMD_RUN"
  if dirty_cmd_run == "1" then pure tt else ask (spawn args) (λ os log. tt)

-- The output without its last newline.
unfoldable pub drop_newline : String → String
drop_newline String.[] = ""
drop_newline (String.◌∷◌ c String.[]) = if String.◌∷◌ c "" == "\n" then "" else String.◌∷◌ c ""
drop_newline (String.◌∷◌ c (String.◌∷◌ d s)) = String.◌∷◌ c (drop_newline (String.◌∷◌ d s))

-- `system(command)` of an interactive command, else `popen` and what it prints.
unfoldable pub exec : String → Bool → M String
unfolding to_string drop_newline
exec command true = do
  ret_code ← ask (system command) (λ os log. os.status_of log command)
  pure (to_string ret_code)
exec command false = do
  output ← ask (popen command) (λ os log. os.output_of log command)
  pure (elim output [ none ↦ "-1" | some text ↦ drop_newline text ])

unfoldable pub exec_checked : String → M Bool
unfolding exec
exec_checked command = do out ← exec command true; pure (out == "0")

unfoldable pub arch_chroot : String → String → Bool → M (Unit {0})
unfolding exec
arch_chroot command mountpoint interactive os log =
    let cmd_formatted =
      "arch-chroot " <> mountpoint <> " " <> command <> " 2>>/tmp/cachyos-install.log 2>&1" in
    if os.ndevenv then (exec cmd_formatted interactive >> pure tt) os log else (tt, log)

unfoldable pub arch_chroot_checked : String → String → M Bool
unfolding exec_checked
arch_chroot_checked command mountpoint os log =
    let cmd_formatted =
      "arch-chroot " <> mountpoint <> " " <> command
      <> " 2>>/tmp/cachyos-install.log 1>/dev/null" in
    if os.ndevenv then exec_checked cmd_formatted os log else (true, log)

-- An unreadable file reads as the empty text.
unfoldable pub read_whole_file : String → M String
read_whole_file filepath = ask (read filepath) (λ os log. value_or (os.content_of log filepath) "")

-- False if the file cannot be opened for writing.
unfoldable pub create_file_for_overwrite : String → String → M Bool
create_file_for_overwrite filepath text =
    ask (write filepath text) (λ os log. os.succeeds log (write filepath text))

unfoldable pub write_to_file : String → String → M Bool
write_to_file content filepath =
    ask (write filepath content) (λ os log. os.succeeds log (write filepath content))
