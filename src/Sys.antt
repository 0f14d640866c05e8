-- ===== src/Sys.antt =====
-- The operating system as the installer sees it: a log of what was asked of it, newest first, and
-- an environment that answers each request from the log before it.
pub mod Io
pub mod Script
use new_cli_installer.Base.{String, Bool, true, false, Option, List, [], ◌∷◌, if◌then◌else◌}
use new_cli_installer.Base.Decimal.{ℤ}

-- A request: a C library or `std::filesystem` call with its arguments.
pub data Event : Type 0 where
  system popen read exists is_regular_file create_directories download : String → Event
  is_directory create_directory remove umount dialog : String → Event
  write copy_file rename permissions mount : String → String → Event
  spawn : List String → Event

-- The log of the requests that were made.
abbrev pub Log : Type 0
Log = List Event

-- What the system answers; `input_of` is what the user enters at a prompt. `ndevenv` says whether the
-- program is built with `NDEVENV`, and `env`
-- is the process's environment.
pub record Os : Type 0 where
  pub ndevenv : Bool
  pub env : String → Option String
  pub status_of : Log → String → ℤ
  pub output_of : Log → String → Option String
  pub content_of : Log → String → Option String
  pub succeeds : Log → Event → Bool
  pub body_of : Log → String → Option String
  pub input_of : Log → String → Option String

-- A computation that asks the system.
abbrev pub M : Type 0 → Type 0
M A = Os → Log → A × Log

abbrev pub pure : {A : Type 0} → A → M A
pure a os log = (a, log)

infixl 5 ◌>>=◌ ◌>>◌
abbrev pub ◌>>=◌ : {A B : Type 0} → M A → (A → M B) → M B
◌>>=◌ m f os log = let r = m os log in f r.0 os r.1

abbrev pub ◌>>◌ : {A B : Type 0} → M A → M B → M B
m >> n = m >>= λ _. n

-- A request whose answer is read off the environment.
abbrev pub ask : {A : Type 0} → Event → (Os → Log → A) → M A
ask e answer os log = (answer os log, e ∷ log)

-- `if (!step) return false; rest`
abbrev pub and_then : M Bool → M Bool → M Bool
and_then step rest os log = let r = step os log in if r.0 then rest os r.1 else (false, r.1)
