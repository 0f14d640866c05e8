-- ===== src/Installer/Connection/Polling.antt =====
-- How often the connection is tried, and that one that comes up in time is found.
use new_cli_installer.Base.{
  ◌==◌, ◌≡◌, refl, Bool, true, false, Option, some, ℕ, zero, suc, ◌+◌, ◌≤◌, [], ◌∷◌, if◌then◌else◌,
  Bool-cases, Option-cases, inl, inr, arith,
}
use new_cli_installer.Sys.{Os, Log, Event, download, dialog}
use new_cli_installer.Installer.State.{Config, State}
use new_cli_installer.Installer.System.{is_connected, prompt_char, one_char, connection_url}
use new_cli_installer.Installer.Connection.{
  wait_connected, connection_timeout, find_connection, connect, offer_wifi, show_iwctl, wifi_prompt,
  iwctl_msg,
}

-- The log after `k` more tries.
abbrev pub tried : ℕ → Log → Log
tried zero log = log
tried (suc k) log = tried k (download connection_url ∷ log)

-- Whether the site would answer now.
abbrev pub online : Os → Log → Bool
online os log = os.succeeds log (download connection_url)

-- The first `k` tries fail.
abbrev pub AllOffline : Os → ℕ → Log → Type 0
AllOffline os zero log = Unit
AllOffline os (suc k) log =
    (online os log ≡ false) × AllOffline os k (download connection_url ∷ log)

abbrev pub with_log : Config → Log → State
with_log c log = record { config = c; log = log }

module _ (os : Os) (built : os.ndevenv ≡ true) (c : Config) where
  is_connected-online :
      (log : Log)
      → is_connected os (with_log c log)
        ≡ (some (online os log), with_log c (download connection_url ∷ log))
  unfolding is_connected
  is_connected-online log = rw built refl

  wait_found :
      (k n : ℕ) (log : Log)
      → k ≤ n
      → AllOffline os k log
      → online os (tried k log) ≡ true
      → wait_connected n os (with_log c log) ≡ (some true, with_log c (tried (suc k) log))
  unfolding wait_connected
  wait_found zero zero log h off on = rw (is_connected-online log, on) refl
  wait_found zero (suc n) log h off on = rw (is_connected-online log, on) refl
  wait_found (suc k) zero log h off on = absurd (omega arith)
  wait_found (suc k) (suc n) log h off on =
      rw (is_connected-online log, off.0)
        (wait_found k n (download connection_url ∷ log) (omega arith) off.1 on)

  wait_given_up :
      (n : ℕ) (log : Log)
      → AllOffline os (suc n) log
      → wait_connected n os (with_log c log) ≡ (some false, with_log c (tried (suc n) log))
  unfolding wait_connected
  wait_given_up zero log off = rw (is_connected-online log, off.0) refl
  wait_given_up (suc n) log off =
      rw (is_connected-online log, off.0) (wait_given_up n (download connection_url ∷ log) off.1)

  -- A connection that comes up at one of the first 17 tries is found at that try, without asking the
  -- user, in a build with NDEVENV.
  pub connect_found :
      (k : ℕ) (log : Log)
      → k ≤ 16
      → AllOffline os k log
      → online os (tried k log) ≡ true
      → connect os (with_log c log) ≡ (some true, with_log c (tried (suc k) log))
  unfolding connect find_connection
  connect_found zero log h off on = rw (is_connected-online log, on) refl
  connect_found (suc k) log h off on =
      rw
        (
          is_connected-online log,
          off.0,
          wait_found k connection_timeout (download connection_url ∷ log) (omega arith) off.1 on,
        )
        refl

  -- If none of them succeeds, the user is asked.
  pub connect_given_up :
      (log : Log)
      → AllOffline os (suc (suc connection_timeout)) log
      → connect os (with_log c log)
        ≡ offer_wifi os (with_log c (tried (suc (suc connection_timeout)) log))
  unfolding connect find_connection
  connect_given_up log off =
      rw
        (
          is_connected-online log,
          off.0,
          wait_given_up connection_timeout (download connection_url ∷ log) off.1,
        )
        refl

-- How many tries a log has.
abbrev pub is_try : Event → Bool
is_try (download url) = url == connection_url
is_try _ = false

abbrev pub tries : Log → ℕ
tries [] = 0
tries (event ∷ log) = if is_try event then suc (tries log) else tries log

module _ (os : Os) (built : os.ndevenv ≡ true) (c : Config) where
  -- A computation that returns and leaves the settings alone, with at most `n` tries.
  abbrev pub Within : ℕ → Log → Option Bool × State → Type 0
  Within n log r =
      (connected : Bool) × (after : Log) × (r ≡ (some connected, with_log c after))
      × (tries after ≤ tries log + n)

  wait_connected-Within :
      (n : ℕ) (log : Log) → Within (suc n) log (wait_connected n os (with_log c log))
  unfolding wait_connected
  wait_connected-Within zero log = (
    online os log,
    download connection_url ∷ log,
    is_connected-online os built c log,
    omega arith,
  )
  wait_connected-Within (suc n) log = elim (Bool-cases (online os log)) [
    | inl on ↦ (
      true,
      download connection_url ∷ log,
      rw (is_connected-online os built c log, on) refl,
      omega arith,
    )
    | inr off ↦
        let (b, after, e, h) = wait_connected-Within n (download connection_url ∷ log) in
        (b, after, rw (is_connected-online os built c log, off) e, omega arith)
  ]

  tries_again :
      (log log' : Log) → tries log' ≤ tries log → Within 1 log (is_connected os (with_log c log'))
  tries_again log log' h = (
    online os log',
    download connection_url ∷ log',
    is_connected-online os built c log',
    omega arith,
  )

  offer_wifi-Within : (log : Log) → Within 1 log (offer_wifi os (with_log c log))
  unfolding offer_wifi prompt_char show_iwctl
  offer_wifi-Within log = elim (Option-cases (os.input_of log wifi_prompt)) [
    | inl ended ↦ rw ended (tries_again log (dialog wifi_prompt ∷ log) (omega arith))
    | inr (line, e) ↦ elim (Bool-cases (one_char line == "n")) [
      | inl declined ↦ rw (e, declined) (tries_again log (dialog wifi_prompt ∷ log) (omega arith))
      | inr shown ↦
          rw (e, shown)
            (tries_again log (dialog iwctl_msg ∷ dialog wifi_prompt ∷ log) (omega arith))
    ]
  ]

  find_connection-Within : (log : Log) → Within 17 log (find_connection os (with_log c log))
  unfolding find_connection
  find_connection-Within log =
      let (b, after, e, h) = wait_connected-Within connection_timeout log in
      elim (Bool-cases b) [
        | inl found ↦ (true, after, rw (e, found) refl, omega arith)
        | inr gone ↦
            let (b', after', e', h') = offer_wifi-Within after in
            (b', after', rw (e, gone) e', omega arith)
      ]

  -- Looking for a connection, in a build with NDEVENV, returns whatever the answers are, leaves the
  -- settings alone, and tries at most 18 times.
  pub connect-Within : (log : Log) → Within 18 log (connect os (with_log c log))
  unfolding connect
  connect-Within log = elim (Bool-cases (online os log)) [
    | inl on ↦ (
      true,
      download connection_url ∷ log,
      rw (is_connected-online os built c log, on) refl,
      omega arith,
    )
    | inr off ↦
        let (b, after, e, h) = find_connection-Within (download connection_url ∷ log) in
        (b, after, rw (is_connected-online os built c log, off) e, omega arith)
  ]
