-- ===== src/Sys/Script.antt =====
-- A script: shell commands of which each runs only if those before it succeeded. It is what the
-- installer's chains of `if (!exec_checked(...)) return false;` implement.
use new_cli_installer.Base.{
  String, ◌≡◌, ◌≢◌, ◌↔◌, ◌⊎◌, refl, ap, Bool, true, false, List, [], ◌∷◌, ◌++◌, eq_iff, inl, inr,
  Bool-cases, if◌then◌else◌,
}
use new_cli_installer.Base.Decimal.{pos, to_string, to_string-zero_iff}
use new_cli_installer.Sys.{Os, Log, M, pure, and_then, system}
use new_cli_installer.Sys.Io.{exec_checked}

unfoldable pub run_all : List String → M Bool
run_all [] = pure true
run_all (command ∷ rest) = and_then (exec_checked command) (run_all rest)

-- The log after all of a script.
abbrev pub logged : List String → Log → Log
logged [] log = log
logged (command ∷ rest) log = logged rest (system command ∷ log)

-- Every command of a script exits with status 0, each after those before it.
abbrev pub Succeeds : Os → Log → List String → Type 0
Succeeds os log [] = Unit
Succeeds os log (command ∷ rest) =
    (os.status_of log command ≡ pos 0) × Succeeds os (system command ∷ log) rest

-- A script that stopped at a command which failed.
pub record Stopped (os : Os) (log : Log) (script : List String) (after : Log) : Type 0 where
  pub before : List String
  pub failed : String
  pub rest : List String
  pub split : script ≡ before ++ failed ∷ rest
  pub succeeded : Succeeds os log before
  pub status : os.status_of (logged before log) failed ≢ pos 0
  pub ended : after ≡ system failed ∷ logged before log

pub exec_checked_log :
    (command : String) (os : Os) (log : Log)
    → (exec_checked command os log).1 ≡ system command ∷ log
unfolding exec_checked
exec_checked_log command os log = refl

pub exec_checked_iff :
    (command : String) (os : Os) (log : Log)
    → ((exec_checked command os log).0 ≡ true) ↔ (os.status_of log command ≡ pos 0)
unfolding exec_checked
exec_checked_iff command os log =
    let code = to_string (os.status_of log command) in
    (
      λ h. (to_string-zero_iff _).0 ((eq_iff code "0").0 h),
      λ e. (eq_iff code "0").1 ((to_string-zero_iff _).1 e),
    )

if_pure : (r : Bool × Log) → r ≡ (if r.0 then (true, r.1) else (false, r.1))
if_pure (true, log) = refl
if_pure (false, log) = refl

module _ (os : Os) where
  run_all_pass :
      (command : String) (rest : List String) (log : Log)
      → (exec_checked command os log).0 ≡ true
      → run_all (command ∷ rest) os log ≡ run_all rest os (system command ∷ log)
  unfolding run_all
  run_all_pass command rest log ok = rw (ok, exec_checked_log)

  run_all_stop :
      (command : String) (rest : List String) (log : Log)
      → (exec_checked command os log).0 ≡ false
      → run_all (command ∷ rest) os log ≡ (false, system command ∷ log)
  unfolding run_all
  run_all_stop command rest log bad = rw (bad, exec_checked_log)

  -- A script succeeds exactly when all its commands do.
  pub run_all_iff :
      (script : List String) (log : Log)
      → ((run_all script os log).0 ≡ true) ↔ Succeeds os log script
  run_all_iff [] log = unfold run_all in (λ _. tt, λ _. refl)
  run_all_iff (command ∷ rest) log =
      let head = exec_checked_iff command os log in
      let tail = run_all_iff rest (system command ∷ log) in
      elim (Bool-cases (exec_checked command os log).0) [
        | inl ok ↦
            rw (run_all_pass command rest log ok) (λ h. (head.0 ok, tail.0 h), λ e. tail.1 e.1)
        | inr bad ↦
            rw (run_all_stop command rest log bad) (λ h. absurd (cc), λ e. absurd (cc (head.1 e.0)))
      ]

  -- A script that succeeds has run all its commands, in their order.
  pub run_all_log :
      (script : List String) (log : Log)
      → (run_all script os log).0 ≡ true
      → (run_all script os log).1 ≡ logged script log
  run_all_log [] log h = unfold run_all in refl
  run_all_log (command ∷ rest) log h = elim (Bool-cases (exec_checked command os log).0) [
    | inl ok ↦
        let step = run_all_pass command rest log ok in
        rw step (run_all_log rest (system command ∷ log) (rw step at h))
    | inr bad ↦ absurd (cc (run_all_stop command rest log bad))
  ]

  -- A script that fails has run a prefix that succeeds and the command that failed, and no more.
  pub run_all-Stopped :
      (script : List String) (log : Log)
      → (run_all script os log).0 ≡ false
      → Stopped os log script (run_all script os log).1
  run_all-Stopped [] log h = absurd (unfold run_all in cc)
  run_all-Stopped (command ∷ rest) log h = elim (Bool-cases (exec_checked command os log).0) [
    | inl ok ↦
        let step = run_all_pass command rest log ok in
        let s = run_all-Stopped rest (system command ∷ log) (rw step at h) in
        record {
          before = command ∷ s.before;
          failed = s.failed;
          rest = s.rest;
          split = ap (λ l. command ∷ l) s.split;
          succeeded = ((exec_checked_iff command os log).0 ok, s.succeeded);
          status = s.status;
          ended = rw step s.ended;
        }
    | inr bad ↦ record {
      before = [];
      failed = command;
      rest = rest;
      split = refl;
      succeeded = tt;
      status = λ e. absurd (cc ((exec_checked_iff command os log).1 e));
      ended = rw (run_all_stop command rest log bad);
    }
  ]

  pub run_all-append :
      (cs ds : List String) (log : Log)
      → run_all (cs ++ ds) os log ≡ and_then (run_all cs) (run_all ds) os log
  run_all-append [] ds log = unfold run_all in refl
  run_all-append (c ∷ cs) ds log = elim (Bool-cases (exec_checked c os log).0) [
    | inl ok ↦
        rw (run_all_pass c (cs ++ ds) log ok, run_all_pass c cs log ok)
          (run_all-append cs ds (system c ∷ log))
    | inr bad ↦ rw (run_all_stop c (cs ++ ds) log bad, run_all_stop c cs log bad)
  ]

  -- A run of a script: either all commands succeeded and were run in their order, or it stopped at
  -- the first that failed.
  abbrev pub RunsScript : List String → Log → Bool × Log → Type 0
  RunsScript script log r =
      ((r.0 ≡ true) × Succeeds os log script × (r.1 ≡ logged script log))
      ⊎ ((r.0 ≡ false) × Stopped os log script r.1)

  pub run_all-RunsScript :
      (script : List String) (log : Log) → RunsScript script log (run_all script os log)
  run_all-RunsScript script log = elim (Bool-cases (run_all script os log).0) [
    | inl ok ↦ inl (ok, (run_all_iff script log).0 ok, run_all_log script log ok)
    | inr bad ↦ inr (bad, run_all-Stopped script log bad)
  ]

  pub and_then_assoc :
      (a b c : M Bool) (log : Log)
      → and_then (and_then a b) c os log ≡ and_then a (and_then b c) os log
  and_then_assoc a b c log = elim (Bool-cases (a os log).0) [ inl ok ↦ rw ok | inr bad ↦ rw bad ]

  pub and_then_cong :
      (a a' b b' : M Bool)
      → ((log : Log) → a os log ≡ a' os log)
      → ((log : Log) → b os log ≡ b' os log)
      → (log : Log) → and_then a b os log ≡ and_then a' b' os log
  and_then_cong a a' b b' h k log i = let r = h log i in if r.0 then k r.1 i else (false, r.1)

  pub and_then-pure : (m : M Bool) (log : Log) → m os log ≡ and_then m (pure true) os log
  and_then-pure m log = if_pure (m os log)

  -- A step that is followed by another and succeeds as a whole.
  pub and_then-true :
      (a b : M Bool) (log : Log)
      → (and_then a b os log).0 ≡ true
      → ((a os log).0 ≡ true) × (and_then a b os log ≡ b os (a os log).1)
  and_then-true a b log h = elim (Bool-cases (a os log).0) [
    | inl ok ↦ (ok, rw ok)
    | inr bad ↦ absurd (cc (rw bad at h))
  ]
