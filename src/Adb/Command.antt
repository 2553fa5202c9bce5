-- ===== src/Adb/Command.antt =====
-- adb.rs: the check of adb's arguments, and `ProcessAdbRunner`.
use webadbcontrol.Base.{
  ◌<>◌, Option, none, some, ◌⊎◌, inl, inr, String, Bool, true, false, List, [], ◌∷◌, any, ◌==ℕ◌,
  if◌then◌else◌,
}
use webadbcontrol.Base.Text.{codes}
use webadbcontrol.Error.{AppError, new, with_cause, with_suggestion, Result, ok, err, ◌>>◌}

-- An `i32` that is only compared with zero and printed.
pub data ExitCode : Type 0 where
  exit_ok : ExitCode
  exit_failed : String → ExitCode

pub record AdbCommandOutput : Type 0 where
  pub exit_code : ExitCode
  pub stdout : String
  pub stderr : String

unfoldable pub args_contain_nul : AppError
unfolding new
args_contain_nul =
    new "ADB_ARGS_CONTAIN_NUL" "ADB arguments must not contain NUL bytes." "adb.runner" false

-- A character has a zero byte only if it is U+0000.
abbrev pub has_nul : String → Bool
has_nul arg = any (λ c. c ==ℕ 0) (codes arg)

unfoldable pub validate_adb_args : List String → Result (Unit {0})
validate_adb_args [] = ok tt
validate_adb_args (arg ∷ args) =
    let rest = validate_adb_args args in if has_nul arg then err args_contain_nul else rest

-- The program's end: no code when a signal ended it.
pub record ProcessOutput : Type 0 where
  pub code : Option ExitCode
  pub stdout : String
  pub stderr : String

unfoldable pub adb_spawn_failed : String → String → AppError
unfolding new with_cause with_suggestion
adb_spawn_failed adb_binary cause =
    with_suggestion
      (with_cause
        (new "ADB_PROCESS_SPAWN_FAILED" ("Failed to start adb binary at " <> adb_binary)
          "adb.runner" true)
        cause)
      "Verify that the ADB asset exists, is executable, and matches the host target."

abbrev exit_code_of : Option ExitCode → ExitCode
exit_code_of none = exit_failed "-1"
exit_code_of (some code) = code

-- `ProcessAdbRunner::run`. `output` runs the program to its end, as the operating system does.
unfoldable pub run_adb :
    (String → List String → String ⊎ ProcessOutput) → String → List String → Result AdbCommandOutput
run_adb output adb_binary args = validate_adb_args args >> elim (output adb_binary args) [
  | inl cause ↦ err (adb_spawn_failed adb_binary cause)
  | inr ended ↦
      ok (record {
        exit_code = exit_code_of ended.code;
        stdout = ended.stdout;
        stderr = ended.stderr;
      })
]
