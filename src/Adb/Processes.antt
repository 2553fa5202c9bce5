-- ===== src/Adb/Processes.antt =====
-- adb.rs: `AdbProcessManager`, the table of the long-running scrcpy processes. What the operating
-- system answers is an argument; what becomes of a process is kept beside the table.
pub mod Ownership
use webadbcontrol.Base.{
  ℕ, String, Bool, true, false, Option, none, some, List, [], ◌∷◌, ◌++◌, ◌⊎◌, inl, inr,
}
use webadbcontrol.Base.Map.{Map, lookup, insert, remove}
use webadbcontrol.Error.{AppError, new, with_cause, with_suggestion, Result, ok, err}
use webadbcontrol.Adb.Scrcpy.{ScrcpyServerConfig, build_scrcpy_server_args}

pub record ScrcpyServerProcess : Type 0 where
  pub session_id : String
  pub process_id : ℕ

-- `children` holds the process id of each child. `ended` are the children that were told to end, or
-- had ended; `lost` those that could not be killed. The lock is never poisoned: no code that holds
-- it panics.
pub record AdbProcessManager : Type 0 where
  pub children : Map ℕ
  pub ended : List ℕ
  pub lost : List ℕ

unfoldable pub scrcpy_spawn_failed : String → AppError
unfolding new with_cause with_suggestion
scrcpy_spawn_failed cause =
    with_suggestion
      (with_cause
        (new "SCRCPY_PROCESS_SPAWN_FAILED" "Failed to start the scrcpy ADB process." "adb.scrcpy"
          true)
        cause)
      "Verify the selected device and installed Companion APK."

unfoldable pub scrcpy_stop_failed : String → AppError
unfolding new with_cause
scrcpy_stop_failed cause =
    with_cause
      (new "SCRCPY_PROCESS_STOP_FAILED" "Failed to stop the scrcpy ADB process." "adb.scrcpy" true)
      cause

abbrev pub ended_by : Option ℕ → List ℕ → List ℕ
ended_by none ended = ended
ended_by (some previous) ended = previous ∷ ended

-- `spawn` is given the arguments, and answers the child's process id.
unfoldable pub start_scrcpy :
    (List String → String ⊎ ℕ)
    → ScrcpyServerConfig
    → AdbProcessManager
    → Result ScrcpyServerProcess × AdbProcessManager
start_scrcpy spawn config manager = elim (build_scrcpy_server_args config) [
  | err e ↦ (err e, manager)
  | ok args ↦ elim (spawn args) [
    | inl cause ↦ (err (scrcpy_spawn_failed cause), manager)
    | inr process_id ↦ (
      ok (record { session_id = config.session_id; process_id = process_id }),
      record manager {
        children = insert config.session_id process_id manager.children;
        ended = ended_by (lookup config.session_id manager.children) manager.ended;
      },
    )
  ]
]

-- Whether `try_wait` finds that the child has ended, and what `kill` answers.
pub record StopAnswers : Type 0 where
  pub has_ended : ℕ → Bool
  pub kill : ℕ → Option String

abbrev pub end_child : StopAnswers → ℕ → AdbProcessManager → Result Bool × AdbProcessManager
end_child answers child manager =
    let gone = record manager { ended = child ∷ manager.ended } in
    elim (answers.has_ended child) [
      | true ↦ (ok true, gone)
      | false ↦ elim (answers.kill child) [
        | some cause ↦
            (err (scrcpy_stop_failed cause), record manager { lost = child ∷ manager.lost })
        | none ↦ (ok true, gone)
      ]
    ]

unfoldable pub stop_scrcpy :
    StopAnswers → String → AdbProcessManager → Result Bool × AdbProcessManager
stop_scrcpy answers session_id manager = elim (lookup session_id manager.children) [
  | none ↦ (ok false, manager)
  | some child ↦
      end_child answers child (record manager { children = remove session_id manager.children })
]

abbrev pub all_children : Map ℕ → List ℕ
all_children [] = []
all_children ((session_id, child) ∷ more) = child ∷ all_children more

-- `Drop`: every child is told to end and waited for, so that each has ended, also one that `kill`
-- failed for.
unfoldable pub drop_manager : AdbProcessManager → AdbProcessManager
drop_manager manager = record manager {
  children = [];
  ended = all_children manager.children ++ manager.ended;
}
