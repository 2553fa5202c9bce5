-- ===== src/Adb/KeepAlive.antt =====
-- keepalive.rs: the state that the keep-alive thread shares, one cycle of the thread, and its loop.
-- The answers of the runner, the clock and the control messages are the loop's events, in the
-- order in which the loop meets them.
pub mod Checks
pub mod Runs
use webadbcontrol.Base.{
  ℕ, suc, String, ◌<>◌, Bool, true, false, Option, none, some, List, [], ◌∷◌, ltb, add_u32,
  if◌then◌else◌,
}
use webadbcontrol.Base.Text.{show_ℕ}
use webadbcontrol.Error.{AppError, new, with_cause, Result, ok, err, ◌>>=◌, ◌>>◌}
use webadbcontrol.Adb.Command.{ExitCode, exit_ok, exit_failed, AdbCommandOutput}

abbrev pub min_interval_secs : ℕ
min_interval_secs = 5

pub record AdbKeepAliveConfig : Type 0 where
  pub enabled : Bool
  pub interval_secs : ℕ

abbrev pub default_config : AdbKeepAliveConfig
default_config = record { enabled = true; interval_secs = 30 }

unfoldable pub interval_invalid : AppError
unfolding new show_ℕ
interval_invalid =
    new "ADB_KEEPALIVE_INTERVAL_INVALID"
      ("ADB keep-alive interval must be at least " <> show_ℕ min_interval_secs <> " seconds.")
      "adb.keepalive" false

unfoldable pub thread_stopped : AppError
unfolding new
thread_stopped =
    new "ADB_KEEPALIVE_THREAD_STOPPED" "ADB keep-alive thread has already stopped." "adb.keepalive"
      false

unfoldable pub validate : AdbKeepAliveConfig → Result (Unit {0})
validate config = if ltb config.interval_secs min_interval_secs then err interval_invalid else ok tt

pub record AdbKeepAliveStatus : Type 0 where
  pub enabled : Bool
  pub interval_secs : ℕ
  pub running : Bool
  pub started_at : Option ℕ
  pub last_check_at : Option ℕ
  pub last_ok : Option Bool
  pub last_exit_code : Option ExitCode
  pub consecutive_failures : ℕ
  pub last_error : Option AppError

unfoldable pub initial : AdbKeepAliveConfig → ℕ → AdbKeepAliveStatus
initial config now = record {
  enabled = config.enabled;
  interval_secs = config.interval_secs;
  running = true;
  started_at = some now;
  last_check_at = none;
  last_ok = none;
  last_exit_code = none;
  consecutive_failures = 0;
  last_error = none;
}

unfoldable pub start_server_failed : String → String → AppError
unfolding new with_cause
start_server_failed code trimmed_stderr =
    with_cause
      (new "ADB_KEEPALIVE_START_SERVER_FAILED" ("adb start-server exited with code " <> code <> ".")
        "adb.keepalive" true)
      ("stderr: " <> trimmed_stderr)

-- `trim` is `str::trim`.
module _ (trim : String → String) where
  unfoldable pub apply_cycle : ℕ → Result AdbCommandOutput → AdbKeepAliveStatus → AdbKeepAliveStatus
  apply_cycle now (err e) status = record status {
    last_check_at = some now;
    last_ok = some false;
    last_exit_code = none;
    consecutive_failures = add_u32 status.consecutive_failures 1;
    last_error = some e;
  }
  apply_cycle now (ok output) status = elim output.exit_code [
    | exit_ok ↦ record status {
      last_check_at = some now;
      last_exit_code = some exit_ok;
      last_ok = some true;
      consecutive_failures = 0;
      last_error = none;
    }
    | exit_failed code ↦ record status {
      last_check_at = some now;
      last_exit_code = some (exit_failed code);
      last_ok = some false;
      consecutive_failures = add_u32 status.consecutive_failures 1;
      last_error = some (start_server_failed code (trim output.stderr));
    }
  ]

unfoldable pub apply_configure : AdbKeepAliveConfig → AdbKeepAliveStatus → AdbKeepAliveStatus
apply_configure config status = record status {
  enabled = config.enabled;
  interval_secs = config.interval_secs;
}

-- A handle's `configure`: the shared status is written before the message is sent, and it is
-- written also if the thread is gone. The message, if it is sent, is given back.
unfoldable pub configure :
    AdbKeepAliveConfig
    → Bool
    → AdbKeepAliveStatus
    → Result (Unit {0}) × Option AdbKeepAliveConfig × AdbKeepAliveStatus
unfolding validate apply_configure
configure config thread_alive status = elim (validate config) [
  | err e ↦ (err e, none, status)
  | ok _ ↦
      if thread_alive
      then (ok tt, some config, apply_configure config status)
      else (err thread_stopped, none, apply_configure config status)
]

-- What may happen while the thread runs: a handle writes the shared status, which `configure` does
-- before it sends; the thread receives a message; it finds the channel without a sender; or its wait
-- times out, and then the runner answers a check.
pub data Event : Type 0 where
  writes receives : AdbKeepAliveConfig → Event
  stops loses_senders : Event
  times_out : ℕ → Result AdbCommandOutput → Event

-- The thread waits, with a time-out if the keep-alive was enabled when the wait began, or has ended.
pub data Phase : Type 0 where
  waits : Bool → Phase
  ended : Phase

pub record KeepAlive : Type 0 where
  pub status : AdbKeepAliveStatus
  pub phase : Phase

-- The next turn of the loop: the status is read, and the wait begins.
abbrev pub next_turn : AdbKeepAliveStatus → KeepAlive
next_turn status = record { status = status; phase = waits status.enabled }

abbrev pub end_loop : AdbKeepAliveStatus → KeepAlive
end_loop status = record { status = record status { running = false }; phase = ended }

module _ (trim : String → String) where
  -- An event that cannot happen changes nothing: a time-out of a wait without one, and anything
  -- the thread would do after its end.
  unfoldable pub step : KeepAlive → Event → KeepAlive
  unfolding apply_configure apply_cycle
  step m (writes config) = record m { status = apply_configure config m.status }
  step m (receives config) = elim m.phase [
    | ended ↦ m
    | waits timed ↦ next_turn (apply_configure config m.status)
  ]
  step m stops = elim m.phase [ ended ↦ m | waits timed ↦ end_loop m.status ]
  step m loses_senders = elim m.phase [ ended ↦ m | waits timed ↦ end_loop m.status ]
  step m (times_out now result) = elim m.phase [
    | ended ↦ m
    | waits timed ↦ if timed then next_turn (apply_cycle trim now result m.status) else m
  ]

  -- `keepalive_loop` after any events, oldest first. The first check comes before the loop.
  unfoldable pub run : KeepAlive → List Event → KeepAlive
  run m [] = m
  run m (event ∷ events) = run (step m event) events

  unfoldable pub keepalive_loop :
      ℕ → Result AdbCommandOutput → List Event → AdbKeepAliveStatus → KeepAlive
  keepalive_loop now first events status =
      run (next_turn (apply_cycle trim now first status)) events
