-- ===== src/Adb/KeepAlive/Checks.antt =====
-- What the shared status says of the checks that were made.
use webadbcontrol.Base.{
  ◌++◌, ℕ, suc, ◌≤◌, ◌≡◌, String, Bool, true, false, none, some, List, [], ◌∷◌, if◌then◌else◌,
  is_some, ◌⊎◌,
}
use webadbcontrol.Error.{AppError, Result, ok, err}
use webadbcontrol.Adb.Command.{exit_ok, exit_failed, AdbCommandOutput}
use webadbcontrol.Adb.KeepAlive.{
  AdbKeepAliveStatus, min_interval_secs, validate, Event, writes, receives, times_out, Phase, waits,
  ended, KeepAlive, step,
}

-- What a check of the server means, read off the runner's answer alone.
abbrev pub succeeded : Result AdbCommandOutput → Bool
succeeded (err e) = false
succeeded (ok output) = elim output.exit_code [ exit_ok ↦ true | exit_failed code ↦ false ]

-- The failures since the last success, with `n` before the first answer. Oldest answer first.
abbrev pub failures : ℕ → List (Result AdbCommandOutput) → ℕ
failures n [] = n
failures n (r ∷ rs) = if succeeded r then failures 0 rs else failures (suc n) rs

-- The answer that the thread gets in this event: only a wait with a time-out can time out.
abbrev pub answer_at : KeepAlive → Event → List (Result AdbCommandOutput)
answer_at m (times_out now r) = elim m.phase [
  | ended ↦ []
  | waits timed ↦ if timed then r ∷ [] else []
]
answer_at m event = []

abbrev pub answers : (String → String) → KeepAlive → List Event → List (Result AdbCommandOutput)
answers trim m [] = []
answers trim m (event ∷ events) = answer_at m event ++ answers trim (step trim m event) events

-- A configuration that a handle accepts.
abbrev pub Accepted : Event → Type 0
Accepted (writes config) = validate config ≡ ok tt
Accepted (receives config) = validate config ≡ ok tt
Accepted _ = Unit

abbrev pub AllAccepted : List Event → Type 0
AllAccepted [] = Unit
AllAccepted (event ∷ events) = Accepted event × AllAccepted events

abbrev pub goes_on : Phase → Bool
goes_on (waits timed) = true
goes_on ended = false

-- The verdict of the last check: it passed, and no error is shown; or it failed, with its error.
abbrev pub Verdict : AdbKeepAliveStatus → Type 0
Verdict status =
    ((status.last_ok ≡ some true)
      × (status.last_error ≡ none)
      × (status.consecutive_failures ≡ 0)
      × (status.last_exit_code ≡ some exit_ok))
    ⊎ ((status.last_ok ≡ some false) × ((e : AppError) × (status.last_error ≡ some e)))

pub record IsConsistent (m : KeepAlive) : Type 0 where
  pub interval : min_interval_secs ≤ m.status.interval_secs
  -- The status says `running` until the thread ends and no longer.
  pub running : m.status.running ≡ goes_on m.phase
  pub checked : is_some m.status.last_check_at ≡ true
  pub verdict : Verdict m.status
