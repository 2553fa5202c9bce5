-- ===== src/Adb/ProcessTests.antt =====
-- The table of the scrcpy processes on concrete inputs, and its theorems there.
use webadbcontrol.Base.{ℕ, ◌≡◌, refl, ap, String, true, false, none, some, List, [], ◌∷◌, inr, ◌⊎◌}
use webadbcontrol.Base.Text.{text_eq, is_blank, is_ascii_alphanumeric, hex_padded, show_ℕ}
use webadbcontrol.Base.Map.{lookup, insert, remove}
use webadbcontrol.Error.{ok, err}
use webadbcontrol.Adb.Command.{validate_adb_args}
use webadbcontrol.Adb.Scrcpy.{validate_scrcpy_config, build_scrcpy_server_args}
use webadbcontrol.Adb.Processes.{
  AdbProcessManager, StopAnswers, scrcpy_stop_failed, start_scrcpy, stop_scrcpy, drop_manager,
}
use webadbcontrol.Adb.Processes.Ownership.{
  Event, starts, stops, run, Accounted, among, start_scrcpy-Accounted_later, drop_manager-ended,
  stop_scrcpy-lost,
}
use webadbcontrol.Adb.Tests.{scrcpy}

abbrev no_processes : AdbProcessManager
no_processes = record { children = []; ended = []; lost = [] }

abbrev spawns : ℕ → List String → String ⊎ ℕ
spawns process_id args = inr process_id

abbrev started : AdbProcessManager
started = record { children = ("web-1234abcd", 41) ∷ []; ended = []; lost = [] }

start_test :
    start_scrcpy (spawns 41) scrcpy no_processes
    ≡ (ok (record { session_id = "web-1234abcd"; process_id = 41 }), started)
unfolding start_scrcpy build_scrcpy_server_args validate_scrcpy_config validate_adb_args is_blank
    is_ascii_alphanumeric text_eq lookup insert remove hex_padded show_ℕ
start_test = refl

abbrev obedient : StopAnswers
obedient = record { has_ended = λ child. false; kill = λ child. none }

abbrev stubborn : StopAnswers
stubborn = record { has_ended = λ child. false; kill = λ child. some "denied" }

abbrev later_events : List Event
later_events = starts (spawns 42) scrcpy ∷ stops stubborn "web-1234abcd" ∷ []

start_scrcpy-Accounted_later_test :
    Accounted "web-1234abcd" 41 (run (start_scrcpy (spawns 41) scrcpy no_processes).1 later_events)
start_scrcpy-Accounted_later_test =
    start_scrcpy-Accounted_later (spawns 41) scrcpy no_processes
      (record { session_id = "web-1234abcd"; process_id = 41 }) (ap (λ o. o.0) start_test)
      later_events

drop_manager-ended_example :
    let after = drop_manager (run (start_scrcpy (spawns 41) scrcpy no_processes).1 later_events) in
    (among 41 after.ended ≡ true) ⊎ (among 41 after.lost ≡ true)
drop_manager-ended_example =
    drop_manager-ended (spawns 41) scrcpy no_processes
      (record { session_id = "web-1234abcd"; process_id = 41 }) (ap (λ o. o.0) start_test)
      later_events

lookup_test : lookup "web-1234abcd" started.children ≡ some 41
unfolding lookup
lookup_test = refl

stop_scrcpy-lost_example :
    let (first, after) = stop_scrcpy stubborn "web-1234abcd" started in
    (first ≡ err (scrcpy_stop_failed "denied"))
    × (among 41 after.lost ≡ true)
    × (stop_scrcpy obedient "web-1234abcd" after ≡ (ok false, after))
stop_scrcpy-lost_example =
    stop_scrcpy-lost stubborn obedient "web-1234abcd" "denied" started 41 lookup_test refl refl
