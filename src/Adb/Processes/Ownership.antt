-- ===== src/Adb/Processes/Ownership.antt =====
-- What becomes of every scrcpy process that was started.
use webadbcontrol.Base.{
  ◌++◌, any-append, ℕ, ◌≡◌, refl, String, ◌==◌, Bool, true, false, Option, none, some, List, [],
  ◌∷◌, any, ◌==ℕ◌, ◌⊎◌, inl, inr, arith, eq_iff, eq_refl, Bool-cases, Option-cases, Sum-cases,
}
use webadbcontrol.Base.Map.{Map, lookup, remove, lookup-insert, lookup-remove}
use webadbcontrol.Error.{ok, err, Result-cases}
use webadbcontrol.Adb.Scrcpy.{ScrcpyServerConfig, build_scrcpy_server_args}
use webadbcontrol.Adb.Processes.{
  ScrcpyServerProcess, AdbProcessManager, all_children, drop_manager, scrcpy_stop_failed, ended_by,
  start_scrcpy, StopAnswers, end_child, stop_scrcpy,
}

pub data Event : Type 0 where
  starts : (List String → String ⊎ ℕ) → ScrcpyServerConfig → Event
  stops : StopAnswers → String → Event

unfoldable pub step : AdbProcessManager → Event → AdbProcessManager
step m (starts spawn config) = (start_scrcpy spawn config m).1
step m (stops answers session_id) = (stop_scrcpy answers session_id m).1

unfoldable pub run : AdbProcessManager → List Event → AdbProcessManager
run m [] = m
run m (event ∷ events) = run (step m event) events

abbrev pub among : ℕ → List ℕ → Bool
among child = any (λ c. c ==ℕ child)

-- The table still holds the process under its session's id, or it was told to end or had ended, or
-- it could not be killed.
abbrev pub Accounted : String → ℕ → AdbProcessManager → Type 0
Accounted id child m =
    (lookup id m.children ≡ some child) ⊎ (among child m.ended ≡ true) ⊎ (among child m.lost ≡ true)

among_here : (child : ℕ) (rest : List ℕ) → among child (child ∷ rest) ≡ true
among_here child rest = ground arith

among_later :
    (c child : ℕ) (rest : List ℕ) → among child rest ≡ true → among child (c ∷ rest) ≡ true
among_later c child rest h = ground arith

among-ended_by :
    (child : ℕ) (o : Option ℕ) (ended : List ℕ)
    → among child ended ≡ true
    → among child (ended_by o ended) ≡ true
among-ended_by child none ended h = h
among-ended_by child (some c) ended h = among_later c child ended h

start_scrcpy-Accounted :
    (spawn : List String → String ⊎ ℕ) (config : ScrcpyServerConfig) (m : AdbProcessManager)
    (id : String) (child : ℕ)
    → Accounted id child m
    → Accounted id child (start_scrcpy spawn config m).1
unfolding start_scrcpy
start_scrcpy-Accounted spawn config m id child held =
    elim (Result-cases (build_scrcpy_server_args config)) [
      | inr (e, bad) ↦ rw (bad, start_scrcpy) held
      | inl (args, good) ↦ elim (Sum-cases (spawn args)) [
        | inl (cause, failed) ↦ rw (good, failed, start_scrcpy) held
        | inr (new_child, spawned) ↦
            rw (good, spawned, start_scrcpy)
              (elim held [
                | inl there ↦ elim (Bool-cases (config.session_id == id)) [
                  | inl same ↦
                      let own : config.session_id ≡ id = (eq_iff config.session_id id).0 same in
                      inr (inl (rw (own, there) (among_here child m.ended)))
                  | inr other ↦
                      inl (ground (arith, lookup-insert config.session_id id new_child m.children))
                ]
                | inr (inl gone) ↦
                    inr (
                      inl (among-ended_by child (lookup config.session_id m.children) m.ended gone))
                | inr (inr lost) ↦ inr (inr lost)
              ])
      ]
    ]

more_ended :
    (c : ℕ) (m : AdbProcessManager) (id : String) (child : ℕ)
    → Accounted id child m
    → Accounted id child (record m { ended = c ∷ m.ended })
more_ended c m id child (inl there) = inl there
more_ended c m id child (inr (inl gone)) = inr (inl (among_later c child m.ended gone))
more_ended c m id child (inr (inr lost)) = inr (inr lost)

end_child-ends :
    (answers : StopAnswers) (c : ℕ) (m : AdbProcessManager)
    → (among c (end_child answers c m).1.ended ≡ true)
      ⊎ (among c (end_child answers c m).1.lost ≡ true)
end_child-ends answers c m = elim (Bool-cases (answers.has_ended c)) [
  | inl over ↦ inl (rw (over, end_child) (among_here c m.ended))
  | inr alive ↦ elim (Option-cases (answers.kill c)) [
    | inl killed ↦ inl (rw (alive, killed, end_child) (among_here c m.ended))
    | inr (cause, failed) ↦ inr (rw (alive, failed, end_child) (among_here c m.lost))
  ]
]

end_child-Accounted :
    (answers : StopAnswers) (c : ℕ) (m : AdbProcessManager) (id : String) (child : ℕ)
    → Accounted id child m
    → Accounted id child (end_child answers c m).1
end_child-Accounted answers c m id child held = elim (Bool-cases (answers.has_ended c)) [
  | inl over ↦ rw (over, end_child) (more_ended c m id child held)
  | inr alive ↦ elim (Option-cases (answers.kill c)) [
    | inl killed ↦ rw (alive, killed, end_child) (more_ended c m id child held)
    | inr (cause, failed) ↦
        rw (alive, failed, end_child)
          (elim held [
            | inl there ↦ inl there
            | inr (inl gone) ↦ inr (inl gone)
            | inr (inr lost) ↦ inr (inr (among_later c child m.lost lost))
          ])
  ]
]

stop_scrcpy-Accounted :
    (answers : StopAnswers) (session_id : String) (m : AdbProcessManager) (id : String) (child : ℕ)
    → Accounted id child m
    → Accounted id child (stop_scrcpy answers session_id m).1
unfolding stop_scrcpy
stop_scrcpy-Accounted answers session_id m id child held =
    elim (Option-cases (lookup session_id m.children)) [
      | inl missing ↦ rw (missing, stop_scrcpy) held
      | inr (c, there) ↦
          let without = record m { children = remove session_id m.children } in
          rw (there, stop_scrcpy)
            (elim held [
              | inr old ↦ end_child-Accounted answers c without id child (inr old)
              | inl mine ↦ elim (Bool-cases (session_id == id)) [
                | inl same ↦
                    let own : session_id ≡ id = (eq_iff session_id id).0 same in
                    let is : c ≡ child = ground (arith, own) in
                    inr (rw⁻¹ is (end_child-ends answers c without))
                | inr other ↦
                    end_child-Accounted answers c without id child
                      (inl (ground (arith, lookup-remove session_id id m.children)))
              ]
            ])
    ]

run-Accounted :
    (m : AdbProcessManager) (events : List Event) (id : String) (child : ℕ)
    → Accounted id child m
    → Accounted id child (run m events)
unfolding run step
run-Accounted m [] id child held = held
run-Accounted m (starts spawn config ∷ events) id child held =
    run-Accounted (start_scrcpy spawn config m).1 events id child
      (start_scrcpy-Accounted spawn config m id child held)
run-Accounted m (stops answers session_id ∷ events) id child held =
    run-Accounted (stop_scrcpy answers session_id m).1 events id child
      (stop_scrcpy-Accounted answers session_id m id child held)

start_scrcpy-lookup :
    (spawn : List String → String ⊎ ℕ) (config : ScrcpyServerConfig) (m : AdbProcessManager)
    (process : ScrcpyServerProcess)
    → (start_scrcpy spawn config m).0 ≡ ok process
    → lookup process.session_id (start_scrcpy spawn config m).1.children ≡ some process.process_id
unfolding start_scrcpy
start_scrcpy-lookup spawn config m process h =
    elim (Result-cases (build_scrcpy_server_args config)) [
      | inr (e, bad) ↦ absurd (ground arith)
      | inl (args, good) ↦ elim (Sum-cases (spawn args)) [
        | inl (cause, failed) ↦ absurd (ground arith)
        | inr (child, spawned) ↦ ground (
          arith,
          lookup-insert config.session_id config.session_id child m.children,
          eq_refl config.session_id,
        )
      ]
    ]

-- Whatever is started and stopped later: a process that was started is still in the table, under its
-- session's id, or it was told to end or had ended, or a request to stop it failed.
pub start_scrcpy-Accounted_later :
    (spawn : List String → String ⊎ ℕ) (config : ScrcpyServerConfig) (m : AdbProcessManager)
    (process : ScrcpyServerProcess)
    → (start_scrcpy spawn config m).0 ≡ ok process
    → (events : List Event)
    → Accounted process.session_id process.process_id (run (start_scrcpy spawn config m).1 events)
start_scrcpy-Accounted_later spawn config m process h events =
    run-Accounted (start_scrcpy spawn config m).1 events process.session_id process.process_id
      (inl (start_scrcpy-lookup spawn config m process h))

among-all_children :
    (id : String) (child : ℕ) (children : Map ℕ)
    → lookup id children ≡ some child
    → among child (all_children children) ≡ true
unfolding lookup
among-all_children id child [] h = cc
among-all_children id child ((other, c) ∷ more) h = ground (arith, among-all_children id child more)

among_first :
    (child : ℕ) (xs ys : List ℕ)
    → (among child xs ≡ true) ⊎ (among child ys ≡ true)
    → among child (xs ++ ys) ≡ true
among_first child xs ys h = ground (arith, any-append (λ c. c ==ℕ child) xs ys)

-- Whatever is started and stopped later, when the manager is dropped a process that was started has
-- been told to end or had ended, unless a request to stop it failed.
pub drop_manager-ended :
    (spawn : List String → String ⊎ ℕ) (config : ScrcpyServerConfig) (m : AdbProcessManager)
    (process : ScrcpyServerProcess)
    → (start_scrcpy spawn config m).0 ≡ ok process
    → (events : List Event)
    → let after = drop_manager (run (start_scrcpy spawn config m).1 events) in
      (among process.process_id after.ended ≡ true) ⊎ (among process.process_id after.lost ≡ true)
unfolding drop_manager
drop_manager-ended spawn config m process h events =
    let last = run (start_scrcpy spawn config m).1 events in
    let children = all_children last.children in
    elim (start_scrcpy-Accounted_later spawn config m process h events) [
      | inl there ↦ inl (
          among_first process.process_id children last.ended
            (inl (among-all_children process.session_id process.process_id last.children there)))
      | inr (inl ended) ↦ inl (among_first process.process_id children last.ended (inr ended))
      | inr (inr lost) ↦ inr lost
    ]

-- A process that could not be killed is forgotten all the same: the request to stop it fails, and
-- the next one answers that there is nothing to stop.
pub stop_scrcpy-lost :
    (answers later : StopAnswers) (id cause : String) (m : AdbProcessManager) (child : ℕ)
    → lookup id m.children ≡ some child
    → answers.has_ended child ≡ false
    → answers.kill child ≡ some cause
    → let (first, after) = stop_scrcpy answers id m in
      (first ≡ err (scrcpy_stop_failed cause))
      × (among child after.lost ≡ true)
      × (stop_scrcpy later id after ≡ (ok false, after))
unfolding stop_scrcpy
stop_scrcpy-lost answers later id cause m child there alive failed =
    let after = record m { children = remove id m.children; lost = child ∷ m.lost } in
    let first : stop_scrcpy answers id m ≡ (err (scrcpy_stop_failed cause), after) =
      rw (there, alive, failed, stop_scrcpy, end_child) refl in
    let gone : lookup id after.children ≡ none =
      ground (arith, lookup-remove id id m.children, eq_refl id) in
    let second : stop_scrcpy later id after ≡ (ok false, after) = rw (gone, stop_scrcpy) refl in
    rw first (refl, among_here child m.lost, second)
