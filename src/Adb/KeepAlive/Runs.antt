-- ===== src/Adb/KeepAlive/Runs.antt =====
-- The shared status after any events of the keep-alive thread.
use webadbcontrol.Base.{
  ap, sym, ◌++◌, ◌∙◌, ℕ, suc, ◌%◌, ◌^◌, ◌≡◌, refl, String, Bool, true, false, List, [], ◌∷◌, arith,
  add_u32, if◌then◌else◌, inl, inr, Bool-cases, ◌⊎◌,
}
use webadbcontrol.Error.{Result, ok, err}
use webadbcontrol.Adb.Command.{AdbCommandOutput}
use webadbcontrol.Adb.KeepAlive.{
  AdbKeepAliveConfig, AdbKeepAliveStatus, initial, apply_cycle, apply_configure, Event, writes,
  receives, stops, loses_senders, times_out, Phase, waits, ended, KeepAlive, step, run,
  keepalive_loop, next_turn,
}
use webadbcontrol.Adb.KeepAlive.Checks.{answer_at, answers, failures, succeeded}

Phase-cases : (phase : Phase) → (phase ≡ ended) ⊎ ((timed : Bool) × (phase ≡ waits timed))
Phase-cases ended = inl refl
Phase-cases (waits timed) = inr (timed, refl)

module _ (trim : String → String) where
  apply_cycle_count :
      (now : ℕ) (r : Result AdbCommandOutput) (status : AdbKeepAliveStatus)
      → (apply_cycle trim now r status).consecutive_failures
        ≡ (if succeeded r then 0 else add_u32 status.consecutive_failures 1)
  unfolding apply_cycle
  apply_cycle_count now (err e) status = refl
  apply_cycle_count now (ok output) status = ground arith

  failures_lem :
      (n k : ℕ) (rs : List (Result AdbCommandOutput))
      → n % 2 ^ 32 ≡ k % 2 ^ 32
      → failures n rs % 2 ^ 32 ≡ failures k rs % 2 ^ 32
  failures_lem n k [] h = h
  failures_lem n k (r ∷ rs) h = elim (Bool-cases (succeeded r)) [
    | inl passed ↦ rw passed refl
    | inr failed ↦ rw failed (failures_lem (suc n) (suc k) rs (omega (arith, h)))
  ]

  configured_count :
      (config : AdbKeepAliveConfig) (status : AdbKeepAliveStatus)
      → (apply_configure config status).consecutive_failures ≡ status.consecutive_failures
  unfolding apply_configure
  configured_count config status = refl

  failures_append :
      (n : ℕ) (rs qs : List (Result AdbCommandOutput))
      → failures n (rs ++ qs) ≡ failures (failures n rs) qs
  failures_append n [] qs = refl
  failures_append n (r ∷ rs) qs = elim (Bool-cases (succeeded r)) [
    | inl passed ↦ rw passed (failures_append 0 rs qs)
    | inr failed ↦ rw failed (failures_append (suc n) rs qs)
  ]

  step_count :
      (m : KeepAlive) (event : Event)
      → m.status.consecutive_failures ≡ m.status.consecutive_failures % 2 ^ 32
      → (step trim m event).status.consecutive_failures
        ≡ failures m.status.consecutive_failures (answer_at m event) % 2 ^ 32
  unfolding step
  step_count m (writes config) h = configured_count config m.status ∙ h
  step_count m (receives config) h = elim (Phase-cases m.phase) [
    | inl over ↦ rw (over, step) h
    | inr (timed, on) ↦ rw (on, step) (configured_count config m.status ∙ h)
  ]
  step_count m stops h = elim (Phase-cases m.phase) [
    | inl over ↦ rw (over, step) h
    | inr (timed, on) ↦ rw (on, step) h
  ]
  step_count m loses_senders h = elim (Phase-cases m.phase) [
    | inl over ↦ rw (over, step) h
    | inr (timed, on) ↦ rw (on, step) h
  ]
  step_count m (times_out now r) h = elim (Phase-cases m.phase) [
    | inl over ↦ rw (over, step) h
    | inr (false, on) ↦ rw (on, step) h
    | inr (true, on) ↦ rw (on, step) (ground (arith, apply_cycle_count now r m.status))
  ]

  run_count :
      (m : KeepAlive) (events : List Event)
      → m.status.consecutive_failures ≡ m.status.consecutive_failures % 2 ^ 32
      → (run trim m events).status.consecutive_failures
        ≡ failures m.status.consecutive_failures (answers trim m events) % 2 ^ 32
  unfolding run
  run_count m [] h = h
  run_count m (event ∷ events) h =
      let next = step trim m event in
      let rest = answers trim next events in
      let here = failures m.status.consecutive_failures (answer_at m event) in
      let counted = step_count m event h in
      run_count next events (omega (arith, counted))
      ∙ failures_lem next.status.consecutive_failures here rest (omega (arith, counted))
      ∙ ap (λ n. n % 2 ^ 32)
          (sym (failures_append m.status.consecutive_failures (answer_at m event) rest))

  -- The counter is the number of checks that failed since the last one that passed, modulo 2 ^ 32,
  -- whatever messages and writes came between the checks.
  pub keepalive_loop_count :
      (config : AdbKeepAliveConfig) (started now : ℕ) (first : Result AdbCommandOutput)
      (events : List Event)
      → let begun = next_turn (apply_cycle trim now first (initial config started)) in
        (keepalive_loop trim now first events (initial config started)).status.consecutive_failures
        ≡ failures 0 (first ∷ answers trim begun events) % 2 ^ 32
  unfolding keepalive_loop initial
  keepalive_loop_count config started now first events =
      let begun = next_turn (apply_cycle trim now first (initial config started)) in
      let count = apply_cycle_count now first (initial config started) in
      let here : begun.status.consecutive_failures ≡ failures 0 (first ∷ []) % 2 ^ 32 =
        ground (arith, count) in
      run_count begun events (omega (arith, here))
      ∙ failures_lem begun.status.consecutive_failures (failures 0 (first ∷ []))
          (answers trim begun events) (omega (arith, here))
      ∙ ap (λ n. n % 2 ^ 32) (sym (failures_append 0 (first ∷ []) (answers trim begun events)))
