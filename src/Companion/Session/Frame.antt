-- ===== src/Companion/Session/Frame.antt =====
-- What one envelope may change: nothing if it is refused, and else the session of one device.
use webadbcontrol.Base.{
  ℕ, ◌≡◌, ◌≢◌, refl, String, ◌==◌, some, List, arith, inl, inr, eq_iff, Option-cases, Bool-cases,
}
use webadbcontrol.Base.Map.{lookup, insert, lookup-insert}
use webadbcontrol.Error.{AppError, Result, ok, err, first_ok, Result-cases}
use webadbcontrol.Companion.Capability.{Capability, CapabilityPermissionState}
use webadbcontrol.Companion.Protocol.{
  QuicMessageKind, hello, hello_ack, heartbeat, capability_list, permission_state, command_request,
  command_response, stream_open, stream_chunk, stream_close, error, CompanionHello,
  validate_quic_envelope,
}
use webadbcontrol.Companion.Session.{
  CompanionSession, CompanionSessionManager, SerdeJson, AnnouncedCapability,
  AnnouncedPermissionState, resolve_capability, resolve_state, resolve_all,
}
use webadbcontrol.Companion.Session.Handlers.{
  Envelope, opened, with_capabilities, with_states, required_id, parse_required_payload_field,
  check_hello, check_capability_list, check_permission_state, acknowledged, handle_hello,
  handle_capability_list, handle_permission_state, handle_heartbeat, dispatch, handle_envelope,
}

-- The session `new` is written for the device `id`.
pub data Wrote (sessions : CompanionSessionManager) (id : String) (new : CompanionSession)
    : Type 0 where
  by_hello : (g : CompanionHello) → id ≡ g.device_id → new ≡ opened g → Wrote sessions id new
  by_list :
      (old : CompanionSession) (announced : List AnnouncedCapability)
      (capabilities : List Capability)
      → lookup id sessions ≡ some old
      → resolve_all resolve_capability announced ≡ ok capabilities
      → new ≡ with_capabilities capabilities old
      → Wrote sessions id new
  by_states :
      (old : CompanionSession) (announced : List AnnouncedPermissionState)
      (states : List CapabilityPermissionState)
      → lookup id sessions ≡ some old
      → resolve_all resolve_state announced ≡ ok states
      → new ≡ with_states states old
      → Wrote sessions id new

module _ (J : SerdeJson) where
  check_capability_list-Wrote :
      (envelope : Envelope J) (sessions : CompanionSessionManager) (id : String)
      (new : CompanionSession)
      → check_capability_list J envelope sessions ≡ ok (id, new)
      → Wrote sessions id new
  unfolding check_capability_list
  check_capability_list-Wrote envelope sessions id new h =
      let (d, hd, h1) = first_ok (required_id envelope.device_id) _ h in
      let (announced, ha, h2) =
        first_ok
          (parse_required_payload_field J J.capabilities_from_value envelope.payload "capabilities"
            "COMPANION_CAPABILITY_SCHEMA_INVALID" "Companion capabilityList payload is invalid.")
          _ h1 in
      let (capabilities, hc, h3) = first_ok (resolve_all resolve_capability announced) _ h2 in
      elim (Option-cases (lookup d sessions)) [
        | inl e ↦ absurd (ground arith)
        | inr (old, e) ↦ by_list old announced capabilities (ground arith) hc (ground arith)
      ]

  check_permission_state-Wrote :
      (envelope : Envelope J) (sessions : CompanionSessionManager) (id : String)
      (new : CompanionSession)
      → check_permission_state J envelope sessions ≡ ok (id, new)
      → Wrote sessions id new
  unfolding check_permission_state
  check_permission_state-Wrote envelope sessions id new h =
      let (d, hd, h1) = first_ok (required_id envelope.device_id) _ h in
      let (announced, ha, h2) =
        first_ok
          (parse_required_payload_field J J.states_from_value envelope.payload "states"
            "COMPANION_PERMISSION_STATE_INVALID" "Companion permissionState payload is invalid.")
          _ h1 in
      let (states, hc, h3) = first_ok (resolve_all resolve_state announced) _ h2 in
      elim (Option-cases (lookup d sessions)) [
        | inl e ↦ absurd (ground arith)
        | inr (old, e) ↦ by_states old announced states (ground arith) hc (ground arith)
      ]

  -- An answer is a refusal that changes nothing, or it names the device, and then the sessions are
  -- as they were or that device's session is written.
  pub data Outcome (sessions : CompanionSessionManager)
      : Result (Envelope J) × CompanionSessionManager → Type 0 where
    refuses : (e : AppError) → Outcome sessions (err e, sessions)
    keeps : (answer : Envelope J) → Outcome sessions (ok answer, sessions)
    writes :
        (answer : Envelope J) (id : String) (new : CompanionSession)
        → answer.device_id ≡ some id
        → Wrote sessions id new
        → Outcome sessions (ok answer, insert id new sessions)

  acknowledged-Outcome :
      (envelope : Envelope J) (counted : String) (count : CompanionSession → ℕ)
      (r : Result (String × CompanionSession)) (sessions : CompanionSessionManager)
      → ((id : String) (new : CompanionSession) → r ≡ ok (id, new) → Wrote sessions id new)
      → Outcome sessions (acknowledged J envelope counted count r sessions)
  unfolding acknowledged
  acknowledged-Outcome envelope counted count (err e) sessions f = refuses e
  acknowledged-Outcome envelope counted count (ok (id, new)) sessions f =
      writes _ id new refl (f id new refl)

  handle_hello-Outcome :
      (envelope : Envelope J) (sessions : CompanionSessionManager)
      → Outcome sessions (handle_hello J envelope sessions)
  unfolding handle_hello
  handle_hello-Outcome envelope sessions = elim (Result-cases (check_hello J envelope)) [
    | inr (e, bad) ↦ rw (bad, handle_hello) (refuses e)
    | inl (g, good) ↦
        rw (good, handle_hello) (writes _ g.device_id (opened g) refl (by_hello g refl refl))
  ]

  heartbeat-Outcome :
      (r : Result (Envelope J)) (sessions : CompanionSessionManager)
      → Outcome sessions (r, sessions)
  heartbeat-Outcome (err e) sessions = refuses e
  heartbeat-Outcome (ok answer) sessions = keeps answer

  dispatch-Outcome :
      (kind : QuicMessageKind) (envelope : Envelope J) (sessions : CompanionSessionManager)
      → Outcome sessions (dispatch J kind envelope sessions)
  unfolding handle_capability_list handle_permission_state
  dispatch-Outcome hello envelope sessions = handle_hello-Outcome envelope sessions
  dispatch-Outcome capability_list envelope sessions =
      acknowledged-Outcome envelope _ _ _ sessions (check_capability_list-Wrote envelope sessions)
  dispatch-Outcome permission_state envelope sessions =
      acknowledged-Outcome envelope _ _ _ sessions (check_permission_state-Wrote envelope sessions)
  dispatch-Outcome heartbeat envelope sessions =
      heartbeat-Outcome (handle_heartbeat J envelope sessions) sessions
  dispatch-Outcome hello_ack envelope sessions = refuses _
  dispatch-Outcome command_request envelope sessions = refuses _
  dispatch-Outcome command_response envelope sessions = refuses _
  dispatch-Outcome stream_open envelope sessions = refuses _
  dispatch-Outcome stream_chunk envelope sessions = refuses _
  dispatch-Outcome stream_close envelope sessions = refuses _
  dispatch-Outcome error envelope sessions = refuses _

  pub handle_envelope-Outcome :
      (envelope : Envelope J) (sessions : CompanionSessionManager)
      → Outcome sessions (handle_envelope J envelope sessions)
  unfolding handle_envelope
  handle_envelope-Outcome envelope sessions =
      elim (Result-cases (validate_quic_envelope envelope)) [
        | inr (e, bad) ↦ rw (bad, handle_envelope) (refuses e)
        | inl (_, good) ↦
            rw (good, handle_envelope) (dispatch-Outcome envelope.kind envelope sessions)
      ]

  Outcome-others :
      (sessions : CompanionSessionManager) (after : Result (Envelope J) × CompanionSessionManager)
      (j : String)
      → Outcome sessions after
      → ((answer : Envelope J) → after.0 ≡ ok answer → answer.device_id ≢ some j)
      → lookup j after.1 ≡ lookup j sessions
  Outcome-others sessions _ j (refuses e) other = refl
  Outcome-others sessions _ j (keeps answer) other = refl
  Outcome-others sessions _ j (writes answer id new is w) other = elim (Bool-cases (id == j)) [
    | inl same ↦ absurd (other answer refl (ground (arith, eq_iff id j)))
    | inr apart ↦ ground (arith, lookup-insert id j new sessions)
  ]

  -- An envelope leaves the session of every device alone but that of the device which Core's answer
  -- names; an envelope that is refused has no answer and changes no session.
  pub handle_envelope-others :
      (envelope : Envelope J) (sessions : CompanionSessionManager) (j : String)
      → ((answer : Envelope J)
          → (handle_envelope J envelope sessions).0 ≡ ok answer
          → answer.device_id ≢ some j)
      → lookup j (handle_envelope J envelope sessions).1 ≡ lookup j sessions
  handle_envelope-others envelope sessions j other =
      Outcome-others sessions (handle_envelope J envelope sessions) j
        (handle_envelope-Outcome envelope sessions) other
