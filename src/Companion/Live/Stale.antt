-- ===== src/Companion/Live/Stale.antt =====
-- The registry after a device has disconnected.
use webadbcontrol.Base.{
  ℕ, ◌≡◌, refl, ap, ◌∙◌, String, ◌==◌, Bool, true, false, ◌||◌, some, List, [], ◌∷◌, arith, inl,
  inr, eq_refl, Bool-cases, Option-cases, any, is_some,
}
use webadbcontrol.Base.Map.{lookup, values}
use webadbcontrol.Error.{ok, err, Result-cases}
use webadbcontrol.Companion.Protocol.{QuicMessageKind, heartbeat, validate_quic_envelope}
use webadbcontrol.Companion.Registry.{
  CompanionDevice, CompanionRegistry, find_device, get_device, not_connected, upsert,
  find_device-upsert,
}
use webadbcontrol.Companion.Session.{SerdeJson, CompanionSession, CompanionSessionManager, devices}
use webadbcontrol.Companion.Session.Handlers.{Envelope, dispatch, handle_envelope}
use webadbcontrol.Companion.Ingress.{
  by_kind, CompanionIngress, dispatch_envelope, ingress_handle_envelope,
}
use webadbcontrol.Companion.Live.{
  SessionHandle, LiveState, is_answer, belongs, upsert_all, disconnect, disconnect_connection,
  disconnect_all, connection_devices, accept_envelope,
}
use webadbcontrol.Companion.Live.Routes.{disconnect_connection_lem}

is_device : String → CompanionDevice → Bool
is_device id d = d.device_id == id

find_device-upsert_all :
    (ds : List CompanionDevice) (registry : CompanionRegistry) (id : String)
    → is_some (find_device id (upsert_all ds registry))
      ≡ (any (is_device id) ds || is_some (find_device id registry))
unfolding upsert_all is_device
find_device-upsert_all [] registry id = refl
find_device-upsert_all (d ∷ ds) registry id =
    ground
      (arith, find_device-upsert_all ds (upsert d registry) id, find_device-upsert d id registry)

devices_lem :
    (sessions : CompanionSessionManager) (id : String) (s : CompanionSession)
    → lookup id sessions ≡ some s
    → s.device_id ≡ id
    → any (is_device id) (devices sessions) ≡ true
unfolding lookup devices values is_device
devices_lem [] id s h own = absurd (ground arith)
devices_lem ((j, r) ∷ sessions) id s h own = elim (Bool-cases (j == id)) [
  | inl same ↦ ground (arith, eq_refl id)
  | inr other ↦ ground (arith, devices_lem sessions id s)
]

disconnect_all_ingress :
    (c : ℕ) (ids : List String) (m : LiveState) → (disconnect_all c ids m).ingress ≡ m.ingress
unfolding disconnect_all disconnect
disconnect_all_ingress c [] m = refl
disconnect_all_ingress c (id ∷ ids) m = elim (Bool-cases (belongs c (lookup id m.sessions))) [
  | inl mine ↦ ground (arith, disconnect_all_ingress c ids (disconnect c (some id) m))
  | inr other ↦ ground (arith, disconnect_all_ingress c ids m)
]

module _ (J : SerdeJson) where
  dispatch_heartbeat :
      (kind : QuicMessageKind) (envelope : Envelope J) (sessions : CompanionSessionManager)
      → kind ≡ heartbeat
      → (dispatch J kind envelope sessions).1 ≡ sessions
  dispatch_heartbeat kind envelope sessions h = rw h refl

  by_kind_heartbeat :
      (kind : QuicMessageKind) (envelope : Envelope J) (ingress : CompanionIngress)
      → kind ≡ heartbeat
      → (by_kind J kind envelope ingress).1.session_manager
        ≡ (handle_envelope J envelope ingress.session_manager).1
  by_kind_heartbeat kind envelope ingress h = rw h refl

  heartbeat_sessions :
      (envelope : Envelope J) (ingress : CompanionIngress)
      → envelope.kind ≡ heartbeat
      → (ingress_handle_envelope J envelope ingress).1.session_manager ≡ ingress.session_manager
  unfolding ingress_handle_envelope dispatch_envelope handle_envelope
  heartbeat_sessions envelope ingress h = elim (Result-cases (validate_quic_envelope envelope)) [
    | inr (e, bad) ↦ rw (bad, dispatch_envelope) refl
    | inl (_, good) ↦
        rw (good, dispatch_envelope)
          (by_kind_heartbeat envelope.kind envelope ingress h
            ∙ rw (good, handle_envelope)
                (dispatch_heartbeat envelope.kind envelope ingress.session_manager h))
  ]

  not_answer : (kind : QuicMessageKind) → kind ≡ heartbeat → is_answer kind ≡ false
  not_answer kind h = rw h refl

  accept_heartbeat-registry :
      (handle : SessionHandle) (queue_is_open : Bool) (envelope : Envelope J) (m : LiveState)
      → validate_quic_envelope envelope ≡ ok tt
      → envelope.kind ≡ heartbeat
      → (accept_envelope J handle queue_is_open envelope m).2.registry
        ≡ upsert_all (devices m.ingress.session_manager) m.registry
  unfolding accept_envelope
  accept_heartbeat-registry handle queue_is_open envelope m good h =
      rw (good, not_answer envelope.kind h, accept_envelope)
        (ap (λ s. upsert_all (devices s) m.registry) (heartbeat_sessions envelope m.ingress h))

  -- The session manager forgets no session. So once a device's connection has ended and the
  -- device has left the registry, a heartbeat of any connection lists it there again.
  pub get_device-heartbeat :
      (c : ℕ) (id : String) (s : CompanionSession) (m : LiveState)
      → lookup id m.ingress.session_manager ≡ some s
      → s.device_id ≡ id
      → belongs c (lookup id m.sessions) ≡ true
      → (handle : SessionHandle) (queue_is_open : Bool) (envelope : Envelope J)
      → validate_quic_envelope envelope ≡ ok tt
      → envelope.kind ≡ heartbeat
      → let gone = disconnect_connection c m in
        (get_device id gone.registry ≡ err (not_connected id))
        × ((d : CompanionDevice) × (get_device id
                (accept_envelope J handle queue_is_open envelope gone).2.registry
              ≡ ok d))
  unfolding get_device disconnect_connection
  get_device-heartbeat c id s m known own mine handle queue_is_open envelope good h =
      let ids = connection_devices c m.sessions in
      let gone = disconnect_all c ids m in
      let after = accept_envelope J handle queue_is_open envelope gone in
      let (_, lost) = disconnect_connection_lem c m id in
      let kept = disconnect_all_ingress c ids m in
      let listed = accept_heartbeat-registry handle queue_is_open envelope gone good h in
      let there = devices_lem gone.ingress.session_manager id s (rw kept known) own in
      let found = find_device-upsert_all (devices gone.ingress.session_manager) gone.registry id in
      (
        ground (arith, lost),
        elim (Option-cases (find_device id after.2.registry)) [
          | inr (d, e) ↦ (d, ground arith)
          | inl e ↦ absurd (ground (arith, listed, there, found))
        ],
      )
