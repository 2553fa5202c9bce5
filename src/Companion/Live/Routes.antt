-- ===== src/Companion/Live/Routes.antt =====
-- Which connection a device's commands go to.
use webadbcontrol.Base.{
  ℕ, ◌≡◌, refl, String, ◌==◌, Bool, true, false, ◌&&◌, Option, none, some, List, [], ◌∷◌,
  if◌then◌else◌, arith, inl, inr, eq_iff, eq_refl, Bool-cases,
}
use webadbcontrol.Base.Text.{contains}
use webadbcontrol.Base.Map.{Map, lookup, lookup-insert, lookup-remove}
use webadbcontrol.Error.{Result, ok, err, Result-cases}
use webadbcontrol.Companion.Protocol.{
  QuicMessageKind, hello, hello_ack, heartbeat, capability_list, permission_state, command_request,
  command_response, stream_open, stream_chunk, stream_close, error, QuicEnvelope,
  validate_quic_envelope,
}
use webadbcontrol.Companion.Registry.{find_device, find_device-remove_device}
use webadbcontrol.Companion.Session.{SerdeJson}
use webadbcontrol.Companion.Session.Handlers.{Envelope}
use webadbcontrol.Companion.Live.{
  SessionHandle, LiveState, is_answer, is_hello, routed, belongs, disconnect, connection_devices,
  disconnect_all, disconnect_connection, accept_envelope,
}

abbrev pub is_ok {ℓ} : {A : Type ℓ} → Result A → Bool
is_ok (ok a) = true
is_ok (err e) = false

abbrev pub names : Option String → String → Bool
names none j = false
names (some id) j = id == j

-- The envelope is a hello whose own header names the device. Its payload is not looked at.
abbrev pub claims : {V : Type 0} → QuicEnvelope V → String → Bool
claims envelope j =
    is_ok (validate_quic_envelope envelope) && is_hello envelope.kind && names envelope.device_id j

routed_lem :
    (b : Bool) (device_id : Option String) (handle : SessionHandle) (sessions : Map SessionHandle)
    (j : String)
    → lookup j (routed b device_id handle sessions)
      ≡ (if b && names device_id j then some handle else lookup j sessions)
routed_lem true none handle sessions j = refl
routed_lem true (some id) handle sessions j = lookup-insert id j handle sessions
routed_lem false device_id handle sessions j = refl

answer_not_hello : (kind : QuicMessageKind) → is_answer kind ≡ true → is_hello kind ≡ false
answer_not_hello command_response h = refl
answer_not_hello error h = refl
answer_not_hello hello h = absurd (ground arith)
answer_not_hello hello_ack h = absurd (ground arith)
answer_not_hello heartbeat h = absurd (ground arith)
answer_not_hello capability_list h = absurd (ground arith)
answer_not_hello permission_state h = absurd (ground arith)
answer_not_hello command_request h = absurd (ground arith)
answer_not_hello stream_open h = absurd (ground arith)
answer_not_hello stream_chunk h = absurd (ground arith)
answer_not_hello stream_close h = absurd (ground arith)

module _ (J : SerdeJson) where
  -- An envelope takes a device's commands over to its connection exactly if it is a hello whose
  -- header names the device: also if the session manager refuses that hello.
  pub accept_envelope-route :
      (handle : SessionHandle) (queue_is_open : Bool) (envelope : Envelope J) (m : LiveState)
      (j : String)
      → lookup j (accept_envelope J handle queue_is_open envelope m).2.sessions
        ≡ (if claims envelope j then some handle else lookup j m.sessions)
  unfolding accept_envelope
  accept_envelope-route handle queue_is_open envelope m j =
      elim (Result-cases (validate_quic_envelope envelope)) [
        | inr (e, bad) ↦ rw (bad, accept_envelope) refl
        | inl (_, good) ↦ elim (Bool-cases (is_answer envelope.kind)) [
          | inl answers ↦
              rw (good, answers, accept_envelope, answer_not_hello envelope.kind answers) refl
          | inr other ↦
              rw (good, other, accept_envelope)
                (routed_lem (is_hello envelope.kind) envelope.device_id handle m.sessions j)
        ]
      ]

disconnect_lem :
    (c : ℕ) (id : String) (m : LiveState) (j : String)
    → (lookup j (disconnect c (some id) m).sessions
        ≡ (if (id == j) && belongs c (lookup j m.sessions) then none else lookup j m.sessions))
      × (find_device j (disconnect c (some id) m).registry ≡ (
          if (id == j) && belongs c (lookup j m.sessions) then none else find_device j m.registry))
unfolding disconnect
disconnect_lem c id m j = elim (Bool-cases (belongs c (lookup id m.sessions))) [
  | inr other ↦ rw (other, disconnect) (ground (arith, eq_iff id j), ground (arith, eq_iff id j))
  | inl mine ↦
      rw (mine, disconnect)
        (
          ground (arith, eq_iff id j, lookup-remove id j m.sessions),
          ground (arith, eq_iff id j, find_device-remove_device id j m.registry),
        )
]

disconnect_all_lem :
    (c : ℕ) (ids : List String) (m : LiveState) (j : String)
    → (lookup j (disconnect_all c ids m).sessions
        ≡ (if contains j ids && belongs c (lookup j m.sessions) then none else lookup j m.sessions))
      × (find_device j (disconnect_all c ids m).registry ≡ (
          if contains j ids && belongs c (lookup j m.sessions)
          then none
          else find_device j m.registry))
unfolding disconnect_all
disconnect_all_lem c [] m j = (refl, refl)
disconnect_all_lem c (id ∷ ids) m j =
    let next = disconnect c (some id) m in
    let (s, r) = disconnect_all_lem c ids next j in
    let (s1, r1) = disconnect_lem c id m j in (ground (arith, s, s1), ground (arith, s, s1, r, r1))

connection_devices_lem :
    (c : ℕ) (sessions : Map SessionHandle) (j : String)
    → belongs c (lookup j sessions) ≡ true
    → contains j (connection_devices c sessions) ≡ true
unfolding connection_devices lookup
connection_devices_lem c [] j h = absurd (ground arith)
connection_devices_lem c ((i, handle) ∷ sessions) j h =
    ground (arith, eq_iff i j, eq_refl j, connection_devices_lem c sessions j)

-- When a connection ends, exactly the devices whose commands went to it lose their route and
-- their entry in the registry; the devices of other connections keep both.
pub disconnect_connection_lem :
    (c : ℕ) (m : LiveState) (j : String)
    → (lookup j (disconnect_connection c m).sessions
        ≡ (if belongs c (lookup j m.sessions) then none else lookup j m.sessions))
      × (find_device j (disconnect_connection c m).registry
          ≡ (if belongs c (lookup j m.sessions) then none else find_device j m.registry))
unfolding disconnect_connection
disconnect_connection_lem c m j =
    let (s, r) = disconnect_all_lem c (connection_devices c m.sessions) m j in
    (
      ground (arith, s, connection_devices_lem c m.sessions j),
      ground (arith, r, connection_devices_lem c m.sessions j),
    )
