-- ===== src/Companion/Router/Requests.antt =====
-- The request that the router makes is the one that the live transport waits for.
use webadbcontrol.Base.{
  ℕ, ◌≡◌, refl, ap, ◌∙◌, sym, String, ◌<>◌, ◌==◌, Bool, false, some, List, [], ◌∷◌, any, arith, inl,
  inr, Option-cases, Sum-cases, Bool-cases,
}
use webadbcontrol.Base.Text.{is_blank, codes-append}
use webadbcontrol.Base.Map.{lookup}
use webadbcontrol.Error.{ok}
use webadbcontrol.Companion.Protocol.{validate_quic_envelope}
use webadbcontrol.Companion.Session.{SerdeJson}
use webadbcontrol.Companion.Session.Handlers.{Envelope}
use webadbcontrol.Companion.Live.{SessionHandle, LiveState}
use webadbcontrol.Companion.Live.Send.{send_command, command_request_id}
use webadbcontrol.Companion.Live.Command.{send_command-pending}
use webadbcontrol.Companion.Router.{CompanionCommandDispatch, build_command_request_envelope}

-- An object that `json!` or a derived serializer builds gives back a field that no later one hides,
-- and a text is a text.
pub record Reads (J : SerdeJson) : Type 0 where
  pub get_object :
      (k : String) (v : J.Value) (rest : List (String × J.Value))
      → any (λ f. f.0 == k) rest ≡ false
      → J.get (J.object ((k, v) ∷ rest)) k ≡ some v
  pub as_str_text : (s : String) → J.as_str (J.text s) ≡ some s

queued_request :
    (J : SerdeJson) (device_id : String) (command : Envelope J) (waiter : ℕ)
    (queue_is_open : SessionHandle → Bool) (m : LiveState) (request bytes : String)
    (session : SessionHandle)
    → (send_command J device_id command waiter queue_is_open m).0 ≡ ok (request, bytes, session)
    → request ≡ command_request_id J command
unfolding send_command
queued_request J device_id command waiter queue_is_open m request bytes session h =
    elim (Option-cases (lookup device_id m.sessions)) [
      | inl e ↦ absurd (ground arith)
      | inr (s, e) ↦ elim (Sum-cases (J.to_vec command)) [
        | inl (cause, f) ↦ absurd (ground arith)
        | inr (b, f) ↦ elim (Bool-cases (queue_is_open s)) [
          | inr closed ↦ absurd (ground arith)
          | inl open_s ↦ ground arith
        ]
      ]
    ]

module _ (J : SerdeJson) (reads : Reads J) (command : CompanionCommandDispatch J.Value) where
  request_id_lem :
      command_request_id J (build_command_request_envelope J command) ≡ command.request_id
  unfolding build_command_request_envelope
  request_id_lem = ground (
    arith,
    reads.get_object "requestId" (J.text command.request_id) (
        ("capabilityId", J.text command.capability_id)
        ∷ ("operation", J.text command.operation)
        ∷ ("args", command.args)
        ∷ []),
    reads.as_str_text command.request_id,
  )

  not_blank : is_blank ("command-" <> command.request_id) ≡ false
  unfolding is_blank
  not_blank = rw (codes-append "command-" command.request_id) refl

  valid_lem : validate_quic_envelope (build_command_request_envelope J command) ≡ ok tt
  unfolding build_command_request_envelope validate_quic_envelope
  valid_lem = rw not_blank refl

  -- The envelope that the router builds of a command passes the protocol's check, and when the live
  -- transport has queued it, the transport waits under the command's own request id, on the
  -- connection of the command's device.
  pub send_command-build_command_request_envelope :
      (waiter : ℕ) (queue_is_open : SessionHandle → Bool) (m : LiveState) (request bytes : String)
      (session : SessionHandle)
      → let envelope = build_command_request_envelope J command in
        let sent = send_command J command.device_id envelope waiter queue_is_open m in
        sent.0 ≡ ok (request, bytes, session)
        → (validate_quic_envelope envelope ≡ ok tt)
          × (request ≡ command.request_id)
          × (lookup command.device_id m.sessions ≡ some session)
          × (lookup command.request_id sent.1.pending ≡ some waiter)
  send_command-build_command_request_envelope waiter queue m request bytes session h =
      let envelope = build_command_request_envelope J command in
      let (there, waits) =
        send_command-pending J command.device_id envelope waiter queue m request bytes session h in
      let own =
        queued_request J command.device_id envelope waiter queue m request bytes session h
        ∙ request_id_lem in
      let pending = (send_command J command.device_id envelope waiter queue m).1.pending in
      (valid_lem, own, there, ap (λ r. lookup r pending) (sym own) ∙ waits)
