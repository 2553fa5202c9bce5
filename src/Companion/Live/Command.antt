-- ===== src/Companion/Live/Command.antt =====
-- A command and its answer, with any other steps between them.
use webadbcontrol.Base.{
  ℕ, ◌≡◌, String, ◌==◌, Bool, false, some, List, [], ◌∷◌, arith, inl, inr, ◌⊎◌, eq_refl, Bool-cases,
  Option-cases, Sum-cases,
}
use webadbcontrol.Base.Map.{lookup, lookup-insert}
use webadbcontrol.Error.{ok}
use webadbcontrol.Companion.Session.{SerdeJson}
use webadbcontrol.Companion.Session.Handlers.{Envelope}
use webadbcontrol.Companion.Live.{
  SessionHandle, LiveState, is_answer, disconnect_connection, accept_envelope, answered_request,
}
use webadbcontrol.Companion.Live.Send.{send_command, command_timed_out, command_request_id}

module _ (J : SerdeJson) where
  -- Everything that other threads may do while a command waits.
  pub data Event : Type 0 where
    accepts : SessionHandle → Bool → Envelope J → Event
    disconnects : ℕ → Event
    sends : String → Envelope J → ℕ → (SessionHandle → Bool) → Event
    times_out : String → String → Event

  unfoldable pub step : LiveState → Event → LiveState
  step m (accepts handle queue_is_open envelope) =
      (accept_envelope J handle queue_is_open envelope m).2
  step m (disconnects c) = disconnect_connection c m
  step m (sends device_id envelope waiter queue_is_open) =
      (send_command J device_id envelope waiter queue_is_open m).1
  step m (times_out request_id cause) = (command_timed_out J request_id cause m).1

  unfoldable pub run : LiveState → List Event → LiveState
  run m [] = m
  run m (event ∷ events) = run (step m event) events

  -- The event is neither an answer to the request, nor its time-out, nor another command with its id.
  abbrev pub Spares : String → Event → Type 0
  Spares request (accepts handle queue_is_open envelope) =
      (is_answer envelope.kind ≡ false) ⊎ ((answered_request J envelope == request) ≡ false)
  Spares request (disconnects c) = Unit
  Spares request (sends device_id envelope waiter queue_is_open) =
      (command_request_id J envelope == request) ≡ false
  Spares request (times_out request_id cause) = (request_id == request) ≡ false

  abbrev pub AllSpare : String → List Event → Type 0
  AllSpare request [] = Unit
  AllSpare request (event ∷ events) = Spares request event × AllSpare request events

  pub send_command-pending :
      (device_id : String) (command : Envelope J) (waiter : ℕ)
      (queue_is_open : SessionHandle → Bool) (m : LiveState) (request bytes : String)
      (session : SessionHandle)
      → (send_command J device_id command waiter queue_is_open m).0 ≡ ok (request, bytes, session)
      → (lookup device_id m.sessions ≡ some session)
        × (lookup request (send_command J device_id command waiter queue_is_open m).1.pending
            ≡ some waiter)
  unfolding send_command
  send_command-pending device_id command waiter queue_is_open m request bytes session h =
      elim (Option-cases (lookup device_id m.sessions)) [
        | inl e ↦ absurd (ground arith)
        | inr (s, e) ↦ elim (Sum-cases (J.to_vec command)) [
          | inl (cause, f) ↦ absurd (ground arith)
          | inr (b, f) ↦ elim (Bool-cases (queue_is_open s)) [
            | inr closed ↦ absurd (ground arith)
            | inl open_s ↦
                let id = command_request_id J command in
                let is : id ≡ request = ground arith in
                (ground arith, ground (arith, lookup-insert id id waiter m.pending, eq_refl id))
          ]
        ]
      ]
