-- ===== src/Companion/RouterTests.antt =====
-- The command router and the registry on concrete inputs: the cases of the tests in
-- companion/router.rs and companion/registry.rs, and the theorems there.
use webadbcontrol.Base.{
  ◌≡◌, refl, String, ◌==◌, Bool, true, Option, none, some, List, [], ◌∷◌, any, if◌then◌else◌, inl,
  inr, eq_refl,
}
use webadbcontrol.Base.Map.{lookup, insert}
use webadbcontrol.Error.{ok, err, Result, or_fail}
use webadbcontrol.Companion.Protocol.{validate_quic_envelope}
use webadbcontrol.Companion.Registry.{CompanionDevice, ready, get_device, not_connected}
use webadbcontrol.Companion.Registry.Refinement as Refinement
use webadbcontrol.Companion.Registry.Refinement.{run-run_map}
use webadbcontrol.Companion.Session.{SerdeJson}
use webadbcontrol.Companion.Session.Handlers.{Envelope}
use webadbcontrol.Companion.Live.{SessionHandle, LiveState}
use webadbcontrol.Companion.Live.Send.{send_command}
use webadbcontrol.Companion.Router.{
  CompanionCommandDispatch, CompanionCommandResponse, CompanionCommandStatus, dispatched, completed,
  dispatch_only, complete_immediately, new_router, build_command_request_envelope,
  transport_dispatch, in_memory_dispatch,
}
use webadbcontrol.Companion.Router.Requests.{Reads, send_command-build_command_request_envelope}

-- An object is which fields it has, and their values.
data Json : Type 0 where
  nothing : Json
  string : String → Json
  fields : (String → Bool) → (String → Json) → Json

abbrev first_value : List (String × Json) → String → Json
first_value [] k = nothing
first_value ((j, v) ∷ rest) k = if j == k then v else first_value rest k

abbrev field : Json → String → Option Json
field (fields has value) k = if has k then some (value k) else none
field _ k = none

abbrev text_of : Json → Option String
text_of (string s) = some s
text_of _ = none

abbrev json : SerdeJson
json = record {
  Value = Json;
  get = field;
  as_str = text_of;
  as_bool = λ value. none;
  null = nothing;
  text = string;
  number = λ n. nothing;
  boolean = λ b. nothing;
  array = λ values. nothing;
  object = λ parts. fields (λ k. any (λ f. f.0 == k) parts) (first_value parts);
  hello_from_value = λ value. inl "not a hello";
  capabilities_from_value = λ value. inl "not a list";
  states_from_value = λ value. inl "not a list";
  to_vec = λ envelope. inr "bytes";
  envelope_from_slice = λ bytes. inl "not an envelope";
  decode_base64 = λ s. inl "not base64";
}

Reads-json : Reads json
Reads-json = record { get_object = λ k v rest once. rw (eq_refl k) refl; as_str_text = λ s. refl }

abbrev first_id : String
first_id = "invoke-1"

abbrev set_volume : CompanionCommandDispatch Json
set_volume = record {
  request_id = first_id;
  device_id = "device-1";
  capability_id = "android.volume.media";
  operation = "volume.set";
  args = nothing;
}

abbrev status_of : Result (CompanionCommandResponse Json) → Option CompanionCommandStatus
status_of (ok response) = some response.status
status_of (err e) = none

dispatch_test :
    (status_of (
        in_memory_dispatch json
          (new_router (record { device_id = "device-1"; dispatch_mode = dispatch_only } ∷ []))
          set_volume)
      ≡ some dispatched)
    × (status_of (
          in_memory_dispatch json
            (new_router (
              record { device_id = "device-1"; dispatch_mode = dispatch_only }
              ∷ record { device_id = "device-1"; dispatch_mode = complete_immediately }
              ∷ []))
            set_volume)
        ≡ some completed)
    × (status_of (in_memory_dispatch json (new_router []) set_volume) ≡ none)
    × (status_of (transport_dispatch json (λ d e. ok nothing) set_volume) ≡ some dispatched)
unfolding in_memory_dispatch transport_dispatch new_router lookup insert
dispatch_test = (refl, refl, refl, refl)

abbrev handle : SessionHandle
handle = record { outgoing = 1; connection_id = 5 }

abbrev live : LiveState
live = record {
  sessions = ("device-1", handle) ∷ [];
  pending = [];
  ingress = record { session_manager = []; media_store = none; media_chunk_count = 0 };
  registry = [];
}

abbrev request : Envelope json
request = build_command_request_envelope json set_volume

sent_test :
    (send_command json "device-1" request 7 (λ h. true) live).0 ≡ ok ("invoke-1", "bytes", handle)
unfolding send_command build_command_request_envelope lookup
sent_test = refl

send_command-build_command_request_envelope_example :
    (validate_quic_envelope request ≡ ok tt)
    × (first_id ≡ set_volume.request_id)
    × (lookup "device-1" live.sessions ≡ some handle)
    × (lookup "invoke-1" (send_command json "device-1" request 7 (λ h. true) live).1.pending
        ≡ some 7)
send_command-build_command_request_envelope_example =
    send_command-build_command_request_envelope json Reads-json set_volume 7 (λ h. true) live
      first_id "bytes" handle sent_test

abbrev phone_of : String → CompanionDevice
phone_of device_id = record {
  device_id = device_id;
  display_name = "Pixel Test";
  app_version = "0.1.0";
  android_sdk = 35;
  connection_state = ready;
  capabilities = [];
  permission_states = [];
}

abbrev changes : List Refinement.Call
changes =
    Refinement.upserts (phone_of "device-1")
    ∷ Refinement.upserts (phone_of "device-2")
    ∷ Refinement.upserts (phone_of "device-1")
    ∷ Refinement.removes "device-2"
    ∷ []

run-run_map_example :
    (get_device "device-1" (Refinement.run changes [])
      ≡ or_fail (lookup "device-1" (Refinement.run_map changes [])) (not_connected "device-1"))
    × (Refinement.distinct_ids (Refinement.run changes []) ≡ true)
run-run_map_example = run-run_map changes "device-1"
