-- ===== src/Remote/ServiceTests.antt =====
-- The remote service on concrete inputs: the cases of the tests in remote/service.rs, and the
-- theorems at inputs that meet their hypotheses.
use webadbcontrol.Base.{
  ◌≡◌, refl, String, ◌==◌, Bool, true, false, none, some, List, [], ◌∷◌, inl, inr, Option,
}
use webadbcontrol.Base.Text.{text_eq, is_blank, is_ascii_alphanumeric}
use webadbcontrol.Base.Map.{lookup, insert, remove, retain}
use webadbcontrol.Error.{AppError, ok, err}
use webadbcontrol.Remote.Accounts.{
  AuthenticatedSession, user, session_from_user, validate_database, validate_username,
  validate_new_password, hash_password, verify_password, public_account,
}
use webadbcontrol.Remote.Storage.{
  Manager, absent, holds, persisted, persist_database, load_or_initialize_with_session_ttl,
}
use webadbcontrol.Remote.Auth.{
  login, authenticate, logout, create_user, delete_user, change_own_password, reset_password,
  set_device_access,
}
use webadbcontrol.Remote.Auth.Log.{run, step}
use webadbcontrol.Remote.Auth.Ordinary.{authenticate-ordinary}
use webadbcontrol.Remote.Identity.{
  normalized_mdns_service_identity, same_remote_device_identity, session_can_access_device,
}
use webadbcontrol.Remote.Identity.Equivalence.{session_can_access_device-same}
use webadbcontrol.Remote.Authorize.{JsonValue, RemoteRequest, authorize_user_core_request}
use webadbcontrol.Remote.Authorize.Grants.{Allowed, authorize_user_core_request-Allowed}
use webadbcontrol.Remote.Service.{
  RemoteParams, Inputs, handle_request, with_token, by_method, remote_login,
}
use webadbcontrol.Remote.History.{Arrival, remote, local, serve}
use webadbcontrol.Remote.LocalAdmin.{
  Turn, admin_login, authenticate_admin, admin_change_password, local_create_user, managed,
  with_admin, local_handle_request,
}
use webadbcontrol.Ipc.{IpcRequest}
use webadbcontrol.Ipc.Examples.{texts}
use webadbcontrol.Remote.Service.Forwarding.{passed_on, handle_request-passed_on}
use webadbcontrol.Remote.Service.Admission.{handle_request_admin}
use webadbcontrol.Remote.Tests.{alice, writers, takes, calls, first_database}

abbrev first_id : String
first_id = "adb-ABC._adb-tls-connect._tcp"

-- The same device, as Android names it when the name is taken.
abbrev second_id : String
second_id = "adb-ABC (2)._adb-tls-connect._tcp"

identity_test :
    (same_remote_device_identity first_id second_id ≡ true)
    × (same_remote_device_identity first_id "adb-ABD._adb-tls-connect._tcp" ≡ false)
    × (same_remote_device_identity "ABC" "ABC (2)" ≡ false)
unfolding same_remote_device_identity normalized_mdns_service_identity text_eq
identity_test = (refl, refl, refl)

abbrev session : AuthenticatedSession
session = record {
  token = "token";
  username = "alice";
  role = user;
  devices = (first_id, tt) ∷ [];
  password_change_required = false;
}

access_test :
    (session_can_access_device session first_id ≡ true)
    × (session_can_access_device session "ABC" ≡ false)
unfolding session_can_access_device same_remote_device_identity normalized_mdns_service_identity
    text_eq
access_test = (refl, refl)

session_can_access_device-same_test : session_can_access_device session second_id ≡ true
session_can_access_device-same_test =
    session_can_access_device-same session first_id second_id identity_test.0 access_test.0

-- A value that is one text, whatever is asked of it.
abbrev json : JsonValue
json = record { Value = String; get = λ v k. some v; as_str = some; as_array = λ v. none }

abbrev invoke : RemoteRequest String
invoke = record {
  id = "1";
  session_token = some "token";
  method = "device.invoke";
  params = first_id;
}

authorize_test :
    (authorize_user_core_request json invoke session ≡ ok tt)
    × ((e : AppError) × (authorize_user_core_request json
            (record invoke { method = "adb.exec" })
            session
          ≡ err e))
unfolding authorize_user_core_request session_can_access_device same_remote_device_identity
    normalized_mdns_service_identity text_eq
authorize_test = (refl, (_, refl))

authorize_user_core_request-Allowed_example : Allowed json session invoke
authorize_user_core_request-Allowed_example =
    authorize_user_core_request-Allowed json session invoke authorize_test.0

abbrev m : Manager
m = record { disk = holds "saved"; session_ttl = 100; database = first_database; sessions = [] }

start_test : load_or_initialize_with_session_ttl writers 100 none takes 0 absent ≡ ok m
unfolding persist_database run step login authenticate logout create_user delete_user
    change_own_password reset_password set_device_access persisted
    load_or_initialize_with_session_ttl lookup insert remove retain validate_username
    validate_new_password validate_database hash_password verify_password is_blank
    is_ascii_alphanumeric public_account session_from_user
start_test = refl

abbrev admin_token : String → Bool
admin_token token = token == "local"

alice_test :
    (authenticate "token" 1001 (run writers m calls)).0 ≡ ok (session_from_user "token" alice)
unfolding persist_database run step login authenticate logout create_user delete_user
    change_own_password reset_password set_device_access persisted
    load_or_initialize_with_session_ttl lookup insert remove retain validate_username
    validate_new_password validate_database hash_password verify_password is_blank
    is_ascii_alphanumeric public_account session_from_user
alice_test = refl

authenticate-ordinary_test : (session_from_user "token" alice).role ≡ user
authenticate-ordinary_test =
    authenticate-ordinary admin_token writers 100 none takes 0 m start_test calls
      (tt, (inl refl, tt)) "token" 1001 (session_from_user "token" alice) refl alice_test

-- All parameters are two texts.
abbrev params : RemoteParams
params = record {
  Value = String × String;
  login_params = inr;
  password_params = inr;
  create_params = inr;
  delete_params = λ v. inr v.0;
  reset_params = inr;
  assign_params = λ v. inr (v.0, v.1, true);
}

abbrev inputs : Inputs
inputs = record {
  now = 1000;
  fresh_token = "token";
  salt_bits = 7;
  disk = takes;
  core_has_device = λ d. false;
}

abbrev request : String → Option String → RemoteRequest (String × String)
request method token = record {
  id = "1";
  session_token = token;
  method = method;
  params = ("alice", "password1");
}

abbrev turn : Turn
turn = record { now = 1000; later = 1001; fresh_token = "local"; salt_bits = 7; disk = takes }

abbrev asks : String → String → IpcRequest String
asks method params = record { id = "1"; method = method; params = params }

abbrev locally : String → String → Arrival (String × String) String
locally method params = local turn (asks method params)

-- The local administrator logs in, changes the first password, logs in again and creates Alice, who
-- then logs in.
abbrev arrivals : List (Arrival (String × String) String)
arrivals =
    locally "remote.admin.login" "admin"
    ∷ locally "remote.admin.changePassword" "local"
    ∷ locally "remote.admin.login" "password2"
    ∷ locally "remote.admin.users.create" "local"
    ∷ remote inputs (request "auth.login" none)
    ∷ []

abbrev served : Manager
served = serve writers params texts m arrivals

handle_request_admin_example :
    let n = served in
    let asked = request "admin.users.list" (some "token") in
    ((e : AppError) × ((handle_request writers params inputs asked n).0 ≡ err e))
    × ((handle_request writers params inputs asked n).1.database ≡ n.database)
handle_request_admin_example =
    handle_request_admin writers params texts admin_token 100 none takes 0 m start_test arrivals
      (refl, (refl, (refl, (refl, tt)))) inputs (request "admin.users.list" (some "token")) refl
      refl

passed_on_test :
    let n = served in
    let asked = request "device.list" (some "token") in
    passed_on (handle_request writers params inputs asked n).0 ≡ true
unfolding persist_database run step login authenticate logout create_user delete_user
    change_own_password reset_password set_device_access persisted
    load_or_initialize_with_session_ttl lookup insert remove retain validate_username
    validate_new_password validate_database hash_password verify_password is_blank
    is_ascii_alphanumeric public_account session_from_user serve handle_request with_token by_method
    remote_login admin_login authenticate_admin admin_change_password local_create_user managed
    with_admin local_handle_request
passed_on_test = refl

handle_request-passed_on_example :
    let n = served in
    let asked = request "device.list" (some "token") in
    (token : String) × (s : AuthenticatedSession) × (asked.session_token ≡ some token)
    × ((authenticate token inputs.now n).0 ≡ ok s)
    × (s.password_change_required ≡ false)
handle_request-passed_on_example =
    handle_request-passed_on writers params inputs (request "device.list" (some "token")) served
      passed_on_test
