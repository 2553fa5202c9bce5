-- ===== src/Remote/Authorize/Grants.antt =====
-- What a request that is passed on to Core may do.
use webadbcontrol.Base.{
  ◌≡◌, refl, ap, sym, ◌∙◌, String, ◌==◌, Bool, true, false, not, ◌&&◌, some, List, [], ◌∷◌, arith,
  inl, inr, Bool-cases, Option-cases, eq_iff,
}
use webadbcontrol.Base.Text.{contains}
use webadbcontrol.Error.{ok, err}
use webadbcontrol.Remote.Accounts.{AuthenticatedSession}
use webadbcontrol.Remote.Identity.{session_can_access_device}
use webadbcontrol.Remote.Authorize.{
  JsonValue, RemoteRequest, permission_denied, open_methods, device_methods,
  is_device_scoped_adb_command, granted, string_of, authorize_device_id, authorize_args, args_of,
  authorize_user_core_request,
}

module _ (J : JsonValue) (session : AuthenticatedSession) where
  -- The request reads no device, or it names one that the session may use: in `deviceId`, or as the
  -- selector in front of a command that acts on the selected device.
  pub data Allowed (request : RemoteRequest J.Value) : Type 0 where
    reads : contains request.method open_methods ≡ true → Allowed request
    names :
        (value : J.Value) (device_id : String)
        → contains request.method device_methods ≡ true
        → J.get request.params "deviceId" ≡ some value
        → J.as_str value ≡ some device_id
        → session_can_access_device session device_id ≡ true
        → Allowed request
    selects :
        (args selector device command : J.Value) (more : List J.Value) (device_id name : String)
        → request.method ≡ "adb.exec"
        → J.get request.params "args" ≡ some args
        → J.as_array args ≡ some (selector ∷ device ∷ command ∷ more)
        → J.as_str selector ≡ some "-s"
        → J.as_str device ≡ some device_id
        → J.as_str command ≡ some name
        → session_can_access_device session device_id ≡ true
        → is_device_scoped_adb_command name ≡ true
        → Allowed request

  granted-ok : (b : Bool) → granted b ≡ ok tt → b ≡ true
  granted-ok true h = refl
  granted-ok false h = absurd (ground arith)

  refused_lem : ¬ (err permission_denied ≡ ok (tt {0}))
  refused_lem h = absurd (ground arith)

  both_true : (a b : Bool) → (a && b) ≡ true → (a ≡ true) × (b ≡ true)
  both_true true b h = (refl, h)
  both_true false b h = absurd (ground arith)

  selected-Allowed :
      (request : RemoteRequest J.Value) (args selector device command : J.Value)
      (more : List J.Value)
      → request.method ≡ "adb.exec"
      → J.get request.params "args" ≡ some args
      → J.as_array args ≡ some (selector ∷ device ∷ command ∷ more)
      → authorize_args J (some (selector ∷ device ∷ command ∷ more)) session ≡ ok tt
      → Allowed request
  selected-Allowed request args selector device command more m g a h =
      elim (Option-cases (J.as_str selector)) [
        | inl e ↦ absurd (ground arith)
        | inr (s, es) ↦ elim (Bool-cases (s == "-s")) [
          | inr other ↦ absurd (ground arith)
          | inl dash ↦ elim (Option-cases (J.as_str device)) [
            | inl e ↦ absurd (ground arith)
            | inr (d, ed) ↦ elim (Option-cases (J.as_str command)) [
              | inl e ↦ absurd (ground arith)
              | inr (c, ec) ↦
                  let decides : authorize_args J (some (selector ∷ device ∷ command ∷ more)) session
                      ≡ granted
                          (session_can_access_device session d && is_device_scoped_adb_command c) =
                    rw (es, dash, ed, ec) refl in
                  let (may, scoped) =
                    both_true (session_can_access_device session d) (is_device_scoped_adb_command c)
                      (granted-ok
                        (session_can_access_device session d && is_device_scoped_adb_command c)
                        (sym decides ∙ h)) in
                  selects args selector device command more d c m g a
                    (es ∙ ap some ((eq_iff s "-s").0 dash)) ed ec may scoped
            ]
          ]
        ]
      ]

  args-Allowed :
      (request : RemoteRequest J.Value)
      → request.method ≡ "adb.exec"
      → authorize_args J (args_of J request.params) session ≡ ok tt
      → Allowed request
  args-Allowed request m h = elim (Option-cases (J.get request.params "args")) [
    | inl e ↦ absurd (ground arith)
    | inr (args, g) ↦ elim (Option-cases (J.as_array args)) [
      | inl e ↦ absurd (ground arith)
      | inr ([], a) ↦ absurd (ground arith)
      | inr (x ∷ [], a) ↦ absurd (ground arith)
      | inr (x ∷ y ∷ [], a) ↦ absurd (ground arith)
      | inr (x ∷ y ∷ z ∷ more, a) ↦ selected-Allowed request args x y z more m g a (ground arith)
    ]
  ]

  device-Allowed :
      (request : RemoteRequest J.Value)
      → contains request.method device_methods ≡ true
      → authorize_device_id J (string_of J (J.get request.params "deviceId")) session ≡ ok tt
      → Allowed request
  device-Allowed request m h = elim (Option-cases (J.get request.params "deviceId")) [
    | inl e ↦ absurd (ground arith)
    | inr (value, g) ↦ elim (Option-cases (J.as_str value)) [
      | inl e ↦ absurd (ground arith)
      | inr (d, s) ↦
          let both =
            granted-ok (not (d == "") && session_can_access_device session d) (ground arith) in
          names value d m g s (ground (arith, both))
    ]
  ]

  -- A request of an ordinary user that is passed on either reads what belongs to no device, or acts
  -- on a device that the account was assigned, under one of the device's ids.
  pub authorize_user_core_request-Allowed :
      (request : RemoteRequest J.Value)
      → authorize_user_core_request J request session ≡ ok tt
      → Allowed request
  unfolding authorize_user_core_request
  authorize_user_core_request-Allowed request h =
      elim (Bool-cases (contains request.method open_methods)) [
        | inl opens ↦ reads opens
        | inr other ↦ elim (Bool-cases (contains request.method device_methods)) [
          | inl device ↦
              device-Allowed request device
                (sym (rw (other, device, authorize_user_core_request) refl) ∙ h)
          | inr neither ↦ elim (Bool-cases (request.method == "adb.exec")) [
            | inl adb ↦
                args-Allowed request ((eq_iff request.method "adb.exec").0 adb)
                  (sym (rw (other, neither, adb, authorize_user_core_request) refl) ∙ h)
            | inr none_of_them ↦ absurd (
                refused_lem
                  (sym (rw (other, neither, none_of_them, authorize_user_core_request) refl) ∙ h))
          ]
        ]
      ]
