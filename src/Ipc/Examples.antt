-- ===== src/Ipc/Examples.antt =====
-- serde_json and argon2 as concrete functions, for the tests: a value is a text, and every decoder
-- reads the same parameters.
use webadbcontrol.Base.{String, ◌==◌, ◌<>◌, true, none, some, [], ◌∷◌, inl, inr, if◌then◌else◌}
use webadbcontrol.Ipc.{IpcJson}
use webadbcontrol.Remote.Accounts.{Crates, matches, mismatch}

abbrev pub texts : IpcJson
texts = record {
  Value = String;
  text = λ s. s;
  number = λ n. "number";
  boolean = λ b. "boolean";
  array = λ values. "array";
  object = λ fields. "object";
  is_object = λ v. true;
  to_value = λ reply. inr "reply";
  adb_exec_params = λ v. inr ("devices" ∷ []);
  device_scoped_params = inr;
  device_invoke_params = λ v. inr (record {
    device_id = v;
    capability_id = "android.camera.stream";
    operation = "camera.open";
    args = "{}";
  });
  keepalive_configure_params = λ v. inr (record { enabled = none; interval_secs = some 4 });
  scrcpy_start_params = λ v. inl "not scrcpy";
  scrcpy_stop_params = inr;
  qr_session_params = inr;
  inspect_params = inr;
  admin_login_params = inr;
  admin_session_params = inr;
  admin_password_params = λ v. inr ("admin", "password2");
  admin_create_params = λ v. inr ("alice", "password1");
  admin_delete_params = λ v. inr "alice";
  admin_reset_params = λ v. inr ("alice", "password3");
  admin_assign_params = λ v. inr ("alice", "device-1", true);
}

-- A hash that keeps the password.
abbrev pub plain : Crates
plain = record {
  encode_salt = λ bits. inr "salt";
  hash = λ password salt. inr ("hash:" <> password);
  verify = λ password encoded. if ("hash:" <> password) == encoded then matches else mismatch;
  from_slice = λ bytes. inl "unknown";
  to_vec_pretty = λ database. inr "saved";
}
