-- ===== src/Remote/Diagnostics.antt =====
-- remote/service.rs: `report_diagnostics`, the events that a mobile client reports to Core's log.
-- What is written is the list of lines.
pub mod Bounded
use webadbcontrol.Base.{
  ℕ, String, Bool, true, false, not, ◌&&◌, ◌||◌, Option, none, some, List, [], ◌∷◌, ◌++◌, all, any,
  length, map, ◌==ℕ◌, ltb, if◌then◌else◌, ◌⊎◌, inl, inr,
}
use webadbcontrol.Base.Text.{Text, codes, text_len, is_whitespace, is_ascii_alphanumeric}
use webadbcontrol.Error.{AppError, new, Result, ok, err}
use webadbcontrol.Remote.Service.{params_invalid}

pub record ClientEvent : Type 0 where
  pub level : String
  pub phase : String
  pub module_name : String
  pub is_ok : Bool
  pub elapsed_ms : ℕ
  pub error_code : String
  pub detail : String

-- The event as the timing log and the error output have it.
pub record DiagnosticLine : Type 0 where
  pub actor : String
  pub session_id : Text
  pub trace : Text
  pub level : Text
  pub phase : Text
  pub module_name : Text
  pub is_ok : Bool
  pub elapsed_ms : ℕ
  pub recorded_code : Option Text
  pub error_code : Text
  pub detail : Text

unfoldable pub batch_invalid : AppError
unfolding new
batch_invalid =
    new "REMOTE_DIAGNOSTIC_BATCH_INVALID" "Diagnostic batches must contain between 1 and 50 events."
      "remote.diagnostics" true

abbrev trim_start : Text → Text
trim_start [] = []
trim_start (c ∷ s) = let rest = trim_start s in if is_whitespace c then rest else c ∷ s

abbrev is_empty : Text → Bool
is_empty [] = true
is_empty (c ∷ s) = false

abbrev trim_end : Text → Text
trim_end [] = []
trim_end (c ∷ s) =
    let rest = trim_end s in if is_empty rest && is_whitespace c then [] else c ∷ rest

-- `str::trim`
unfoldable pub trim : Text → Text
trim s = trim_end (trim_start s)

-- A byte above 127 is of no character here, so the test is of characters.
abbrev pub is_safe_char : ℕ → Bool
is_safe_char c = is_ascii_alphanumeric c || any (λ d. d ==ℕ c) (codes "_.:+-/=@ ")

unfoldable pub safe : Text → ℕ → Text
safe value max =
    let value = trim value in
    if is_empty value || ltb max (text_len value) || not (all is_safe_char value)
    then codes "unknown"
    else value

unfoldable pub line_of : String → Text → ClientEvent → DiagnosticLine
line_of actor session_id event =
    let code = safe (codes event.error_code) 96 in
    record {
      actor = actor;
      session_id = session_id;
      trace = codes "mobile-" ++ session_id;
      level = safe (codes event.level) 16;
      phase = safe (codes event.phase) 96;
      module_name = safe (codes event.module_name) 96;
      is_ok = event.is_ok;
      elapsed_ms = event.elapsed_ms;
      recorded_code = if event.is_ok then none else some code;
      error_code = if event.is_ok then [] else code;
      detail = safe (codes event.detail) 200;
    }

-- The number of accepted events, and the lines. `params` is what serde_json decodes.
unfoldable pub report_diagnostics :
    String ⊎ (String × List ClientEvent) → String → Result ℕ × List DiagnosticLine
report_diagnostics (inl cause) actor = (err (params_invalid cause), [])
report_diagnostics (inr (session_id, events)) actor =
    if length events ==ℕ 0 || ltb 50 (length events)
    then (err batch_invalid, [])
    else (ok (length events), map (line_of actor (safe (codes session_id) 64)) events)
