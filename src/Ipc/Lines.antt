-- ===== src/Ipc/Lines.antt =====
-- protocol.rs and ipc/stdio.rs: requests and responses as lines of JSON. `Core` is `CoreService`, whose
-- `handle_request` is a parameter, with serde_json's reading and writing of a line.
pub mod Order
use webadbcontrol.Base.{
  ℕ, suc, String, Bool, true, false, Option, none, some, List, [], ◌∷◌, ◌⊎◌, inl, inr,
}
use webadbcontrol.Error.{AppError, new, with_cause, Result, ok, err}
use webadbcontrol.Ipc.{IpcRequest, IpcResponse, failure}

unfoldable pub invalid_json : String → AppError
unfolding new with_cause
invalid_json cause =
    with_cause
      (new "IPC_INVALID_JSON" "IPC request must be a valid JSON object." "ipc.protocol" false) cause

unfoldable pub read_failed : String → AppError
unfolding new with_cause
read_failed cause =
    with_cause (new "IPC_READ_FAILED" "Failed to read IPC request line." "ipc.stdio" true) cause

-- The step at which a response could not be written.
pub data WriteFailure : Type 0 where
  at_response at_newline at_flush : String → WriteFailure

unfoldable pub write_failed : WriteFailure → AppError
unfolding new with_cause
write_failed (at_response cause) =
    with_cause (new "IPC_WRITE_FAILED" "Failed to write IPC response line." "ipc.stdio" true) cause
write_failed (at_newline cause) =
    with_cause (new "IPC_WRITE_FAILED" "Failed to write IPC response newline." "ipc.stdio" true)
      cause
write_failed (at_flush cause) =
    with_cause (new "IPC_FLUSH_FAILED" "Failed to flush IPC response." "ipc.stdio" true) cause

-- The whole texts that have been written when the step failed. The first bytes of a response, which a
-- failed write may leave, are not counted.
abbrev pub part_of : WriteFailure → String → List String
part_of (at_response cause) response = []
part_of (at_newline cause) response = response ∷ []
part_of (at_flush cause) response = response ∷ "\n" ∷ []

module _ {Value Core : Type 0} (from_str : String → String ⊎ IpcRequest Value)
    (to_string : IpcResponse Value → String ⊎ String) (encoding_failed : String → String)
    (handle_request : IpcRequest Value → Core → IpcResponse Value × Core) where
  -- The two records of the diagnostics are output and left out.
  unfoldable pub handle_json_line_result : String → Core → IpcResponse Value × Core
  handle_json_line_result line core = elim (from_str line) [
    | inl cause ↦ (failure none (invalid_json cause), core)
    | inr request ↦ handle_request request core
  ]

  -- `encoding_failed` is the text that `json!` makes of a cause.
  unfoldable pub encode_response : IpcResponse Value → String
  encode_response response = elim (to_string response) [
    | inl cause ↦ encoding_failed cause
    | inr encoded ↦ encoded
  ]

  unfoldable pub handle_json_line : String → Core → String × Core
  unfolding handle_json_line_result encode_response
  handle_json_line line core =
      let (response, after) = handle_json_line_result line core in (encode_response response, after)

  -- The loop over the reader's lines: its result, what was written, and what Core is after it.
  -- `fails n` is how the `n`th response fails to be written.
  unfoldable pub serve_json_lines :
      (ℕ → Option WriteFailure)
      → ℕ
      → List (String ⊎ String)
      → Core
      → Result (Unit {0}) × List String × Core
  serve_json_lines fails n [] core = (ok tt, [], core)
  serve_json_lines fails n (inl cause ∷ lines) core = (err (read_failed cause), [], core)
  serve_json_lines fails n (inr line ∷ lines) core =
      let (response, after) = handle_json_line line core in
      let (result, written, last) = serve_json_lines fails (suc n) lines after in
      elim (fails n) [
        | none ↦ (result, response ∷ "\n" ∷ written, last)
        | some failed ↦ (err (write_failed failed), part_of failed response, after)
      ]
