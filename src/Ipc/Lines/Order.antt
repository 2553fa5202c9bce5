-- ===== src/Ipc/Lines/Order.antt =====
-- Which responses are written, and in which order.
use webadbcontrol.Base.{String, Bool, true, false, List, [], ◌∷◌, ◌⊎◌, inl, inr}
use webadbcontrol.Error.{Result, ok, err}
use webadbcontrol.Ipc.{IpcRequest, IpcResponse}
use webadbcontrol.Ipc.Lines.{handle_json_line}

module _ {Value Core : Type 0} (from_str : String → String ⊎ IpcRequest Value)
    (to_string : IpcResponse Value → String ⊎ String) (encoding_failed : String → String)
    (handle_request : IpcRequest Value → Core → IpcResponse Value × Core) where
  abbrev answer : String → Core → String × Core
  answer = handle_json_line from_str to_string encoding_failed handle_request

  -- What is to be written: each line's response in turn, with a line break, up to a line that cannot
  -- be read.
  abbrev pub transcript : List (String ⊎ String) → Core → List String
  transcript [] core = []
  transcript (inl cause ∷ lines) core = []
  transcript (inr line ∷ lines) core =
      let (response, after) = answer line core in response ∷ "\n" ∷ transcript lines after

  abbrev pub is_ok : Result (Unit {0}) → Bool
  is_ok (ok _) = true
  is_ok (err e) = false
