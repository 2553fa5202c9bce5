-- ===== src/Ipc/Responses.antt =====
-- The shape of every response.
use webadbcontrol.Base.{◌≡◌, String, Bool, true, not, ◌&&◌, some, if◌then◌else◌, is_some}
use webadbcontrol.Ipc.{IpcResponse}

-- A result and no error, or an error and no result, as `ok` says.
abbrev pub well_formed : {Value : Type 0} → IpcResponse Value → Bool
well_formed response =
    if response.ok
    then is_some response.result && not (is_some response.error)
    else is_some response.error && not (is_some response.result)

-- The response carries the request's id, and is well formed.
abbrev pub Answers : {Value : Type 0} → String → IpcResponse Value → Type 0
Answers id response = (response.id ≡ some id) × (well_formed response ≡ true)
