-- ===== src/Remote/Devices.antt =====
-- remote/service.rs: the devices that adb lists, and the device list that a remote user is shown.
pub mod Entries
pub mod Directory
pub mod Assigned
use Prim.Native.Char.{code}
use webadbcontrol.Base.{
  String, ◌==◌, ◌<>◌, Bool, true, false, not, ◌&&◌, ◌||◌, Option, none, some, List, [], ◌∷◌, ◌++◌,
  any, filter, ◌==ℕ◌, if◌then◌else◌, is_some,
}
use webadbcontrol.Base.Text.{is_whitespace}
use webadbcontrol.Base.Map.{keys}
use webadbcontrol.Remote.Accounts.{AuthenticatedSession}
use webadbcontrol.Remote.Authorize.{JsonValue, string_of}
use webadbcontrol.Remote.Identity.{same_remote_device_identity}

-- A character joins the line that follows it.
abbrev join : String → List String → List String
join c [] = c ∷ []
join c (line ∷ more) = (c <> line) ∷ more

-- `str::lines`. The carriage return that it takes off the end of a line is white space, which the
-- only caller splits at.
unfoldable pub lines : String → List String
lines String.[] = []
lines (String.◌∷◌ c s) =
    let rest = lines s in if code c ==ℕ 10 then "" ∷ rest else join (String.◌∷◌ c "") rest

abbrev word_before : String → List String → List String
word_before word words = if word == "" then words else word ∷ words

-- The characters up to the first white space, and the words after it.
abbrev split_words : String → String × List String
split_words String.[] = ("", [])
split_words (String.◌∷◌ c s) =
    let (word, words) = split_words s in
    if is_whitespace (code c) then ("", word_before word words) else (String.◌∷◌ c word, words)

-- `split_whitespace`
unfoldable pub split_whitespace : String → List String
split_whitespace s = let (word, words) = split_words s in word_before word words

abbrev pub is_state : String → Bool
is_state field = field == "device" || field == "offline" || field == "unauthorized"

abbrev pub with_space : String → Option String → String
with_space field none = field
with_space field (some more) = field <> " " <> more

-- The fields before the first state, joined, when that state is `device`. The first result is
-- whether there is such a line, the second the fields.
abbrev pub before_state : List String → Bool × Option String
before_state [] = (false, none)
before_state (field ∷ fields) =
    let (found, more) = before_state fields in
    if is_state field then (field == "device", none) else (found, some (with_space field more))

abbrev pub if_connected : Bool × Option String → Option String
if_connected (true, id) = id
if_connected (false, id) = none

unfoldable pub parse_adb_device_id : String → Option String
unfolding split_whitespace
parse_adb_device_id line = if_connected (before_state (split_whitespace line))

abbrev pub found_before : Option String → List String → List String
found_before none ids = ids
found_before (some id) ids = id ∷ ids

abbrev pub connected_ids : List String → List String
connected_ids [] = []
connected_ids (line ∷ more) =
    let rest = connected_ids more in found_before (parse_adb_device_id line) rest

-- `iter().find`
abbrev pub find_same : String → List String → Option String
find_same id [] = none
find_same id (candidate ∷ more) =
    let rest = find_same id more in
    if same_remote_device_identity id candidate then some candidate else rest

-- serde_json: the accessors, the values that are built, and `value[key] = …`.
pub record JsonDocument : Type 1 where
  pub reads : JsonValue
  pub is_object : reads.Value → Bool
  pub string : String → reads.Value
  pub array : List reads.Value → reads.Value
  pub object : List (String × reads.Value) → reads.Value
  pub set : reads.Value → String → reads.Value → reads.Value

module _ (D : JsonDocument) where
  abbrev pub Json : Type 0
  Json = D.reads.Value

  abbrev pub text_of : Json → String → Option String
  text_of value key = string_of D.reads (D.reads.get value key)

  abbrev pub matches : (String → Bool) → Option String → Bool
  matches p none = false
  matches p (some id) = p id

  abbrev pub is_known_as : String → Json → Bool
  is_known_as id device =
      matches (λ known. same_remote_device_identity known id) (text_of device "deviceId")

  abbrev pub is_ready : Json → Bool
  is_ready device = matches (λ state. state == "ready") (text_of device "connectionState")

  -- `max_by_key`, which takes the last of the greatest.
  abbrev pub better : Option Json → Json → Json
  better none device = device
  better (some best) device = if is_ready best && not (is_ready device) then best else device

  abbrev pub best_of : Option Json → List Json → Option Json
  best_of best [] = best
  best_of best (device ∷ devices) = best_of (some (better best device)) devices

  abbrev pub registered_entry : String → List Json → Option Json
  registered_entry assigned registered = best_of none (filter (is_known_as assigned) registered)

  abbrev pub first_of : Option String → Option String → String → String
  first_of (some current) remembered assigned = current
  first_of none (some remembered) assigned = remembered
  first_of none none assigned = assigned

  abbrev pub remembered_id : Option Json → Option String
  remembered_id none = none
  remembered_id (some device) = text_of device "deviceId"

  abbrev pub or_empty : Option String → String
  or_empty none = ""
  or_empty (some s) = s

  abbrev pub lacks_name : String → Option String → Bool
  lacks_name previous none = true
  lacks_name previous (some name) = name == "" || name == previous

  abbrev pub is_stale_state : Option String → Bool
  is_stale_state none = false
  is_stale_state (some state) = state == "adb" || state == "disconnected" || state == "offline"

  abbrev pub set_text : Json → String → String → Json
  set_text entry key value = D.set entry key (D.string value)

  abbrev pub set_if : Bool → Json → String → String → Json
  set_if test entry key value = if test then set_text entry key value else entry

  abbrev pub named_state : Bool → String → String
  named_state true connected = connected
  named_state false connected = "offline"

  abbrev pub entry_or_empty : Option Json → Json
  entry_or_empty none = D.object []
  entry_or_empty (some entry) = entry

  abbrev pub updated_entry : Option Json → String → Bool → Json
  updated_entry registered display_id is_current =
      let entry = entry_or_empty registered in
      let previous = or_empty (text_of entry "deviceId") in
      let renames = lacks_name previous (text_of entry "name") in
      let with_id = set_text entry "deviceId" display_id in
      let with_adb = set_text with_id "adbState" (named_state is_current "device") in
      let restates =
        not (is_some (D.reads.get with_adb "connectionState"))
        || is_stale_state (text_of with_adb "connectionState") in
      let with_state = set_if restates with_adb "connectionState" (named_state is_current "adb") in
      set_if renames with_state "name" display_id

  -- One round of the loop over the assigned devices.
  unfoldable pub reconcile_device : List Json → List String → String → List Json → List Json
  reconcile_device registered current_adb_ids assigned reconciled =
      let current = find_same assigned current_adb_ids in
      let entry = registered_entry assigned registered in
      let display_id = first_of current (remembered_id entry) assigned in
      if any (is_known_as display_id) reconciled
      then reconciled
      else reconciled ++ updated_entry entry display_id (is_some current) ∷ []

  unfoldable pub reconcile_all : List Json → List String → List String → List Json → List Json
  unfolding reconcile_device
  reconcile_all registered current_adb_ids [] reconciled = reconciled
  reconcile_all registered current_adb_ids (assigned ∷ more) reconciled =
      reconcile_all registered current_adb_ids more
        (reconcile_device registered current_adb_ids assigned reconciled)

  unfoldable pub reconcile_remote_device_list :
      List Json → AuthenticatedSession → List String → List Json
  unfolding reconcile_all
  reconcile_remote_device_list devices session current_adb_ids =
      reconcile_all devices current_adb_ids (keys session.devices) []
