-- ===== src/Remote/Devices/Entries.antt =====
-- The entries of the list of a remote user, and what serde_json documents of them.
use webadbcontrol.Base.{◌≡◌, refl, ap, ◌∙◌, String, ◌==◌, Bool, true, false, Option, some, List}
use webadbcontrol.Remote.Authorize.{string_of}
use webadbcontrol.Remote.Devices.{
  JsonDocument, Json, text_of, set_text, set_if, entry_or_empty, updated_entry,
}

module _ (D : JsonDocument) where
  -- What serde_json documents of an object's members.
  pub record Members : Type 0 where
    pub get_is_object :
        (v : Json D) (key : String) (x : Json D) → D.reads.get v key ≡ some x → D.is_object v ≡ true
    pub object_is_object : (fields : List (String × Json D)) → D.is_object (D.object fields) ≡ true
    pub set_is_object :
        (v : Json D) (key : String) (x : Json D)
        → D.is_object v ≡ true
        → D.is_object (D.set v key x) ≡ true
    pub get_set :
        (v : Json D) (key : String) (x : Json D)
        → D.is_object v ≡ true
        → D.reads.get (D.set v key x) key ≡ some x
    pub get_set_other :
        (v : Json D) (key other : String) (x : Json D)
        → D.is_object v ≡ true
        → (key == other) ≡ false
        → D.reads.get (D.set v key x) other ≡ D.reads.get v other
    pub as_str_string : (s : String) → D.reads.as_str (D.string s) ≡ some s

  abbrev pub HasId : Json D → String → Type 0
  HasId entry id = (D.is_object entry ≡ true) × (text_of D entry "deviceId" ≡ some id)

  module _ (laws : Members) where
    set_text-HasId :
        (entry : Json D) (id key value : String)
        → (key == "deviceId") ≡ false
        → HasId entry id
        → HasId (set_text D entry key value) id
    set_text-HasId entry id key value other (object, named) = (
      laws.set_is_object entry key (D.string value) object,
      ap (string_of D.reads) (laws.get_set_other entry key "deviceId" (D.string value) object other)
          ∙ named,
    )

    set_if-HasId :
        (test : Bool) (entry : Json D) (id key value : String)
        → (key == "deviceId") ≡ false
        → HasId entry id
        → HasId (set_if D test entry key value) id
    set_if-HasId true entry id key value other has = set_text-HasId entry id key value other has
    set_if-HasId false entry id key value other has = has

    pub updated_entry-HasId :
        (registered : Option (Json D)) (id : String) (is_current : Bool)
        → D.is_object (entry_or_empty D registered) ≡ true
        → HasId (updated_entry D registered id is_current) id
    updated_entry-HasId registered id is_current object =
        let entry = entry_or_empty D registered in
        let start : HasId (set_text D entry "deviceId" id) id = (
          laws.set_is_object entry "deviceId" (D.string id) object,
          ap (string_of D.reads) (laws.get_set entry "deviceId" (D.string id) object)
              ∙ laws.as_str_string id,
        ) in
        set_if-HasId _ _ id "name" id refl (
          set_if-HasId _ _ id "connectionState" _ refl
            (set_text-HasId _ id "adbState" _ refl start))
