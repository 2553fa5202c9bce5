-- ===== src/Companion/MediaStore/History.antt =====
-- The media store under any sequence of messages.
use webadbcontrol.Base.{ℕ, ◌≡◌, String, ◌==◌, true, false, List, [], ◌∷◌}
use webadbcontrol.Base.Text.{Text}
use webadbcontrol.Companion.MediaStore.{CompanionMediaStore, store_envelope}
use webadbcontrol.Companion.MediaStore.Kept.{AllNumbered, Keeps, dir_at}
use webadbcontrol.Companion.Session.{SerdeJson}
use webadbcontrol.Companion.Session.Handlers.{Envelope}

module _ (J : SerdeJson) where
  unfoldable pub run : List (Envelope J) → CompanionMediaStore → CompanionMediaStore
  run [] store = store
  run (envelope ∷ envelopes) store = run envelopes (store_envelope J envelope store).1

  SeesDirs : CompanionMediaStore → Type 0
  SeesDirs store = (k : ℕ) → (store.disk k).sees_dir ≡ true

  record Ran (n : ℕ) (store after : CompanionMediaStore) : Type 0 where
    numbered : AllNumbered n after.files
    sees : SeesDirs after
    keeps : (d : String) → (d == "") ≡ false → Keeps (dir_at d store.files) (dir_at d after.files)
