-- ===== src/Companion/Session/Log.antt =====
-- Any history of envelopes that the session manager handles.
use webadbcontrol.Base.{List, [], ◌∷◌}
use webadbcontrol.Companion.Session.{SerdeJson, CompanionSessionManager}
use webadbcontrol.Companion.Session.Handlers.{Envelope, handle_envelope}

module _ (J : SerdeJson) where
  -- Oldest envelope first.
  unfoldable pub run : CompanionSessionManager → List (Envelope J) → CompanionSessionManager
  run sessions [] = sessions
  run sessions (envelope ∷ envelopes) = run (handle_envelope J envelope sessions).1 envelopes
