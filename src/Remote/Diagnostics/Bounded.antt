-- ===== src/Remote/Diagnostics/Bounded.antt =====
-- What a mobile client can put into Core's log.
use webadbcontrol.Base.{ℕ, ◌==◌, String, Bool, true, ◌&&◌, Option, none, some, all, leb}
use webadbcontrol.Base.Text.{Text, text_len}
use webadbcontrol.Remote.Diagnostics.{DiagnosticLine, is_safe_char}

-- At most `max` bytes, all of the characters that the log allows.
abbrev pub is_bounded : ℕ → Text → Bool
is_bounded max s = leb (text_len s) max && all is_safe_char s

abbrev pub is_bounded_or_none : ℕ → Option Text → Bool
is_bounded_or_none max none = true
is_bounded_or_none max (some s) = is_bounded max s

-- No field of the line is longer than its limit, or has another character than the log allows; the
-- actor is the account's name, which is not the client's text.
abbrev pub is_bounded_line : String → DiagnosticLine → Bool
is_bounded_line actor line =
    line.actor == actor
    && is_bounded 64 line.session_id
    && is_bounded 71 line.trace
    && is_bounded 16 line.level
    && is_bounded 96 line.phase
    && is_bounded 96 line.module_name
    && is_bounded_or_none 96 line.recorded_code
    && is_bounded 96 line.error_code
    && is_bounded 200 line.detail
