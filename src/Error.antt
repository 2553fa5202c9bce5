-- ===== src/Error.antt =====
-- core/crates/adbcontrol-core/src/error.rs: the one error shape, and Rust's `Result` over it.
use webadbcontrol.Base.{
  ◌≡◌, refl, ◌⊎◌, inl, inr, String, ◌<>◌, Bool, true, false, Option, none, some,
}

pub record AppError : Type 0 where
  pub error_code : String
  pub message : String
  pub module_name : String
  pub recoverable : Bool
  pub cause : Option String
  pub suggestion : Option String
  pub trace_id : Option String

unfoldable pub new : String → String → String → Bool → AppError
new error_code message module_name recoverable = record {
  error_code = error_code;
  message = message;
  module_name = module_name;
  recoverable = recoverable;
  cause = none;
  suggestion = none;
  trace_id = none;
}

unfoldable pub with_cause : AppError → String → AppError
with_cause e cause = record e { cause = some cause }

unfoldable pub with_suggestion : AppError → String → AppError
with_suggestion e suggestion = record e { suggestion = some suggestion }

unfoldable pub with_trace_id : AppError → String → AppError
with_trace_id e trace_id = record e { trace_id = some trace_id }

labelled : String → Option String → String
labelled label none = ""
labelled label (some text) = label <> text

-- `Display`
unfoldable pub to_string : AppError → String
unfolding labelled
to_string e =
    e.module_name
    <> " ["
    <> e.error_code
    <> "]: "
    <> e.message
    <> labelled " Cause: " e.cause
    <> labelled " Suggestion: " e.suggestion

pub data Result {ℓ} (A : Type ℓ) : Type ℓ where
  ok : A → Result A
  err : AppError → Result A

-- `r?` in the middle of a function: the rest runs on the value, an error is returned at once.
infixl 5 ◌>>◌ ◌>>=◌
abbrev pub ◌>>=◌ {κ ℓ} : {B : Type κ} {A : Type ℓ} → Result B → (B → Result A) → Result A
err failure >>= rest = err failure
ok value >>= rest = rest value

abbrev pub ◌>>◌ {ℓ} : {A : Type ℓ} → Result (Unit {0}) → Result A → Result A
err failure >> rest = err failure
ok _ >> rest = rest

-- `if b { return Err(e) }`
abbrev pub fail_if : Bool → AppError → Result (Unit {0})
fail_if b e = elim b [ true ↦ err e | false ↦ ok tt ]

-- `ok_or_else`
abbrev pub or_fail {ℓ} : {A : Type ℓ} → Option A → AppError → Result A
or_fail none e = err e
or_fail (some a) e = ok a

-- A chain that succeeds had a first step that succeeded.
pub first_ok {κ ℓ} :
    {B : Type κ} {A : Type ℓ} (first : Result B) (rest : B → Result A) {end : A}
    → (first >>= rest) ≡ ok end
    → (value : B) × (first ≡ ok value) × (rest value ≡ ok end)
first_ok (err failure) rest h = cc
first_ok (ok value) rest h = (value, refl, h)

pub Result-cases {ℓ} :
    {A : Type ℓ} (r : Result A) → ((a : A) × (r ≡ ok a)) ⊎ ((e : AppError) × (r ≡ err e))
Result-cases (ok a) = inl (a, refl)
Result-cases (err e) = inr (e, refl)
