-- ===== src/Trust/Attempts.antt =====
-- Guessing the short code of a pairing.
use webadbcontrol.Base.{
  ℕ, ◌-◌, ◌≤◌, ◌≡◌, refl, inl, inr, String, ◌==◌, false, none, some, List, [], ◌∷◌, arith, All,
  length, ltb, if◌then◌else◌, Option-cases, Bool-cases, eq_refl,
}
use webadbcontrol.Base.Map.{lookup, insert, lookup-insert, lookup-remove}
use webadbcontrol.Trust.{PairingChallenge, TrustStore, confirm_pairing}

-- A guess is a code and the time at which it is made.
unfoldable pub guesses : String → List (String × ℕ) → TrustStore → TrustStore
guesses id [] s = s
guesses id ((code, now) ∷ rest) s = guesses id rest (confirm_pairing id code now s).1

abbrev pub IsWrong : PairingChallenge → String × ℕ → Type 0
IsWrong c (code, now) = (c.short_code == code) ≡ false

abbrev pub InTime : PairingChallenge → String × ℕ → Type 0
InTime c (code, now) = now ≤ c.expires_at_unix_ms

abbrev pub left : PairingChallenge → ℕ → PairingChallenge
left c n = record c { attempts_remaining = n }

-- What one wrong guess leaves.
pub wrong_code_lem :
    (id code : String) (now : ℕ) (s : TrustStore) (c : PairingChallenge)
    → lookup id s.pending_pairings ≡ some c
    → IsWrong c (code, now)
    → lookup id (confirm_pairing id code now s).1.pending_pairings ≡ (
        if ltb c.expires_at_unix_ms now
        then none
        else if ltb 1 c.attempts_remaining
        then some (left c (c.attempts_remaining - 1))
        else none)
unfolding confirm_pairing
wrong_code_lem id code now s c e wrong = elim (Bool-cases (ltb c.expires_at_unix_ms now)) [
  | inl late ↦ ground (arith, eq_refl id, lookup-remove id id s.pending_pairings)
  | inr in_time ↦ ground (
    arith,
    eq_refl id,
    lookup-insert id id (left c (c.attempts_remaining - 1)) s.pending_pairings,
    lookup-remove id id (insert id (left c (c.attempts_remaining - 1)) s.pending_pairings),
  )
]

wrong_code_trusted :
    (id code : String) (now : ℕ) (s : TrustStore) (c : PairingChallenge)
    → lookup id s.pending_pairings ≡ some c
    → IsWrong c (code, now)
    → (confirm_pairing id code now s).1.trusted_devices ≡ s.trusted_devices
unfolding confirm_pairing
wrong_code_trusted id code now s c e wrong = ground arith

unknown_lem :
    (id code : String) (now : ℕ) (s : TrustStore)
    → lookup id s.pending_pairings ≡ none
    → (confirm_pairing id code now s).1 ≡ s
unfolding confirm_pairing
unknown_lem id code now s e = ground arith

guesses_unknown :
    (id : String) (tries : List (String × ℕ)) (s : TrustStore)
    → lookup id s.pending_pairings ≡ none
    → guesses id tries s ≡ s
unfolding guesses
guesses_unknown id [] s e = refl
guesses_unknown id ((code, now) ∷ rest) s e =
    rw (unknown_lem id code now s e) (guesses_unknown id rest s e)

-- While the challenge lasts, each wrong guess costs one attempt; the challenge is there, otherwise as
-- it was, exactly as long as fewer guesses were made than it had attempts, and no device becomes trusted.
pub guesses_count :
    (id : String) (tries : List (String × ℕ)) (s : TrustStore) (c : PairingChallenge)
    → lookup id s.pending_pairings ≡ some c
    → 1 ≤ c.attempts_remaining
    → All (IsWrong c) tries
    → All (InTime c) tries
    → (lookup id (guesses id tries s).pending_pairings ≡ (
        if ltb (length tries) c.attempts_remaining
        then some (left c (c.attempts_remaining - length tries))
        else none))
      × ((guesses id tries s).trusted_devices ≡ s.trusted_devices)
unfolding guesses
guesses_count id [] s c e pos wrong in_time = (ground arith, refl)
guesses_count id ((code, now) ∷ rest) s c e pos (w, wrong) (t, in_time) =
    let s' = (confirm_pairing id code now s).1 in
    elim (Bool-cases (ltb 1 c.attempts_remaining)) [
      | inl more ↦
          let ih =
            guesses_count id rest s' (left c (c.attempts_remaining - 1))
              (ground (arith, wrong_code_lem id code now s c e w)) (ground arith) wrong in_time in
          ground (arith, ih, wrong_code_trusted id code now s c e w)
      | inr last ↦ ground (
        arith,
        guesses_unknown id rest s',
        wrong_code_lem id code now s c e w,
        wrong_code_trusted id code now s c e w,
      )
    ]

-- After as many wrong guesses as there are attempts, whenever they are made, the challenge is gone and no device
-- has become trusted.
pub guesses_exhaust :
    (id : String) (tries : List (String × ℕ)) (s : TrustStore) (c : PairingChallenge)
    → lookup id s.pending_pairings ≡ some c
    → 1 ≤ c.attempts_remaining
    → All (IsWrong c) tries
    → c.attempts_remaining ≤ length tries
    → (lookup id (guesses id tries s).pending_pairings ≡ none)
      × ((guesses id tries s).trusted_devices ≡ s.trusted_devices)
unfolding guesses
guesses_exhaust id [] s c e pos wrong enough = absurd (omega arith)
guesses_exhaust id ((code, now) ∷ rest) s c e pos (w, wrong) enough =
    let s' = (confirm_pairing id code now s).1 in
    elim (Option-cases (lookup id s'.pending_pairings)) [
      | inl gone ↦
          ground (arith, guesses_unknown id rest s', wrong_code_trusted id code now s c e w)
      | inr (c', more) ↦
          let is_left : c' ≡ left c (c.attempts_remaining - 1) =
            ground (arith, wrong_code_lem id code now s c e w) in
          let ih =
            guesses_exhaust id rest s' (left c (c.attempts_remaining - 1)) (cc)
              (ground (arith, wrong_code_lem id code now s c e w)) wrong (omega arith) in
          ground (arith, ih, wrong_code_trusted id code now s c e w)
    ]
