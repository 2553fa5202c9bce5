-- ===== src/Adb/Wireless/Pairing.antt =====
-- What a QR pairing that adb reports as done went through, and what stays pending.
use webadbcontrol.Base.{
  ℕ, ◌≡◌, refl, ap, ◌∙◌, String, true, none, some, List, [], ◌∷◌, ltb, arith, inl, inr, Bool-cases,
  Option-cases, eq_refl,
}
use webadbcontrol.Base.Text.{Text, codes}
use webadbcontrol.Base.Map.{lookup, remove, retain, kept, lookup-remove, lookup-retain}
use webadbcontrol.Error.{AppError, Result, ok, err, Result-cases}
use webadbcontrol.Adb.Wireless.Lines.{lines, find_pairing_endpoint}
use webadbcontrol.Adb.Wireless.{
  PendingPairing, WirelessPairingManager, WirelessPairingResult, RunOutput, qr_session_invalid,
  unexpired, cancel, get_pending, confirms, pair_with, pair,
}
use webadbcontrol.Adb.Wireless.Advertised.{Advertised, find_endpoint-Advertised}

-- Everything that a successful `pair` relied on.
pub record Paired (runner : List Text → Result RunOutput) (session_id : String) (now : ℕ)
    (pending : WirelessPairingManager) (result : WirelessPairingResult) : Type 0 where
  pub pairing : PendingPairing
  pub discovery : RunOutput
  pub output : RunOutput
  pub was_pending : lookup session_id pending ≡ some pairing
  pub in_time : ltb now pairing.expires_at ≡ true
  pub discovered : runner (codes "mdns" ∷ codes "services" ∷ []) ≡ ok discovery
  -- The endpoint is one that adb advertised for the service of this very session.
  pub advertised : Advertised (codes pairing.service_name) result.endpoint (lines discovery.stdout)
  -- adb was given this session's password, and confirmed.
  pub asked : runner (codes "pair" ∷ result.endpoint ∷ codes pairing.password ∷ []) ≡ ok output
  pub confirmed : confirms output ≡ true
  pub service : result.service_name ≡ pairing.service_name

advertised_lem :
    (stdout service endpoint : Text)
    → find_pairing_endpoint stdout service ≡ some endpoint
    → Advertised service endpoint (lines stdout)
unfolding find_pairing_endpoint
advertised_lem stdout service endpoint h =
    find_endpoint-Advertised service endpoint (lines stdout) h

pair_with-ok :
    (runner : List Text → Result RunOutput) (pairing : PendingPairing)
    (result : WirelessPairingResult)
    → pair_with runner pairing ≡ ok result
    → (discovery output : RunOutput) × (runner (codes "mdns" ∷ codes "services" ∷ [])
        ≡ ok discovery)
      × Advertised (codes pairing.service_name) result.endpoint (lines discovery.stdout)
      × (runner (codes "pair" ∷ result.endpoint ∷ codes pairing.password ∷ []) ≡ ok output)
      × (confirms output ≡ true)
      × (result.service_name ≡ pairing.service_name)
pair_with-ok runner pairing result h =
    elim (Result-cases (runner (codes "mdns" ∷ codes "services" ∷ []))) [
      | inr (e, bad) ↦ absurd (ground arith)
      | inl (discovery, found) ↦ elim (Bool-cases discovery.exit_is_zero) [
        | inr bad ↦ absurd (ground arith)
        | inl good ↦
            elim (Option-cases
              (find_pairing_endpoint discovery.stdout (codes pairing.service_name))) [
                | inl none_found ↦ absurd (ground arith)
                | inr (endpoint, listed) ↦
                    elim (Result-cases
                      (runner (codes "pair" ∷ endpoint ∷ codes pairing.password ∷ []))) [
                        | inr (e, bad) ↦ absurd (ground arith)
                        | inl (output, ran) ↦ elim (Bool-cases (confirms output)) [
                          | inr bad ↦ absurd (ground arith)
                          | inl yes_it_does ↦
                              let same : result.endpoint ≡ endpoint = ground arith in
                              (
                                discovery,
                                output,
                                found,
                                rw same (
                                    advertised_lem discovery.stdout (codes pairing.service_name)
                                      endpoint listed),
                                rw same ran,
                                yes_it_does,
                                ground arith,
                              )
                        ]
                      ]
              ]
      ]
    ]

module _ (runner : List Text → Result RunOutput) (session_id : String) (now : ℕ)
    (pending : WirelessPairingManager) where
  pair-none :
      kept (unexpired now) session_id (lookup session_id pending) ≡ none
      → pair runner session_id now pending
        ≡ (err qr_session_invalid, retain (unexpired now) pending)
  unfolding pair get_pending
  pair-none e = rw (lookup-retain (unexpired now) session_id pending ∙ e, pair) refl

pair_again :
    (runner : List Text → Result RunOutput) (session_id : String) (now : ℕ)
    (pending : WirelessPairingManager)
    → (pair runner session_id now (remove session_id pending)).0 ≡ err qr_session_invalid
pair_again runner session_id now pending =
    ap (λ r. r.0)
      (pair-none runner session_id now (remove session_id pending)
        (ground (arith, lookup-remove session_id session_id pending, eq_refl session_id)))

module _ (runner : List Text → Result RunOutput) (session_id : String) (now : ℕ)
    (pending : WirelessPairingManager) where
  kept-some :
      (pairing : PendingPairing)
      → kept (unexpired now) session_id (lookup session_id pending) ≡ some pairing
      → (lookup session_id pending ≡ some pairing) × (ltb now pairing.expires_at ≡ true)
  kept-some pairing e = elim (Option-cases (lookup session_id pending)) [
    | inl none_there ↦ absurd (ground arith)
    | inr (found, there_is) ↦ (ground arith, ground arith)
  ]

  pair_failed :
      (pairing : PendingPairing) (x : AppError)
      → kept (unexpired now) session_id (lookup session_id pending) ≡ some pairing
      → pair_with runner pairing ≡ err x
      → pair runner session_id now pending ≡ (err x, retain (unexpired now) pending)
  unfolding pair get_pending
  pair_failed pairing x e failed =
      rw (lookup-retain (unexpired now) session_id pending ∙ e, failed, pair) refl

  pair_done :
      (pairing : PendingPairing) (result : WirelessPairingResult)
      → kept (unexpired now) session_id (lookup session_id pending) ≡ some pairing
      → pair_with runner pairing ≡ ok result
      → pair runner session_id now pending
        ≡ (ok result, remove session_id (retain (unexpired now) pending))
  unfolding pair get_pending cancel
  pair_done pairing result e done =
      rw (lookup-retain (unexpired now) session_id pending ∙ e, done, pair) refl

  -- A pairing that succeeds was asked for in time, with this session's own password, at an endpoint
  -- that adb advertised for this session's service, and adb confirmed it. The session is then used
  -- up: asking again finds none, whenever and whatever the runner would answer.
  pub pair-Paired :
      (result : WirelessPairingResult)
      → (pair runner session_id now pending).0 ≡ ok result
      → Paired runner session_id now pending result
        × ((again : List Text → Result RunOutput) (later : ℕ)
            → (pair again session_id later (pair runner session_id now pending).1).0
              ≡ err qr_session_invalid)
  pair-Paired result h =
      elim (Option-cases (kept (unexpired now) session_id (lookup session_id pending))) [
        | inl e ↦ absurd (ground (arith, pair-none runner session_id now pending e))
        | inr (pairing, e) ↦ elim (Result-cases (pair_with runner pairing)) [
          | inr (x, failed) ↦ absurd (ground (arith, pair_failed pairing x e failed))
          | inl (r, done) ↦
              let is = pair_done pairing r e done in
              let same : r ≡ result = ground (arith, is) in
              let (discovery, output, discovered, advertised, asked, confirmed, service) =
                pair_with-ok runner pairing result (done ∙ ap ok same) in
              let (was, alive) = kept-some pairing e in
              (
                record {
                  pairing = pairing;
                  discovery = discovery;
                  output = output;
                  was_pending = was;
                  in_time = alive;
                  discovered = discovered;
                  advertised = advertised;
                  asked = asked;
                  confirmed = confirmed;
                  service = service;
                },
                (λ again later.
                    rw is (pair_again again session_id later (retain (unexpired now) pending))),
              )
        ]
      ]

  -- A pairing that fails leaves every session that has not expired as it was, so it can be retried.
  pub pair_retry :
      (e : AppError)
      → (pair runner session_id now pending).0 ≡ err e
      → (j : String)
      → lookup j (pair runner session_id now pending).1 ≡ kept (unexpired now) j (lookup j pending)
  pair_retry e h j =
      elim (Option-cases (kept (unexpired now) session_id (lookup session_id pending))) [
        | inl missing ↦
            ap (λ r. lookup j r.1) (pair-none runner session_id now pending missing)
            ∙ lookup-retain (unexpired now) j pending
        | inr (pairing, known) ↦ elim (Result-cases (pair_with runner pairing)) [
          | inl (result, done) ↦ absurd (ground (arith, pair_done pairing result known done))
          | inr (x, failed) ↦
              ap (λ r. lookup j r.1) (pair_failed pairing x known failed)
              ∙ lookup-retain (unexpired now) j pending
        ]
      ]
