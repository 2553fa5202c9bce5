-- ===== src/Companion/Session/Authority.antt =====
-- What a session holds after any history of envelopes: only what Core's catalog knows.
use webadbcontrol.Base.{
  ◌≡◌, refl, ap, ◌∙◌, sym, String, ◌==◌, Bool, true, false, not, some, List, [], ◌∷◌, arith, inl,
  inr, ◌⊎◌, if◌then◌else◌, eq_iff, eq_refl, Option-cases, Bool-cases, All, filter,
}
use webadbcontrol.Base.Text.{contains}
use webadbcontrol.Base.Map.{lookup, lookup-insert}
use webadbcontrol.Error.{Result, ok, first_ok}
use webadbcontrol.Companion.Capability.{
  Capability, CapabilityPermissionState, find_capability, android_companion_capability_catalog,
}
use webadbcontrol.Companion.Registry.{ConnectionState, handshaking, ready}
use webadbcontrol.Companion.Session.{
  CompanionSession, CompanionSessionManager, SerdeJson, AnnouncedCapability,
  AnnouncedPermissionState, resolve_capability, resolve_state, resolve_all, is_empty,
}
use webadbcontrol.Companion.Session.Handlers.{Envelope, handle_envelope}
use webadbcontrol.Companion.Session.Frame.{
  Wrote, by_hello, by_list, by_states, Outcome, refuses, keeps, writes, handle_envelope-Outcome,
}
use webadbcontrol.Companion.Session.Log.{run}

-- The capability is the catalog's, with its description, its operations and its permissions.
abbrev pub InCatalog : Capability → Type 0
InCatalog c = find_capability c.id android_companion_capability_catalog ≡ some c

-- The permissions that a state lists are the catalog's, and the grants that it counts as given are
-- special permissions of the catalog that the device did not report as missing.
pub record IsCatalogued (state : CapabilityPermissionState) : Type 0 where
  pub capability : Capability
  pub known :
      find_capability state.capability_id android_companion_capability_catalog ≡ some capability
  pub permissions : state.android_permissions ≡ capability.permission.android_permissions
  pub grants :
      All
        (λ grant.
          (contains grant capability.permission.special_permissions ≡ true)
          × (contains grant state.missing_special_grants ≡ false))
        state.special_grants

pub record IsAuthorized (id : String) (s : CompanionSession) : Type 0 where
  pub own_id : s.device_id ≡ id
  pub capabilities : All InCatalog s.capabilities
  pub states : All IsCatalogued s.permission_states
  -- A session that is not ready is in its hand-shake, without a capability or without a state.
  pub stage :
      (s.connection_state ≡ ready)
      ⊎ ((s.connection_state ≡ handshaking) × ((s.capabilities ≡ []) ⊎ (s.permission_states ≡ [])))

find_capability_id :
    (id : String) (cs : List Capability) (c : Capability)
    → find_capability id cs ≡ some c
    → c.id ≡ id
unfolding find_capability
find_capability_id id [] c h = absurd (ground arith)
find_capability_id id (d ∷ ds) c h = elim (Bool-cases (d.id == id)) [
  | inl same ↦ ground (arith, eq_iff d.id id)
  | inr other ↦ find_capability_id id ds c (ground arith)
]

resolve_capability-InCatalog :
    (announced : AnnouncedCapability) (c : Capability)
    → resolve_capability announced ≡ ok c
    → InCatalog c
unfolding resolve_capability
resolve_capability-InCatalog announced c h =
    elim (Option-cases (find_capability announced.id android_companion_capability_catalog)) [
      | inl e ↦ absurd (ground arith)
      | inr (d, e) ↦
          let own = find_capability_id announced.id android_companion_capability_catalog d e in
          let same : c ≡ d = ground arith in
          rw same (ap (λ id. find_capability id android_companion_capability_catalog) own ∙ e)
    ]

filter-All {ℓ κ ι} :
    {A : Type ℓ} {P : A → Type κ} {Q : A → Type ι} (p : A → Bool) (xs : List A)
    → All Q xs
    → ((x : A) → Q x → p x ≡ true → P x)
    → All P (filter p xs)
unfolding filter
filter-All p [] qs f = tt
filter-All p (x ∷ xs) (q, qs) f = elim (Bool-cases (p x)) [
  | inl yes_x ↦ rw yes_x (f x q yes_x, filter-All p xs qs f)
  | inr no_x ↦ rw no_x (filter-All p xs qs f)
]

contains-All :
    (gs hs : List String)
    → ((g : String) → contains g gs ≡ true → contains g hs ≡ true)
    → All (λ g. contains g hs ≡ true) gs
contains-All [] hs f = tt
contains-All (x ∷ gs) hs f =
    (f x (ground (arith, eq_refl x)), contains-All gs hs (λ g h. f g (ground arith)))

resolve_all-All {ℓ κ ι} :
    {A : Type ℓ} {B : Type κ} (P : B → Type ι) (f : A → Result B) (xs : List A) (bs : List B)
    → ((a : A) (b : B) → f a ≡ ok b → P b)
    → resolve_all f xs ≡ ok bs
    → All P bs
unfolding resolve_all
resolve_all-All P f [] [] g h = tt
resolve_all-All P f [] (b ∷ bs) g h = absurd (ground arith)
resolve_all-All P f (x ∷ xs) bs g h =
    let (b, hb, h1) = first_ok (f x) _ h in
    let (rest, hr, h2) = first_ok (resolve_all f xs) _ h1 in
    let is : bs ≡ b ∷ rest = ground arith in rw is (g x b hb, resolve_all-All P f xs rest g hr)

resolve_state-IsCatalogued :
    (announced : AnnouncedPermissionState) (state : CapabilityPermissionState)
    → resolve_state announced ≡ ok state
    → IsCatalogued state
unfolding resolve_state
resolve_state-IsCatalogued announced state h =
    elim (Option-cases
      (find_capability announced.capability_id android_companion_capability_catalog)) [
        | inl e ↦ absurd (ground arith)
        | inr (c, e) ↦
            let missing = announced.missing_special_grants in
            let special = c.permission.special_permissions in
            let kept = filter (λ g. not (contains g missing)) special in
            let is_kept : state.special_grants ≡ kept = ground arith in
            let is_missing : state.missing_special_grants ≡ missing = ground arith in
            record {
              capability = c;
              known = ground arith;
              permissions = ground arith;
              grants =
                  rw (is_kept, is_missing)
                    (filter-All (λ g. not (contains g missing)) special
                      (contains-All special special (λ g h. h)) (λ g q k. (q, ground arith)));
            }
      ]

-- A handler makes the session ready if what the other handler writes is there.
next_stage {ℓ κ ι} :
    {A : Type ℓ} {P : Type κ} {Q : Type ι} (state : ConnectionState) (there : List A)
    → (there ≡ [] → P)
    → (state ≡ ready) ⊎ ((state ≡ handshaking) × Q)
    → ((if is_empty there then state else ready) ≡ ready)
      ⊎ (((if is_empty there then state else ready) ≡ handshaking) × P)
unfolding is_empty
next_stage state [] f (inl r) = inl r
next_stage state [] f (inr (h, _)) = inr (h, f refl)
next_stage state (x ∷ there) f stage = inl refl

Wrote-IsAuthorized :
    (sessions : CompanionSessionManager) (id : String) (new : CompanionSession)
    → Wrote sessions id new
    → ((j : String) (s : CompanionSession) → lookup j sessions ≡ some s → IsAuthorized j s)
    → IsAuthorized id new
Wrote-IsAuthorized sessions id new (by_hello g same is) good =
    rw is
      (record { own_id = sym same; capabilities = tt; states = tt; stage = inr (refl, inl refl) })
Wrote-IsAuthorized sessions id new (by_list old announced capabilities known resolved is) good =
    let v = good id old known in
    rw is (record {
      own_id = v.own_id;
      capabilities =
          resolve_all-All InCatalog resolve_capability announced capabilities
            resolve_capability-InCatalog resolved;
      states = v.states;
      stage = next_stage old.connection_state old.permission_states inr v.stage;
    })
Wrote-IsAuthorized sessions id new (by_states old announced states known resolved is) good =
    let v = good id old known in
    rw is (record {
      own_id = v.own_id;
      capabilities = v.capabilities;
      states =
          resolve_all-All IsCatalogued resolve_state announced states resolve_state-IsCatalogued
            resolved;
      stage = next_stage old.connection_state old.capabilities inl v.stage;
    })

module _ (J : SerdeJson) where
  Outcome-IsAuthorized :
      (sessions : CompanionSessionManager) (after : Result (Envelope J) × CompanionSessionManager)
      → Outcome J sessions after
      → ((j : String) (s : CompanionSession) → lookup j sessions ≡ some s → IsAuthorized j s)
      → (j : String) (s : CompanionSession) → lookup j after.1 ≡ some s
      → IsAuthorized j s
  Outcome-IsAuthorized sessions _ (refuses e) good j s h = good j s h
  Outcome-IsAuthorized sessions _ (keeps answer) good j s h = good j s h
  Outcome-IsAuthorized sessions _ (writes answer id new names w) good j s h =
      elim (Bool-cases (id == j)) [
        | inl same ↦
            let e : s ≡ new = ground (arith, lookup-insert id j new sessions) in
            let f : j ≡ id = ground (arith, eq_iff id j) in
            rw (e, f) (Wrote-IsAuthorized sessions id new w good)
        | inr other ↦ good j s (ground (arith, lookup-insert id j new sessions))
      ]

  run_from :
      (envelopes : List (Envelope J)) (sessions : CompanionSessionManager)
      → ((j : String) (s : CompanionSession) → lookup j sessions ≡ some s → IsAuthorized j s)
      → (j : String) (s : CompanionSession) → lookup j (run J sessions envelopes) ≡ some s
      → IsAuthorized j s
  unfolding run
  run_from [] sessions good = good
  run_from (envelope ∷ envelopes) sessions good =
      run_from envelopes (handle_envelope J envelope sessions).1 (
        Outcome-IsAuthorized sessions (handle_envelope J envelope sessions)
          (handle_envelope-Outcome J envelope sessions) good)

  -- Whatever envelopes arrive, every session is stored under its own device's id, holds only
  -- capabilities as the catalog describes them and states of catalogued capabilities, counts as
  -- granted only special permissions that the catalog lists and the device did not report as
  -- missing, and is ready unless it is in its hand-shake without a capability or without a state.
  pub run-IsAuthorized :
      (envelopes : List (Envelope J)) (id : String) (s : CompanionSession)
      → lookup id (run J [] envelopes) ≡ some s
      → IsAuthorized id s
  unfolding lookup
  run-IsAuthorized envelopes id s h = run_from envelopes [] (λ j s h. absurd (ground arith)) id s h
