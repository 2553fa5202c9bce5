-- ===== src/Trust/Store/Recovery.antt =====
-- A store that is saved and loaded again trusts the same devices.
use webadbcontrol.Base.{
  ℕ, ◌≡◌, refl, ◌∙◌, String, Option, none, some, List, [], ◌∷◌, arith, inr, eq_iff,
}
use webadbcontrol.Base.Text.{Text}
use webadbcontrol.Base.Map.{Map, lookup, insert, values, lookup-insert}
use webadbcontrol.Base.Map.Unique.{Unique}
use webadbcontrol.Error.{ok}
use webadbcontrol.Trust.Fingerprint.{validate_device_id}
use webadbcontrol.Trust.{
  TrustedDevice, TrustStore, empty_store, is_trusted, trust_store_schema_version,
}
use webadbcontrol.Trust.Invariant.{GoodDevice, IsValid, run-IsValid}
use webadbcontrol.Trust.Log.{Call, run}
use webadbcontrol.Trust.Store.{
  TrustStoreFile, content, SaveDisk, Codec, load_devices, load_trusted_devices_from_file,
  save_trusted_devices_to_file,
}

-- What `insert`ing each device under its own id makes of a map.
insert_all : List TrustedDevice → Map TrustedDevice → Map TrustedDevice
insert_all [] m = m
insert_all (d ∷ ds) m = insert_all ds (insert d.device_id d m)

abbrev or_else : Option TrustedDevice → Option TrustedDevice → Option TrustedDevice
or_else none o = o
or_else (some d) o = some d

or_else-none : (o : Option TrustedDevice) → or_else o none ≡ o
or_else-none none = refl
or_else-none (some d) = refl

module _ (unicode_lower : ℕ → Text) where
  abbrev AllGood : Map TrustedDevice → Type 0
  AllGood m =
      (id : String) (d : TrustedDevice) → lookup id m ≡ some d → GoodDevice unicode_lower id d

  AllGood-tail :
      (j : String) (d : TrustedDevice) (m : Map TrustedDevice)
      → lookup j m ≡ none
      → AllGood ((j, d) ∷ m)
      → AllGood m
  unfolding lookup
  AllGood-tail j d m absent good id e h = good id e (ground (arith, eq_iff j id))

  AllGood-head :
      (j : String) (d : TrustedDevice) (m : Map TrustedDevice)
      → AllGood ((j, d) ∷ m)
      → GoodDevice unicode_lower j d
  unfolding lookup
  AllGood-head j d m good = good j d (ground (arith, eq_iff j j))

  load_devices-values :
      (m n : Map TrustedDevice) (s : TrustStore)
      → Unique m
      → AllGood m
      → s.trusted_devices ≡ n
      → load_devices unicode_lower (values m) s
        ≡ ok (record s { trusted_devices = insert_all (values m) n })
  unfolding load_devices values insert_all validate_device_id
  load_devices-values [] n s u good e = ground arith
  load_devices-values ((j, d) ∷ m) n s (absent, u) good e =
      let g = AllGood-head j d m good in
      ground (
        arith,
        g,
        load_devices-values m (insert d.device_id d n)
            (record s { trusted_devices = insert d.device_id d s.trusted_devices }) u
            (AllGood-tail j d m absent good),
      )

  lookup-insert_all :
      (m n : Map TrustedDevice) (id : String)
      → Unique m
      → AllGood m
      → lookup id (insert_all (values m) n) ≡ or_else (lookup id m) (lookup id n)
  unfolding insert_all values lookup
  lookup-insert_all [] n id u good = refl
  lookup-insert_all ((j, d) ∷ m) n id (absent, u) good =
      let g = AllGood-head j d m good in
      ground (
        arith,
        g,
        eq_iff j id,
        lookup-insert d.device_id id d n,
        lookup-insert_all m (insert d.device_id d n) id u (AllGood-tail j d m absent good),
      )

  -- A valid store that is saved is loaded from the written text, and the loaded store has every
  -- trusted device as it was, revocations included, and no pending pairing.
  pub load-save :
      (codec : Codec) (disk : SaveDisk) (s : TrustStore) (text : String)
      → ((file : TrustStoreFile) (t : String)
          → codec.to_string_pretty file ≡ inr t
          → codec.from_str t ≡ inr file)
      → IsValid unicode_lower s
      → save_trusted_devices_to_file codec disk s ≡ ok text
      → (loaded : TrustStore) × (load_trusted_devices_from_file unicode_lower codec (content text)
          ≡ ok loaded)
        × ((id : String) → lookup id loaded.trusted_devices ≡ lookup id s.trusted_devices)
        × (loaded.pending_pairings ≡ [])
  unfolding load_trusted_devices_from_file save_trusted_devices_to_file lookup
  load-save codec disk s text decodes v saved =
      let file : TrustStoreFile = record {
        schema_version = trust_store_schema_version;
        trusted_devices = values s.trusted_devices;
      } in
      (
        record {
          pending_pairings = [];
          trusted_devices = insert_all (values s.trusted_devices) [];
        },
        ground (
          arith,
          decodes file text,
          load_devices-values s.trusted_devices [] empty_store v.distinct v.devices,
        ),
        (λ id.
            lookup-insert_all s.trusted_devices [] id v.distinct v.devices
            ∙ or_else-none (lookup id s.trusted_devices)),
        refl,
      )

  -- Core restarts: after any history of calls, a save that succeeds and a load of the written text
  -- give a store that trusts the same devices, for the same certificates and at the same times.
  pub is_trusted-load :
      (codec : Codec) (disk : SaveDisk) (log : List Call) (text : String)
      → ((file : TrustStoreFile) (t : String)
          → codec.to_string_pretty file ≡ inr t
          → codec.from_str t ≡ inr file)
      → save_trusted_devices_to_file codec disk (run unicode_lower log) ≡ ok text
      → (loaded : TrustStore) × (load_trusted_devices_from_file unicode_lower codec (content text)
          ≡ ok loaded)
        × ((id : String) (f : Text) (now : ℕ)
            → is_trusted unicode_lower id f now loaded
              ≡ is_trusted unicode_lower id f now (run unicode_lower log))
  unfolding is_trusted
  is_trusted-load codec disk log text decodes saved =
      let (loaded, loads, same, _) =
        load-save codec disk (run unicode_lower log) text decodes (run-IsValid unicode_lower log)
          saved in
      (loaded, loads, λ id f now. rw (same id, is_trusted))
