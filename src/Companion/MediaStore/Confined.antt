-- ===== src/Companion/MediaStore/Confined.antt =====
-- Where the media store writes.
use webadbcontrol.Base.{
  ℕ, ◌≡◌, refl, ◌⊎◌, inl, inr, String, ◌==◌, ◌<>◌, true, false, ◌∷◌, arith, all, eq_iff, Bool-cases,
  Option-cases,
}
use webadbcontrol.Base.Text.{Text, codes, codes-append, is_ascii_alphanumeric}
use webadbcontrol.Base.Map.{Map, lookup, insert, lookup-insert}
use webadbcontrol.Error.{Result-cases}
use webadbcontrol.Companion.MediaStore.{
  CompanionMediaStore, MediaDisk, is_safe, safe_path_segment, chunk_name, is_stream_chunk,
  write_chunk, store_envelope, next_chunk_index, dir_of, chunk_of,
}
use webadbcontrol.Companion.Session.{SerdeJson}
use webadbcontrol.Companion.Session.Handlers.{Envelope}

underscore : (s : String) → codes ("_" <> s) ≡ b'_' ∷ codes s
underscore s = codes-append "_" s

-- Nothing in a segment leaves the root directory: there is no dot and no separator.
safe_path_segment-safe : (s : String) → all is_safe (codes (safe_path_segment s)) ≡ true
unfolding safe_path_segment is_ascii_alphanumeric
safe_path_segment-safe String.[] = refl
safe_path_segment-safe (String.◌∷◌ c s) =
    ground (arith, underscore (safe_path_segment s), safe_path_segment-safe s)

other_directory :
    (segment d : String) (dir : Map Text) (files : Map (Map Text))
    → (segment == d) ≡ false
    → lookup d (insert segment dir files) ≡ lookup d files
other_directory segment d dir files other = ground (arith, lookup-insert segment d dir files)

write_chunk-other :
    (disk : MediaDisk) (session_id : String) (bytes : Text) (index : ℕ)
    (store : CompanionMediaStore) (d : String)
    → (safe_path_segment session_id == d) ≡ false
    → lookup d (write_chunk disk session_id bytes index store).1.files ≡ lookup d store.files
write_chunk-other disk session_id bytes index store d other =
    let segment = safe_path_segment session_id in
    let name = chunk_name index in
    let dir = dir_of (lookup segment store.files) in
    let whole = other_directory segment d (insert name bytes dir) store.files other in
    elim (Option-cases disk.left_over) [
      | inl nothing ↦ ground (arith, whole, other_directory segment d dir store.files other)
      | inr (part, some_left) ↦
          ground (arith, whole, other_directory segment d (insert name part dir) store.files other)
    ]

module _ (J : SerdeJson) where
  -- A message changes no directory of the media store but one whose name has only letters, digits, `-`
  -- and `_`: whatever the session's id is, no file outside the store's root is written.
  pub store_envelope-Confined :
      (envelope : Envelope J) (store : CompanionMediaStore) (d : String)
      → (lookup d (store_envelope J envelope store).1.files ≡ lookup d store.files)
        ⊎ (all is_safe (codes d) ≡ true)
  unfolding store_envelope
  store_envelope-Confined envelope store d = elim (Bool-cases (is_stream_chunk J envelope.kind)) [
    | inr other ↦ inl (ground arith)
    | inl chunk ↦ elim (Result-cases (chunk_of J envelope.payload)) [
      | inr (e, invalid) ↦ inl (ground arith)
      | inl ((session_id, bytes), found) ↦ elim (Bool-cases (safe_path_segment session_id == d)) [
        | inl same ↦ inr (
            rw (← (eq_iff (safe_path_segment session_id) d).0 same)
              (safe_path_segment-safe session_id))
        | inr other ↦
            let disk = store.disk store.calls in
            elim (Result-cases (next_chunk_index disk (safe_path_segment session_id) store.files)) [
              | inr (e, unread) ↦ inl (ground arith)
              | inl (index, counted) ↦
                  inl (ground (arith, write_chunk-other disk session_id bytes index store d other))
            ]
      ]
    ]
  ]
