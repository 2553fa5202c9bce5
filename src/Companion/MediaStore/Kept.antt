-- ===== src/Companion/MediaStore/Kept.antt =====
-- No stored chunk is written over.
use webadbcontrol.Base.{
  ℕ, suc, ◌≤◌, ◌<◌, ◌≡◌, refl, ap, ◌∙◌, String, ◌==◌, true, false, Option, none, some, [], filter,
  arith, eq_iff, Bool-cases, Option-cases, inl, inr,
}
use webadbcontrol.Base.Text.{Text}
use webadbcontrol.Base.Map.{Map, lookup, insert, lookup-insert, count, count-insert}
use webadbcontrol.Error.{ok, Result-cases}
use webadbcontrol.Companion.MediaStore.{
  CompanionMediaStore, MediaDisk, chunk_name, is_chunk, dir_of, put, left_behind, written,
  next_chunk_index, chunk_of, is_stream_chunk, safe_path_segment, store_envelope,
}
use webadbcontrol.Companion.Session.{SerdeJson}
use webadbcontrol.Companion.Session.Handlers.{Envelope}
use webadbcontrol.Companion.MediaStore.Names.{chunk_name-eq, is_chunk-chunk_name, limit}

-- The chunks of a directory are fewer than `n`, or as many, and numbered from zero: no later name is taken.
pub record IsNumbered (n : ℕ) (dir : Map Text) : Type 0 where
  pub below : count is_chunk dir ≤ n
  pub fresh : (j : ℕ) → count is_chunk dir ≤ j → j < limit 20 → lookup (chunk_name j) dir ≡ none

pub empty-IsNumbered : IsNumbered 0 []
unfolding filter lookup
empty-IsNumbered = record { below = omega arith; fresh = λ j l h. refl }

later-IsNumbered : (n : ℕ) (dir : Map Text) → IsNumbered n dir → IsNumbered (suc n) dir
later-IsNumbered n dir d = record { below = omega (arith, d.below); fresh = d.fresh }

module _ (n : ℕ) (dir : Map Text) (bytes : Text) (numbered : IsNumbered n dir)
    (room : n < limit 20) where
  abbrev next_index : ℕ
  next_index = count is_chunk dir

  is_new : lookup (chunk_name next_index) dir ≡ none
  is_new = numbered.fresh next_index (omega arith) (omega (arith, numbered.below, room))

  other_name :
      (j : ℕ) → next_index < j → j < limit 20 → (chunk_name next_index == chunk_name j) ≡ false
  other_name j l h = elim (Bool-cases (chunk_name next_index == chunk_name j)) [
    | inr different ↦ different
    | inl same ↦
        let e =
          chunk_name-eq next_index j (omega (arith, numbered.below, room)) h
            ((eq_iff (chunk_name next_index) (chunk_name j)).0 same) in
        absurd (omega (arith, e, l))
  ]

  insert-IsNumbered : IsNumbered (suc n) (insert (chunk_name next_index) bytes dir)
  insert-IsNumbered =
      let more =
        count-insert is_chunk (chunk_name next_index) bytes dir is_new
          (is_chunk-chunk_name next_index) in
      record {
        below = omega (arith, more, numbered.below);
        fresh = λ j l h.
            let later : next_index < j = omega (arith, more, l) in
            lookup-insert (chunk_name next_index) (chunk_name j) bytes dir
            ∙ ground (arith, other_name j later h, numbered.fresh j (omega (arith, later)) h);
      }

  insert-keeps :
      (name : String) (old : Text)
      → lookup name dir ≡ some old
      → lookup name (insert (chunk_name next_index) bytes dir) ≡ some old
  insert-keeps name old h = elim (Bool-cases (chunk_name next_index == name)) [
    | inr other ↦ ground (arith, lookup-insert (chunk_name next_index) name bytes dir)
    | inl same ↦
        let e = (eq_iff (chunk_name next_index) name).0 same in
        absurd (ground (arith, ap (λ k. lookup k dir) e ∙ h, is_new))
  ]

abbrev pub dir_at : String → Map (Map Text) → Map Text
dir_at d files = dir_of (lookup d files)

-- Every directory but the root is numbered.
abbrev pub AllNumbered : ℕ → Map (Map Text) → Type 0
AllNumbered n files = (d : String) → (d == "") ≡ false → IsNumbered n (dir_at d files)

-- What is in a directory stays there.
abbrev pub Keeps : Map Text → Map Text → Type 0
Keeps dir after =
    (name : String) (old : Text) → lookup name dir ≡ some old → lookup name after ≡ some old

pub record Grows (n : ℕ) (files after : Map (Map Text)) : Type 0 where
  pub numbered : AllNumbered (suc n) after
  pub keeps : (d : String) → (d == "") ≡ false → Keeps (dir_at d files) (dir_at d after)

same-Grows : (n : ℕ) (files : Map (Map Text)) → AllNumbered n files → Grows n files files
same-Grows n files numbered = record {
  numbered = λ d h. later-IsNumbered n (dir_at d files) (numbered d h);
  keeps = λ d h name old there. there;
}

dir_at-same :
    (segment d : String) (dir : Map Text) (files : Map (Map Text))
    → (segment == d) ≡ true
    → dir_at d (insert segment dir files) ≡ dir
dir_at-same segment d dir files same = rw (lookup-insert segment d dir files, same) refl

dir_at-other :
    (segment d : String) (dir : Map Text) (files : Map (Map Text))
    → (segment == d) ≡ false
    → dir_at d (insert segment dir files) ≡ dir_at d files
dir_at-other segment d dir files other = rw (lookup-insert segment d dir files, other) refl

module _ (n : ℕ) (files : Map (Map Text)) (numbered : AllNumbered n files) (room : n < limit 20)
    (segment : String) where
  abbrev Good : Map Text → Type 0
  Good dir = (segment == "") ≡ false → IsNumbered (suc n) dir × Keeps (dir_at segment files) dir

  insert-Grows : (dir : Map Text) → Good dir → Grows n files (insert segment dir files)
  insert-Grows dir good = record {
    numbered = λ d h. elim (Bool-cases (segment == d)) [
      | inl same ↦
          rw (dir_at-same segment d dir files same) (good (rw ((eq_iff segment d).0 same) h)).0
      | inr other ↦
          rw (dir_at-other segment d dir files other)
            (later-IsNumbered n (dir_at d files) (numbered d h))
    ];
    keeps = λ d h. elim (Bool-cases (segment == d)) [
      | inl same ↦
          let e = (eq_iff segment d).0 same in
          rw (dir_at-same segment d dir files same, ← e) (good (rw e h)).1
      | inr other ↦ rw (dir_at-other segment d dir files other) (λ name old there. there)
    ];
  }

  abbrev number : ℕ
  number = count is_chunk (dir_at segment files)

  put-Grows :
      (bytes : Text) (index : ℕ)
      → ((segment == "") ≡ false → index ≡ number)
      → Grows n files (put segment (chunk_name index) bytes files)
  put-Grows bytes index counted =
      insert-Grows (insert (chunk_name index) bytes (dir_at segment files)) (λ h. rw (counted h) (
        insert-IsNumbered n (dir_at segment files) bytes (numbered segment h) room,
        insert-keeps n (dir_at segment files) bytes (numbered segment h) room,
      ))

  left_behind-Grows :
      (left_over : Option Text) (index : ℕ)
      → ((segment == "") ≡ false → index ≡ number)
      → Grows n files (left_behind left_over segment (chunk_name index) files)
  left_behind-Grows none index counted = insert-Grows (dir_at segment files) (λ h.
      (later-IsNumbered n (dir_at segment files) (numbered segment h), λ name old there. there))
  left_behind-Grows (some part) index counted = put-Grows part index counted

written-Grows :
    (n : ℕ) (store : CompanionMediaStore) (session_id : String) (bytes : Text) (index : ℕ)
    (create write : Option String) (left_over : Option Text)
    → AllNumbered n store.files
    → n < limit 20
    → ((safe_path_segment session_id == "") ≡ false
        → index ≡ count is_chunk (dir_at (safe_path_segment session_id) store.files))
    → Grows n store.files (written create write left_over session_id bytes index store).1.files
written-Grows n store session_id bytes index (some cause) write left_over numbered room counted =
    same-Grows n store.files numbered
written-Grows n store session_id bytes index none (some cause) left_over numbered room counted =
    left_behind-Grows n store.files numbered room (safe_path_segment session_id) left_over index
      counted
written-Grows n store session_id bytes index none none left_over numbered room counted =
    put-Grows n store.files numbered room (safe_path_segment session_id) bytes index counted

next_chunk_index-count :
    (disk : MediaDisk) (segment : String) (files : Map (Map Text)) (index : ℕ)
    → disk.sees_dir ≡ true
    → next_chunk_index disk segment files ≡ ok index
    → (segment == "") ≡ false
    → index ≡ count is_chunk (dir_at segment files)
unfolding next_chunk_index filter
next_chunk_index-count disk segment files index sees h named =
    elim (Option-cases (lookup segment files)) [
      | inl missing ↦ ground (arith, sees, h, named, missing)
      | inr (dir, there) ↦ ground (arith, sees, h, named, there)
    ]

module _ (J : SerdeJson) where
  pub store_envelope-Grows :
      (n : ℕ) (envelope : Envelope J) (store : CompanionMediaStore)
      → (store.disk store.calls).sees_dir ≡ true
      → AllNumbered n store.files
      → n < limit 20
      → Grows n store.files (store_envelope J envelope store).1.files
  unfolding store_envelope
  store_envelope-Grows n envelope store sees numbered room =
      elim (Bool-cases (is_stream_chunk J envelope.kind)) [
        | inr other ↦ rw other (same-Grows n store.files numbered)
        | inl chunk ↦ elim (Result-cases (chunk_of J envelope.payload)) [
          | inr (e, invalid) ↦ rw (chunk, invalid) (same-Grows n store.files numbered)
          | inl ((session_id, bytes), found) ↦
              let disk = store.disk store.calls in
              let segment = safe_path_segment session_id in
              elim (Result-cases (next_chunk_index disk segment store.files)) [
                | inr (e, unread) ↦ rw (chunk, found, unread) (same-Grows n store.files numbered)
                | inl (index, counted) ↦
                    rw (chunk, found, counted)
                      (written-Grows n store session_id bytes index disk.create_dir disk.write
                        disk.left_over numbered room
                        (next_chunk_index-count disk segment store.files index sees counted))
              ]
        ]
      ]
