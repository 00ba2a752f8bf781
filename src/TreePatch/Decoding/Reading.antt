-- ===== src/TreePatch/Decoding/Reading.antt =====
-- rust/src/tree_patch_decode.rs: its readers on what rust/src/tree_patch_encode.rs writes.
use difz.Prelude.{
  ℕ, ◌^◌, ◌<◌, ◌≤◌, ◌≡◌, refl, Bool, true, false, not, [], ◌∷◌, ◌++◌, append-nil, arith, concat_map,
  length, is_empty, ◌==◌, le→ltb_false, Result, ok, ok_or, map_err, reject, All,
}
use difz.Prelude.Bytes.{Bytes, to_le}
use difz.Prelude.Cursor.{Reader, pure, lift, ◌>>◌, repeat}
use difz.Prelude.Cursor.Reads.{
  Reads, Reads-pure, Reads-lift, Reads-bind, Reads-take_bytes, Reads-word, Reads-byte, Reads-repeat,
}
use difz.Prelude.Utf8.{chars}
use difz.Prelude.Utf8.Encoding.{IsScalar, as_bytes, chars-as_bytes}
use difz.Directory.Paths.{invalid_utf8}
use difz.Metadata.Omit.{Omit}
use difz.Metadata.Records.{no_metadata}
use difz.Metadata.Validation.{CanonicalMetadata}
use difz.Metadata.Decoding
use difz.Metadata.Encoding.Layout.{written}
use difz.PathFilter.Compile.{Action, include, exclude, Rule}
use difz.TreePatch.{
  Error, unexpected_end_of_input, invalid_rule, invalid_path, omitted_metadata_present,
  out_of_memory, metadata_error, snapshot_error, Limits,
}
use difz.TreePatch.Header.{Header}
use difz.TreePatch.Decoding.{
  Operation, directory, symlink, file_copy, file_raw, file_delta, file_hardlink, operation_tag,
  operation_try_from, DecodedEntry, take, byte, word16, word32, word64, within, length32,
  action_try_from, rule, has_omitted, check_payload, check_link, check_root, check_rules, Body,
  record_within, entry, root_if, body,
}
use difz.TreePatch.Encoding.{action_tag}
use difz.TreePatch.Encoding.Layout.{record_bytes, rule_bytes, entry_bytes, root_bytes, RuleFits}

-- A check that passes takes nothing.
Reads-check :
    {B : Type 0} (r : Result Error (Unit {0})) (k : Reader Error B) (ys : Bytes) (b : B)
    → r ≡ ok tt
    → Reads k ys b
    → Reads (lift r >> k) ys b
Reads-check r k ys b e rk = Reads-bind (lift r) (λ _. k) [] ys tt b (Reads-lift r tt e) rk

action_try_from-action_tag : (a : Action) → action_try_from (action_tag a) ≡ ok a
unfolding action_try_from action_tag
action_try_from-action_tag include = refl
action_try_from-action_tag exclude = refl

operation_try_from-operation_tag : (o : Operation) → operation_try_from (operation_tag o) ≡ ok o
unfolding operation_try_from operation_tag
operation_try_from-operation_tag directory = refl
operation_try_from-operation_tag symlink = refl
operation_try_from-operation_tag file_copy = refl
operation_try_from-operation_tag file_raw = refl
operation_try_from-operation_tag file_delta = refl
operation_try_from-operation_tag file_hardlink = refl

within-ok : (limit n : ℕ) → n ≤ limit → within limit n ≡ ok n
unfolding within
within-ok limit n h = rw (le→ltb_false limit n h) refl

Reads-length32 : (limit n : ℕ) → n < 2 ^ 32 → n ≤ limit → Reads (length32 limit) (to_le 4 n) n
unfolding length32 word32
Reads-length32 limit n small fits = rw append-nil at (
    Reads-bind word32 (λ n. lift (within limit n)) (to_le 4 n) [] n n
      (Reads-word unexpected_end_of_input 4 n small)
      (Reads-lift (within limit n) n (within-ok limit n fits)))

length-ne :
    (bytes : Bytes) → is_empty bytes ≡ false → reject (length bytes == 0) invalid_rule ≡ ok tt
length-ne [] h = cc h
length-ne (b ∷ bs) h = ground arith

decoded :
    (r : Rule)
    → All IsScalar r.pattern
    → ok_or (chars (as_bytes r.pattern)) (snapshot_error invalid_utf8) ≡ ok r.pattern
decoded r scalars = rw (chars-as_bytes r.pattern scalars) refl

pub Reads-rule :
    (longest : ℕ) (r : Rule)
    → longest < 2 ^ 32
    → RuleFits longest r
    → All IsScalar r.pattern
    → Reads (rule longest) (rule_bytes r) r
unfolding rule byte word16 take to_le
Reads-rule longest r small fits scalars = simp append-nil at read
  where
    read :
        Reads
          (rule longest)
          ((action_tag r.action ∷ [])
            ++ ([]
                ++ ((0 ∷ [])
                    ++ (to_le 2 0
                        ++ (to_le 4 (length (as_bytes r.pattern))
                            ++ (as_bytes r.pattern ++ ([] ++ [])))))))
          r
    read = Reads-bind byte _ _ _ _ _ (Reads-byte unexpected_end_of_input (action_tag r.action)) (
        Reads-bind (lift (action_try_from (action_tag r.action))) _ [] _ r.action _
          (Reads-lift _ r.action (action_try_from-action_tag r.action))
          (Reads-bind byte _ _ _ _ _ (Reads-byte unexpected_end_of_input 0) (
            Reads-check (ok tt) _ _ _ refl (
              Reads-bind word16 _ (to_le 2 0) _ 0 _
                (Reads-word unexpected_end_of_input 2 0 (omega arith))
                (Reads-check (ok tt) _ _ _ refl (
                  Reads-bind (length32 longest) _ (to_le 4 (length (as_bytes r.pattern))) _
                    (length (as_bytes r.pattern)) _
                    (Reads-length32 longest (length (as_bytes r.pattern))
                      (omega (arith, small, fits.pattern)) fits.pattern)
                    (Reads-check (reject (length (as_bytes r.pattern) == 0) invalid_rule) _ _ _
                      (length-ne (as_bytes r.pattern) fits.some_pattern)
                      (Reads-bind (take (length (as_bytes r.pattern))) _ (as_bytes r.pattern) _
                        (as_bytes r.pattern) _
                        (Reads-take_bytes unexpected_end_of_input (length (as_bytes r.pattern))
                          (as_bytes r.pattern) refl)
                        (Reads-bind
                          (lift (ok_or (chars (as_bytes r.pattern)) (snapshot_error invalid_utf8)))
                          _ [] [] r.pattern _ (Reads-lift _ r.pattern (decoded r scalars))
                          (Reads-pure r))))))))))

-- What the decoder checks of an entry.
pub record EntryFits (reserve : ℕ → Bool) (limits : Limits) (omit : Omit) (d : DecodedEntry)
    : Type 0 where
  pub mode : d.mode < 2 ^ 16
  pub some_path : is_empty d.path ≡ false
  pub path : length d.path ≤ limits.max_path_bytes
  pub payload : length d.payload ≤ limits.max_payload_bytes
  pub record_size : length (written d.metadata.metadata) ≤ limits.max_payload_bytes
  pub record_word : length (written d.metadata.metadata) < 2 ^ 32
  pub decoded : Decoding.decode reserve (written d.metadata.metadata) ≡ ok d.metadata
  pub kept : has_omitted d.metadata.metadata omit ≡ false
  pub payload_of :
      check_payload limits.max_symlink_bytes d.operation d.payload d.metadata.metadata ≡ ok tt
  pub link : check_link d.operation d.metadata.metadata ≡ ok tt

module _ (reserve : ℕ → Bool) where
  Reads-record_within :
      (limit : ℕ) (m : CanonicalMetadata)
      → length (written m.metadata) ≤ limit
      → length (written m.metadata) < 2 ^ 32
      → Decoding.decode reserve (written m.metadata) ≡ ok m
      → Reads (record_within reserve limit) (record_bytes m.metadata) m
  unfolding record_within take
  Reads-record_within limit m fits small read_back =
      let bytes = written m.metadata in
      let read : Reads (record_within reserve limit) (to_le 4 (length bytes) ++ (bytes ++ [])) m =
        Reads-bind (length32 limit) _ (to_le 4 (length bytes)) _ (length bytes) m
          (Reads-length32 limit (length bytes) small fits)
          (Reads-bind (take (length bytes))
            (λ b. lift (map_err metadata_error (Decoding.decode reserve b))) bytes [] bytes m
            (Reads-take_bytes unexpected_end_of_input (length bytes) bytes refl)
            (Reads-lift (map_err metadata_error (Decoding.decode reserve bytes)) m
              (rw read_back refl))) in
      rw append-nil at read

  path-ne :
      (bytes : Bytes) → is_empty bytes ≡ false → reject (length bytes == 0) invalid_path ≡ ok tt
  path-ne [] h = cc h
  path-ne (b ∷ bs) h = ground arith

  pub Reads-entry :
      (limits : Limits) (omit : Omit) (d : DecodedEntry)
      → limits.max_path_bytes < 2 ^ 32
      → limits.max_payload_bytes < 2 ^ 64
      → EntryFits reserve limits omit d
      → Reads (entry reserve limits omit) (entry_bytes d) d
  unfolding entry byte word16 word64 take
  Reads-entry limits omit d paths payloads fits = simp append-nil at read
    where
      read :
          Reads
            (entry reserve limits omit)
            ((operation_tag d.operation ∷ [])
              ++ ([]
                  ++ ((0 ∷ [])
                      ++ (to_le 2 d.mode
                          ++ (to_le 4 (length d.path)
                              ++ (to_le 8 (length d.payload)
                                  ++ ([]
                                      ++ (d.path
                                          ++ (d.payload
                                              ++ (record_bytes d.metadata.metadata ++ []))))))))))
            d
      read =
          Reads-bind byte _ _ _ _ _ (Reads-byte unexpected_end_of_input (operation_tag d.operation))
            (Reads-bind (lift (operation_try_from (operation_tag d.operation))) _ [] _ d.operation _
              (Reads-lift _ d.operation (operation_try_from-operation_tag d.operation))
              (Reads-bind byte _ _ _ _ _ (Reads-byte unexpected_end_of_input 0) (
                Reads-check (ok tt) _ _ _ refl (
                  Reads-bind word16 _ (to_le 2 d.mode) _ d.mode _
                    (Reads-word unexpected_end_of_input 2 d.mode (omega (arith, fits.mode)))
                    (Reads-bind (length32 limits.max_path_bytes) _ (to_le 4 (length d.path)) _
                      (length d.path) _
                      (Reads-length32 limits.max_path_bytes (length d.path)
                        (omega (arith, fits.path, paths)) fits.path)
                      (Reads-check (reject (length d.path == 0) invalid_path) _ _ _
                        (path-ne d.path fits.some_path)
                        (Reads-bind word64 _ (to_le 8 (length d.payload)) _ (length d.payload) _
                          (Reads-word unexpected_end_of_input 8 (length d.payload)
                            (omega (arith, fits.payload, payloads)))
                          (Reads-bind (lift (within limits.max_payload_bytes (length d.payload))) _
                            [] _ (length d.payload) _
                            (Reads-lift _ (length d.payload)
                              (within-ok limits.max_payload_bytes (length d.payload) fits.payload))
                            (Reads-bind (take (length d.path)) _ d.path _ d.path _
                              (Reads-take_bytes unexpected_end_of_input (length d.path) d.path refl)
                              (Reads-bind (take (length d.payload)) _ d.payload _ d.payload _
                                (Reads-take_bytes unexpected_end_of_input (length d.payload)
                                  d.payload refl)
                                (Reads-bind (record_within reserve limits.max_payload_bytes) _
                                  (record_bytes d.metadata.metadata) [] d.metadata _
                                  (Reads-record_within limits.max_payload_bytes d.metadata
                                    fits.record_size fits.record_word fits.decoded)
                                  (Reads-check
                                    (reject (has_omitted d.metadata.metadata omit)
                                      omitted_metadata_present)
                                    _ _ _ (rw fits.kept refl)
                                    (Reads-check
                                      (check_payload limits.max_symlink_bytes d.operation d.payload
                                        d.metadata.metadata)
                                      _ _ _ fits.payload_of
                                      (Reads-check (check_link d.operation d.metadata.metadata) _ _
                                        _ fits.link (Reads-pure d)))))))))))))))

  pub Reads-root_if :
      (present : Bool) (limits : Limits) (omit : Omit) (root : CanonicalMetadata)
      → (present ≡ false → root ≡ record { metadata = no_metadata })
      → (present ≡ true
          → (length (written root.metadata) ≤ limits.max_payload_bytes)
            × (length (written root.metadata) < 2 ^ 32)
            × (Decoding.decode reserve (written root.metadata) ≡ ok root)
            × (check_root root.metadata omit ≡ ok tt))
      → Reads (root_if reserve present limits omit) (root_bytes present root.metadata) root
  unfolding root_if
  Reads-root_if false limits omit root absent fits = rw (absent refl) (Reads-pure _)
  Reads-root_if true limits omit root absent fits =
      let (largest, word, read_back, checked) = fits refl in
      let read : Reads (root_if reserve true limits omit) (record_bytes root.metadata ++ []) root =
        Reads-bind (record_within reserve limits.max_payload_bytes) _ (record_bytes root.metadata)
          [] root root (Reads-record_within limits.max_payload_bytes root largest word read_back)
          (Reads-check (check_root root.metadata omit) (pure root) [] root checked
            (Reads-pure root)) in
      rw append-nil at read

  pub Reads-body :
      (limits : Limits) (h : Header) (b : Body)
      → ((n : ℕ) → reserve n ≡ true)
      → h.rule_count ≡ length b.rules
      → h.entry_count ≡ length b.entries
      → check_rules b.rules ≡ ok tt
      → All (λ r. Reads (rule limits.max_pattern_bytes) (rule_bytes r) r) b.rules
      → All (λ d. Reads (entry reserve limits h.omit) (entry_bytes d) d) b.entries
      → Reads
          (root_if reserve h.root_metadata limits h.omit)
          (root_bytes h.root_metadata b.root.metadata)
          b.root
      → Reads
          (body reserve limits h)
          (concat_map rule_bytes b.rules
            ++ (concat_map entry_bytes b.entries ++ root_bytes h.root_metadata b.root.metadata))
          b
  unfolding body
  Reads-body limits h b ample rule_count entry_count compiled rules entries root =
      rw (rule_count, entry_count)
        (Reads-check (reject (not (reserve (length b.rules))) out_of_memory) _ _ b
          (rw (ample (length b.rules)) refl)
          (Reads-bind (repeat (length b.rules) (rule limits.max_pattern_bytes)) _
            (concat_map rule_bytes b.rules) _ b.rules b (Reads-repeat _ rule_bytes b.rules rules)
            (Reads-check (check_rules b.rules) _ _ b compiled (
              Reads-check (reject (not (reserve (length b.entries))) out_of_memory) _ _ b
                (rw (ample (length b.entries)) refl)
                (Reads-bind (repeat (length b.entries) (entry reserve limits h.omit)) _
                  (concat_map entry_bytes b.entries) _ b.entries b
                  (Reads-repeat _ entry_bytes b.entries entries)
                  (rw append-nil at (
                    Reads-bind (root_if reserve h.root_metadata limits h.omit)
                      (λ r. pure (record { rules = b.rules; entries = b.entries; root = r }))
                      (root_bytes h.root_metadata b.root.metadata) [] b.root b root
                      (Reads-pure b))))))))
