-- ===== src/TreePatch/RoundTrip/Parsed.antt =====
-- rust/src/tree_patch_decode.rs: the decoder on a patch that `create` returned.
use difz.Prelude.{
  ℕ, ◌+◌, ◌<◌, ◌≤◌, ◌≡◌, refl, ap, Bool, true, false, not, ◌&&◌, List, [], ◌∷◌, ◌++◌, map, Option,
  none, some, arith, concat_map, length, length-append, length-concat_map, length-map, is_empty,
  is_some, ok, >>-eq-ok, All, Pairs, Pairs-length, ◌==◌, ==_refl, ==_iff, not-false,
}
use difz.Prelude.Bytes.{Bytes}
use difz.Prelude.Cursor.Reads.{Reads, Reads-all}
use difz.Prelude.Utf8.Encoding.{IsScalar}
use difz.Metadata.Records.{Metadata, no_metadata, metadata_is_empty}
use difz.Metadata.Decoding.RoundTrip.{decode-written}
use difz.Directory.Paths.{max_entries}
use difz.Directory.Structure
use difz.Directory.Structure.Hierarchy.{validate-ok_iff}
use difz.Directory.Structure.Likeness.{IsAlike, validate_alike}
use difz.Directory.Snapshot.{Entry, structure}
use difz.Directory.Canonical
use difz.Directory.Canonical.{CanonicalSnapshot, check_relations}
use difz.Directory.Canonical.Relations.{new-eq-ok}
use difz.PathFilter.Compile.{Rule, Filter, compile_filter}
use difz.File.Codec.{Native}
use difz.File.Patch.RoundTrip.{IsHash}
use difz.TreePatch.{default_limits, default_envelope}
use difz.TreePatch.Header
use difz.TreePatch.Header.{Header, header_len}
use difz.TreePatch.Header.RoundTrip.{Holds, decode_prefix-encode_tree, length-encode}
use difz.TreePatch.Decoding
use difz.TreePatch.Decoding.{
  DecodedEntry, ParsedPatch, Body, has_omitted, check_root, check_rules, body, finish, decode,
}
use difz.TreePatch.Decoding.Reading.{EntryFits, Reads-rule, Reads-entry, Reads-root_if, Reads-body}
use difz.TreePatch.Encoding.{CreateOptions, header_for}
use difz.TreePatch.Encoding.Layout.{rule_bytes, entry_bytes, root_bytes, IsWrittenAs, RuleFits}
use difz.TreePatch.Encoding.Outcome.{IsCreated, body_bytes}
use difz.TreePatch.Encoding.Choice.{choose-IsChosen}
use difz.TreePatch.Encoding.Projection.{IsSound, IsKept}
use difz.TreePatch.RoundTrip.Alike.{rule_size, entry_size, content_passes}
use difz.TreePatch.RoundTrip.Entries.{IsGood, IsGood-entries, links_as_files, entry_fits}

nil_of : {A : Type 0} (xs : List A) → is_empty xs ≡ true → xs ≡ []
nil_of [] h = refl
nil_of (x ∷ xs) h = cc h

none_of : {A : Type 0} (o : Option A) → not (is_some o) ≡ true → o ≡ none
none_of none h = refl
none_of (some a) h = cc h

not-true : (b : Bool) → not b ≡ true → b ≡ false
not-true false h = refl
not-true true h = cc h

both : (a b : Bool) → (a && b) ≡ true → (a ≡ true) × (b ≡ true)
both true b h = (refl, h)
both false b h = cc h

check_rules_passes :
    (rules : List Rule) {filter : Filter}
    → compile_filter rules ≡ ok filter
    → check_rules rules ≡ ok tt
unfolding check_rules
check_rules_passes [] h = refl
check_rules_passes (r ∷ rules) h = rw h refl

-- An empty record has nothing in it.
metadata_is_empty-no_metadata : (m : Metadata) → metadata_is_empty m ≡ true → m ≡ no_metadata
unfolding metadata_is_empty
metadata_is_empty-no_metadata m h =
    let (h₁, j) = both _ (not (is_some m.hardlink_to)) h in
    let (h₂, i) = both _ (is_empty m.holes) h₁ in
    let (h₃, g) = both _ (not (is_some m.finder_info)) h₂ in
    let (h₄, f) = both _ (m.finder_flags == 0) h₃ in
    let (h₅, e) = both _ (not (is_some m.times.btime)) h₄ in
    let (h₆, d) = both _ (not (is_some m.times.atime)) h₅ in
    let (h₇, c) = both _ (not (is_some m.times.mtime)) h₆ in
    let (h₈, b) = both _ (not (is_some m.native_acl)) h₇ in
    let (a, k) = both (is_empty m.xattrs) (is_empty m.aces) h₈ in
    cc (
      nil_of m.xattrs a,
      nil_of m.aces k,
      none_of m.native_acl b,
      none_of m.times.mtime c,
      none_of m.times.atime d,
      none_of m.times.btime e,
      (==_iff m.finder_flags 0).0 f,
      none_of m.finder_info g,
      nil_of m.holes i,
      none_of m.hardlink_to j,
    )

module _ (native : Native) (reserve : ℕ → Bool) (blake3 : Bytes → Bytes)
    (ample : (n : ℕ) → reserve n ≡ true) (hash : IsHash blake3) (s t : CanonicalSnapshot)
    (options : CreateOptions) (sound : IsSound t)
    (kept : All (IsKept options.omit) t.snapshot.entries)
    (root_kept : has_omitted t.snapshot.root.metadata options.omit ≡ false)
    (mask : options.omit.bits < 64) (scalars : All (λ r. All IsScalar r.pattern) options.rules)
    {patch : Bytes} (made : IsCreated native reserve blake3 s t options patch) where
  unfoldable pub header : Header
  header = header_for native reserve blake3 s t options

  ds : List DecodedEntry
  ds = made.entries

  valid : Structure.validate (map structure t.snapshot.entries) ≡ ok tt
  unfolding Canonical.new
  valid = (>>-eq-ok (Structure.validate (map structure t.snapshot.entries)) _ sound.canonical).0

  related : check_relations [] t.snapshot.entries ≡ ok tt
  unfolding Canonical.new
  related =
      let (_, h) =
        >>-eq-ok (Structure.validate (map structure t.snapshot.entries)) _ sound.canonical in
      (>>-eq-ok (check_relations [] t.snapshot.entries) _ h).0

  few_entries : length t.snapshot.entries ≤ max_entries
  few_entries =
      rw (length-map structure t.snapshot.entries) at
        ((validate-ok_iff (map structure t.snapshot.entries)).0 valid).0

  pub good : All (IsGood options.omit) t.snapshot.entries
  good =
      IsGood-entries options.omit [] t.snapshot.entries
        ((validate-ok_iff (map structure t.snapshot.entries)).0 valid).1
        (links_as_files [] t.snapshot.entries related) sound.entries kept

  -- The decoded entries, one by one.
  entries_fit :
      (es : List Entry) (xs : List DecodedEntry)
      → All (IsGood options.omit) es
      → Pairs (IsWrittenAs native reserve blake3 s.snapshot.entries) es xs
      → All (EntryFits reserve default_limits options.omit) xs
  entries_fit [] [] g p = tt
  entries_fit [] (x ∷ xs) g p = absurd p
  entries_fit (e ∷ es) [] g p = absurd p
  entries_fit (e ∷ es) (x ∷ xs) g p = (
    entry_fits native reserve blake3 ample s.snapshot.entries options.omit e x g.0 p.0,
    entries_fit es xs g.1 p.1,
  )

  entries-IsAlike :
      (es : List Entry) (xs : List DecodedEntry)
      → Pairs (IsWrittenAs native reserve blake3 s.snapshot.entries) es xs
      → Pairs IsAlike (map structure es) (map Decoding.structure xs)
  entries-IsAlike [] [] p = tt
  entries-IsAlike [] (x ∷ xs) p = absurd p
  entries-IsAlike (e ∷ es) [] p = absurd p
  entries-IsAlike (e ∷ es) (x ∷ xs) p = (
    content_passes native reserve blake3 s.snapshot.entries e x p.0 (
        choose-IsChosen native reserve blake3 _ s.snapshot.entries e x.operation x.payload
          p.0.chosen),
    entries-IsAlike es xs p.1,
  )

  fits : All (EntryFits reserve default_limits options.omit) ds
  unfolding ds
  fits = entries_fit t.snapshot.entries made.entries good made.written_as

  structured : Structure.validate (map Decoding.structure made.entries) ≡ ok tt
  structured =
      validate_alike (map structure t.snapshot.entries) (map Decoding.structure made.entries)
        (entries-IsAlike t.snapshot.entries made.entries made.written_as) valid

  read_entries :
      (xs : List DecodedEntry)
      → All (EntryFits reserve default_limits options.omit) xs
      → All (λ d. Reads (Decoding.entry reserve default_limits options.omit) (entry_bytes d) d) xs
  read_entries [] h = tt
  read_entries (x ∷ xs) h = (
    Reads-entry reserve default_limits options.omit x (omega arith) (omega arith) h.0,
    read_entries xs h.1,
  )

  read_rules :
      (rules : List Rule)
      → All (RuleFits default_limits.max_pattern_bytes) rules
      → All (λ r. All IsScalar r.pattern) rules
      → All (λ r. Reads (Decoding.rule default_limits.max_pattern_bytes) (rule_bytes r) r) rules
  read_rules [] h k = tt
  read_rules (r ∷ rules) h k = (
    Reads-rule default_limits.max_pattern_bytes r (omega arith) h.0 k.0,
    read_rules rules h.1 k.1,
  )

  -- The root record is written unless it is empty.
  root_passes :
      header.root_metadata ≡ true → check_root t.snapshot.root.metadata options.omit ≡ ok tt
  unfolding header header_for check_root
  root_passes present =
      let (_, _, _, no_holes, no_link) = new-eq-ok t.snapshot sound.canonical in
      let full : metadata_is_empty t.snapshot.root.metadata ≡ false =
        not-true (metadata_is_empty t.snapshot.root.metadata) present in
      rw (root_kept, full, no_holes, no_link) refl

  absent_root : header.root_metadata ≡ false → t.snapshot.root ≡ record { metadata = no_metadata }
  unfolding header header_for
  absent_root absent =
      let empty : metadata_is_empty t.snapshot.root.metadata ≡ true =
        not-false (metadata_is_empty t.snapshot.root.metadata) absent in
      ap (λ (m : Metadata). record { metadata = m })
        (metadata_is_empty-no_metadata t.snapshot.root.metadata empty)

  read_root :
      Reads
        (Decoding.root_if reserve header.root_metadata default_limits options.omit)
        (root_bytes header.root_metadata t.snapshot.root.metadata)
        t.snapshot.root
  unfolding header
  read_root =
      Reads-root_if reserve header.root_metadata default_limits options.omit t.snapshot.root
        absent_root
        λ present.
          let fits = made.root present in
          (
            fits.largest,
            fits.word,
            decode-written reserve t.snapshot.root.metadata ample sound.root.typed sound.root.valid
                (omega (arith, fits.word)),
            root_passes present,
          )

  rest : Bytes
  rest = body_bytes native reserve blake3 s t options made.entries

  rules_long :
      (rules : List Rule)
      → All (RuleFits default_limits.max_pattern_bytes) rules
      → All (λ r. 9 ≤ length (rule_bytes r)) rules
  rules_long [] h = tt
  rules_long (r ∷ rules) h = (rule_size _ r h.0, rules_long rules h.1)

  entries_long :
      (xs : List DecodedEntry)
      → All (EntryFits reserve default_limits options.omit) xs
      → All (λ d. 41 ≤ length (entry_bytes d)) xs
  entries_long [] h = tt
  entries_long (x ∷ xs) h = (entry_size x h.0.some_path, entries_long xs h.1)

  holds : Holds header rest default_envelope
  unfolding header header_for rest ds
  holds =
      let root = root_bytes header.root_metadata t.snapshot.root.metadata in
      let tail = concat_map entry_bytes made.entries ++ root in
      let size = length-append (concat_map rule_bytes options.rules) tail in
      let size' = length-append (concat_map entry_bytes made.entries) root in
      let few = made.rule_count in
      let some_entries = few_entries in
      let same = Pairs-length _ t.snapshot.entries made.entries made.written_as in
      let rules =
        length-concat_map rule_bytes 9 options.rules (rules_long options.rules made.rules) in
      let entries =
        length-concat_map entry_bytes 41 made.entries (entries_long made.entries fits) in
      record {
        reader = omega arith;
        rules = omega (arith, few);
        entries = omega (arith, some_entries);
        rule_room = omega (arith, size, rules, few);
        entry_room = omega (arith, size, size', rules, entries, few, same, some_entries);
      }

  header-IsTyped : Header.IsTyped header
  unfolding header header_for Canonical.hash
  header-IsTyped = record {
    needed_reader = omega arith;
    omit = mask;
    rule_count = omega arith;
    entry_count = omega arith;
    source_hash = (hash.size _, hash.bytes _);
    target_hash = (hash.size _, hash.bytes _);
  }

  unfoldable pub parsed : ParsedPatch
  parsed = record {
    header = header;
    rules = options.rules;
    entries = made.entries;
    root = t.snapshot.root;
  }

  b : Body
  b = record { rules = options.rules; entries = made.entries; root = t.snapshot.root }

  read_body : Reads (body reserve default_limits header) rest b
  unfolding header header_for rest b ds
  read_body =
      let few = made.rule_count in
      let some_entries = few_entries in
      let same = Pairs-length _ t.snapshot.entries made.entries made.written_as in
      Reads-body reserve default_limits header b ample (omega arith) (omega arith)
        (check_rules_passes options.rules made.compiled)
        (read_rules options.rules made.rules scalars) (read_entries made.entries fits) read_root

  room : header_len + length rest ≤ default_envelope.max_patch_bytes
  unfolding rest
  room = made.body

  patch_is : patch ≡ Header.encode blake3 header rest ++ rest
  unfolding header rest
  patch_is = made.patch_is

  -- The decoder returns what the writer wrote.
  pub decode-created : decode reserve blake3 patch default_limits ≡ ok parsed
  unfolding decode parsed b finish
  decode-created =
      let size = length-encode blake3 header rest hash header-IsTyped in
      let total = length-append (Header.encode blake3 header rest) rest in
      let within = room in
      rw
        (
          patch_is,
          decode,
          decode_prefix-encode_tree blake3 hash header rest default_envelope header-IsTyped holds
              (omega (arith, size, total, within)),
          Reads-all (body reserve default_limits header) rest b read_body (omega (arith, within)),
          ==_refl (length rest),
          structured,
        )
        refl
