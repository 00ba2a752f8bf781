-- ===== src/TreePatch/Encoding/Layout.antt =====
-- rust/src/tree_patch_encode.rs: what the writer put when it succeeded, in order.
use difz.Prelude.{
  ℕ, ◌+◌, ◌^◌, ◌<◌, ◌≤◌, ◌≡◌, refl, sym, ap, ◌∙◌, Bool, true, false, not, List, [], ◌∷◌, ◌++◌,
  append-nil, append_assoc, arith, concat_map, join, ltb, leb, length, length-append, is_empty,
  ltb_false→le, leb_false→lt, ok, ok_or, map_err, reject, >>-eq-ok, >>=-eq-ok, reject-eq-ok,
  map_err-eq-ok, ok_or-eq-ok, some, All, Pairs,
}
use difz.Prelude.Bytes.{Bytes, to_le}
use difz.Prelude.Cursor.{checked_add}
use difz.Prelude.Utf8.Encoding.{as_bytes}
use difz.Metadata.Records.{Metadata}
use difz.Metadata.Validation.{CanonicalMetadata}
use difz.Metadata.Encoding
use difz.Metadata.Encoding.Layout.{written, encode-eq-ok}
use difz.Directory.Snapshot.{Entry, mode_of}
use difz.PathFilter.Compile.{Rule}
use difz.File.Codec.{Native}
use difz.TreePatch.{limit_exceeded, out_of_memory, metadata_error, default_limits}
use difz.TreePatch.Decoding.{operation_tag, DecodedEntry}
use difz.TreePatch.Encoding.{
  action_tag, put, put_each, put_record, put_rules, choose, put_entry, put_entries, put_root,
}

-- The bytes of a record behind its length, of a rule, and of an entry as the decoder returns it.
abbrev pub record_bytes : Metadata → Bytes
record_bytes m = to_le 4 (length (written m)) ++ written m

abbrev pub rule_bytes : Rule → Bytes
rule_bytes r =
    (action_tag r.action ∷ 0 ∷ 0 ∷ 0 ∷ [])
    ++ (to_le 4 (length (as_bytes r.pattern)) ++ as_bytes r.pattern)

abbrev pub entry_bytes : DecodedEntry → Bytes
entry_bytes d =
    (operation_tag d.operation ∷ 0 ∷ [])
    ++ (to_le 2 d.mode
        ++ (to_le 4 (length d.path)
            ++ (to_le 8 (length d.payload)
                ++ (d.path ++ (d.payload ++ record_bytes d.metadata.metadata)))))

abbrev pub root_bytes : Bool → Metadata → Bytes
root_bytes false m = []
root_bytes true m = record_bytes m

-- A record that the writer accepts.
pub record RecordFits (m : Metadata) : Type 0 where
  pub largest : length (written m) ≤ default_limits.max_payload_bytes
  pub word : length (written m) < 2 ^ 32

-- The operation and the payload that the writer chose for an entry.
pub record IsWrittenAs (native : Native) (reserve : ℕ → Bool) (blake3 : Bytes → Bytes)
    (source : List Entry) (e : Entry) (d : DecodedEntry) : Type 0 where
  pub path : d.path ≡ e.path
  pub mode : d.mode ≡ mode_of e.content
  pub metadata : d.metadata ≡ e.metadata
  pub chosen :
      choose native reserve blake3 default_limits.max_symlink_bytes source e
      ≡ ok (d.operation, d.payload)
  pub payload : length d.payload ≤ default_limits.max_payload_bytes
  pub fits : RecordFits e.metadata.metadata

-- A rule that the writer accepts.
pub record RuleFits (longest : ℕ) (r : Rule) : Type 0 where
  pub some_pattern : is_empty (as_bytes r.pattern) ≡ false
  pub pattern : length (as_bytes r.pattern) ≤ longest

module _ (native : Native) (reserve : ℕ → Bool) (blake3 : Bytes → Bytes) (maximum : ℕ) where
  pub put-eq-ok :
      (output bytes : Bytes) {next : Bytes}
      → put native reserve blake3 maximum output bytes ≡ ok next
      → (next ≡ output ++ bytes) × (length next ≤ maximum)
  unfolding put
  put-eq-ok output bytes {next} h =
      let (size, sized, h₁) =
        >>=-eq-ok (ok_or (checked_add (length output) (length bytes)) limit_exceeded) _ h in
      let (small, h₂) = >>-eq-ok (reject (ltb maximum size) limit_exceeded) _ h₁ in
      let (_, h₃) = >>-eq-ok (reject (not (reserve (length bytes))) out_of_memory) _ h₂ in
      let sum : size ≡ length output + length bytes =
        sum_of (length output) (length bytes) size (ok_or-eq-ok _ limit_exceeded sized) in
      let same : output ++ bytes ≡ next = cc h₃ in
      let bound = ltb_false→le maximum size (reject-eq-ok _ limit_exceeded small) in
      rw (← same) (refl, omega (arith, length-append output bytes, sum, bound))
    where
      sum_of : (a b n : ℕ) → checked_add a b ≡ some n → n ≡ a + b
      sum_of a b n e = ground arith

  put_each-eq-ok :
      (output : Bytes) (pieces : List Bytes) {next : Bytes}
      → length output ≤ maximum
      → put_each native reserve blake3 maximum output pieces ≡ ok next
      → (next ≡ output ++ join pieces) × (length next ≤ maximum)
  unfolding put_each
  put_each-eq-ok output [] {next} small h =
      let same : output ≡ next = cc h in rw (← same) (sym (append-nil output), small)
  put_each-eq-ok output (bytes ∷ rest) small h =
      let (middle, first, h₁) = >>=-eq-ok (put native reserve blake3 maximum output bytes) _ h in
      let (here, low) = put-eq-ok output bytes first in
      let (later, high) = put_each-eq-ok middle rest low h₁ in
      (later ∙ ap (λ t. t ++ join rest) here ∙ append_assoc output bytes (join rest), high)

  put_record-eq-ok :
      (output : Bytes) (m : CanonicalMetadata) {next : Bytes}
      → put_record native reserve blake3 maximum output m default_limits.max_payload_bytes ≡ ok next
      → (next ≡ output ++ record_bytes m.metadata) × (length next ≤ maximum) × RecordFits m.metadata
  unfolding put_record
  put_record-eq-ok output m {next} h =
      let (bytes, encoded, h₁) =
        >>=-eq-ok (map_err metadata_error (Encoding.encode reserve m)) _ h in
      let (largest, h₂) =
        >>-eq-ok (reject (ltb default_limits.max_payload_bytes (length bytes)) limit_exceeded) _
          h₁ in
      let (word, h₃) = >>-eq-ok (reject (leb (2 ^ 32) (length bytes)) limit_exceeded) _ h₂ in
      let (middle, first, second) =
        >>=-eq-ok (put native reserve blake3 maximum output (to_le 4 (length bytes))) _ h₃ in
      let same =
        encode-eq-ok reserve m (map_err-eq-ok metadata_error (Encoding.encode reserve m) encoded) in
      let (here, _) = put-eq-ok output (to_le 4 (length bytes)) first in
      let (later, high) = put-eq-ok middle bytes second in
      (
        rw (← same) (
            later ∙ ap (λ t. t ++ bytes) here ∙ append_assoc output (to_le 4 (length bytes)) bytes),
        high,
        record {
          largest = rw same at (ltb_false→le _ _ (reject-eq-ok _ limit_exceeded largest));
          word = rw same at (leb_false→lt _ _ (reject-eq-ok _ limit_exceeded word));
        },
      )

  pub put_rules-eq-ok :
      (longest : ℕ) (output : Bytes) (rules : List Rule) {next : Bytes}
      → length output ≤ maximum
      → put_rules native reserve blake3 maximum longest output rules ≡ ok next
      → (next ≡ output ++ concat_map rule_bytes rules)
        × (length next ≤ maximum)
        × All (RuleFits longest) rules
  unfolding put_rules
  put_rules-eq-ok longest output [] {next} small h =
      let same : output ≡ next = cc h in rw (← same) (sym (append-nil output), small, tt)
  put_rules-eq-ok longest output (r ∷ rules) small h =
      let pattern = as_bytes r.pattern in
      let (some_pattern, h₁) = >>-eq-ok (reject (is_empty pattern) limit_exceeded) _ h in
      let (short, h₂) = >>-eq-ok (reject (ltb longest (length pattern)) limit_exceeded) _ h₁ in
      let (middle, first, h₃) =
        >>=-eq-ok
          (put_each native reserve blake3 maximum output
            ((action_tag r.action ∷ 0 ∷ 0 ∷ 0 ∷ []) ∷ to_le 4 (length pattern) ∷ pattern ∷ []))
          _ h₂ in
      let (here, low) = put_each-eq-ok output _ small first in
      let (later, high, others) = put_rules-eq-ok longest middle rules low h₃ in
      (
        later
            ∙ ap (λ t. t ++ concat_map rule_bytes rules) (here ∙ simp append-nil)
            ∙ append_assoc output (rule_bytes r) (concat_map rule_bytes rules),
        high,
        (
          record {
            some_pattern = reject-eq-ok _ limit_exceeded some_pattern;
            pattern = ltb_false→le _ _ (reject-eq-ok _ limit_exceeded short);
          },
          others,
        ),
      )

  put_entry-eq-ok :
      (source : List Entry) (output : Bytes) (e : Entry) {next : Bytes}
      → length output ≤ maximum
      → put_entry native reserve blake3 maximum source output e ≡ ok next
      → (d : DecodedEntry) × IsWrittenAs native reserve blake3 source e d
        × (next ≡ output ++ entry_bytes d)
        × (length next ≤ maximum)
  unfolding put_entry
  put_entry-eq-ok source output e small h =
      let ((operation, payload), chosen, h₁) =
        >>=-eq-ok (choose native reserve blake3 default_limits.max_symlink_bytes source e) _ h in
      let (short, h₂) =
        >>-eq-ok (reject (ltb default_limits.max_payload_bytes (length payload)) limit_exceeded) _
          h₁ in
      let pieces =
        (operation_tag operation ∷ 0 ∷ [])
        ∷ to_le 2 (mode_of e.content)
        ∷ to_le 4 (length e.path)
        ∷ to_le 8 (length payload)
        ∷ e.path
        ∷ payload
        ∷ [] in
      let (middle, first, second) =
        >>=-eq-ok (put_each native reserve blake3 maximum output pieces) _ h₂ in
      let (here, _) = put_each-eq-ok output pieces small first in
      let (later, high, fits) = put_record-eq-ok middle e.metadata second in
      (
        record {
          path = e.path;
          mode = mode_of e.content;
          operation = operation;
          payload = payload;
          metadata = e.metadata;
        },
        record {
          path = refl;
          mode = refl;
          metadata = refl;
          chosen = chosen;
          payload = ltb_false→le _ _ (reject-eq-ok _ limit_exceeded short);
          fits = fits;
        },
        later
            ∙ ap (λ t. t ++ record_bytes e.metadata.metadata) here
            ∙ simp (append_assoc, append-nil),
        high,
      )

  pub put_entries-eq-ok :
      (source : List Entry) (output : Bytes) (entries : List Entry) {next : Bytes}
      → length output ≤ maximum
      → put_entries native reserve blake3 maximum source output entries ≡ ok next
      → (ds : List DecodedEntry) × Pairs (IsWrittenAs native reserve blake3 source) entries ds
        × (next ≡ output ++ concat_map entry_bytes ds)
        × (length next ≤ maximum)
  unfolding put_entries
  put_entries-eq-ok source output [] {next} small h =
      let same : output ≡ next = cc h in
      ([], tt, rw (← same) (sym (append-nil output)), rw (← same) small)
  put_entries-eq-ok source output (e ∷ entries) small h =
      let (middle, first, second) =
        >>=-eq-ok (put_entry native reserve blake3 maximum source output e) _ h in
      let (d, written_as, here, low) = put_entry-eq-ok source output e small first in
      let (ds, others, later, high) = put_entries-eq-ok source middle entries low second in
      (
        d ∷ ds,
        (written_as, others),
        later
            ∙ ap (λ t. t ++ concat_map entry_bytes ds) here
            ∙ append_assoc output (entry_bytes d) (concat_map entry_bytes ds),
        high,
      )

  pub put_root-eq-ok :
      (present : Bool) (output : Bytes) (root : CanonicalMetadata) {next : Bytes}
      → length output ≤ maximum
      → put_root native reserve blake3 present maximum output root ≡ ok next
      → (next ≡ output ++ root_bytes present root.metadata)
        × (length next ≤ maximum)
        × (present ≡ true → RecordFits root.metadata)
  unfolding put_root
  put_root-eq-ok false output root {next} small h =
      let same : output ≡ next = cc h in rw (← same) (sym (append-nil output), small, λ e. cc e)
  put_root-eq-ok true output root small h =
      let (later, high, fits) = put_record-eq-ok output root h in (later, high, λ e. fits)
