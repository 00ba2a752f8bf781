-- ===== src/Examples/Metadata.antt =====
-- rust/src/metadata.rs and its parts: one record through normalization, encoding and decoding.
use difz.Prelude.{
  true, ◌^◌, ◌<◌, ◌≤◌, ◌≡◌, ◌↔◌, refl, false, List, [], ◌∷◌, ◌++◌, none, some, arith, length, ok,
  All,
}
use difz.Prelude.Bytes.{Bytes, IsByte, to_le}
use difz.Prelude.Integers.{pos, negsuc, i64_to_word}
use difz.Prelude.Slices.{contains}
use difz.Prelude.Text.{ascii}
use difz.Examples.Inputs.{granted, are_bytes-All}
use difz.Metadata.Kinds.{linux, mswin, logical}
use difz.Metadata.Family
use difz.Metadata.Names
use difz.Metadata.Names.{validate_logical_name}
use difz.Metadata.Time.{
  Time, InlineBytes, ModificationOverride, as_bytes, time_bytes, encode_time_override,
  decode_time_override, encode_modification_override, decode_modification_override,
}
use difz.Metadata.Time.Overrides.{
  decode_time_override-encode_time_override,
  decode_modification_override-encode_modification_override,
}
use difz.Metadata.Time
use difz.Metadata.Records.{Hole, Metadata, no_metadata, IsTyped}
use difz.Metadata.Validation.{CanonicalMetadata, validate, validate_holes}
use difz.Metadata.Validation
use difz.Metadata.Encoding
use difz.Metadata.Encoding.Layout.{written}
use difz.Metadata.Decoding
use difz.Metadata.Decoding.RoundTrip.{decode-encode, decode-written}
use difz.Metadata.Decoding.Canonicity.{decode-eq-ok}
use difz.Metadata.Omit
use difz.Metadata.Omit.{Omit}
use difz.Metadata.Normalization.{clear_omitted, sort, starts_first, merge, check_holes, normalize}
use difz.Metadata.Borrowing.{borrowing_omitting}
use difz.Metadata.Borrowing.Omission.{borrowing_omitting-clear_omitted}
use difz.Metadata.Restore
use difz.Metadata.Restore.{RestorePlan, for_os}
use difz.Metadata.Restore.Total.{new-total}
use difz.Metadata.Normalization
use difz.Metadata.Normalization.Holes.{Covers, Covers-merge-sort}
use difz.Metadata.Normalization.Gaps.{validate_holes-merge-sort}
use difz.Metadata.Normalization.Outcome.{IsNormalized, normalize-eq-ok}
use difz.Metadata.AttributeName.{to_native, from_native, check_name}
use difz.Metadata.AttributeName.RoundTrip.{from_native-to_native}

abbrev stamp : Time
stamp = record { sec = negsuc 4; nsec = 7 }

abbrev later_stamp : Time
later_stamp = record { sec = pos 60; nsec = 0 }

abbrev scattered : List Hole
scattered =
    record { offset = 8; size = 4 }
    ∷ record { offset = 0; size = 2 }
    ∷ record { offset = 10; size = 6 }
    ∷ []

abbrev gathered : List Hole
gathered = record { offset = 0; size = 2 } ∷ record { offset = 8; size = 8 } ∷ []

abbrev raw_record : Metadata
raw_record = record no_metadata {
  xattrs = record { class = logical; name = ascii "tag"; value = 1 ∷ 2 ∷ [] } ∷ [];
  times = record { mtime = some stamp; atime = none; btime = none };
  holes = scattered;
}

abbrev sound_record : Metadata
sound_record = record raw_record { holes = gathered }

abbrev canonical : CanonicalMetadata
canonical = record { metadata = sound_record }

sound_record_valid : validate sound_record ≡ ok tt
unfolding validate Validation.validate_xattrs Validation.validate_aces
    Validation.validate_native_acl Validation.validate_times Validation.validate_holes
    Validation.validate_link Names.validate_xattr_name
sound_record_valid = refl

sound_record-IsTyped : IsTyped sound_record
sound_record-IsTyped = record {
  xattrs = ((are_bytes-All (ascii "tag") refl, are_bytes-All (1 ∷ 2 ∷ []) refl), tt);
  aces = tt;
  native_acl = tt;
  mtime = (omega arith, omega arith);
  atime = tt;
  btime = tt;
  finder_flags = omega arith;
  finder_info = tt;
  holes = ((omega arith, omega arith), ((omega arith, omega arith), tt));
  hardlink_to = tt;
}

sound_record_fits : length (written sound_record) < 2 ^ 64
unfolding Encoding.chunks to_le Encoding.xattr_chunks Encoding.native_acl_chunks
    Encoding.time_chunks Encoding.info_chunks Encoding.hole_chunks Encoding.link_chunks
sound_record_fits = omega arith

decode-encode_example :
    (bytes : Bytes) × (Encoding.encode granted canonical ≡ ok bytes)
    × (Decoding.decode granted bytes ≡ ok canonical)
decode-encode_example =
    decode-encode granted canonical (λ n. refl) sound_record-IsTyped sound_record_valid
      sound_record_fits

sound_record_bytes : All IsByte (written sound_record)
unfolding Encoding.chunks to_le Encoding.xattr_chunks Encoding.native_acl_chunks
    Encoding.time_chunks Encoding.info_chunks Encoding.hole_chunks Encoding.link_chunks
    Encoding.time_flags time_bytes i64_to_word
sound_record_bytes = are_bytes-All (written sound_record) refl

decode-eq-ok_example :
    (written sound_record ≡ written canonical.metadata)
    × (validate canonical.metadata ≡ ok tt)
    × IsTyped canonical.metadata
decode-eq-ok_example = decode-eq-ok granted (written sound_record) canonical sound_record_bytes (
    decode-written granted sound_record (λ n. refl) sound_record-IsTyped sound_record_valid
      sound_record_fits)

abbrev without_finder : Omit
without_finder = record { bits = 8 }

normalized : normalize raw_record without_finder ≡ ok canonical
unfolding normalize clear_omitted Normalization.clear Omit.contains Family.bit Family.tag sort
    Normalization.insert Normalization.reject_pairs Normalization.check_xattrs
    Normalization.check_aces check_holes merge Normalization.merge_onto Normalization.joined
    Validation.new Validation.wire_length Validation.xattr_cmp Validation.validate_native_acl
    Validation.validate_times Names.validate_xattr_name validate Validation.validate_xattrs
    Validation.validate_aces validate_holes Validation.validate_link
normalized = refl

normalize-eq-ok_example :
    (validate canonical.metadata ≡ ok tt)
    × IsNormalized without_finder raw_record canonical.metadata
normalize-eq-ok_example = normalize-eq-ok raw_record without_finder normalized

Covers-merge-sort_example : Covers 11 (merge (sort starts_first scattered)) ↔ Covers 11 scattered
Covers-merge-sort_example = Covers-merge-sort 11 scattered

scattered_checked : check_holes scattered ≡ ok tt
unfolding check_holes
scattered_checked = refl

validate_holes-merge-sort_example :
    validate_holes none (merge (sort starts_first scattered)) ≡ ok tt
validate_holes-merge-sort_example = validate_holes-merge-sort scattered scattered_checked

abbrev stamp_bytes : InlineBytes
stamp_bytes = record { bytes = 1 ∷ time_bytes stamp; size = 13 }

stamp_encoded : encode_time_override (some stamp) ≡ ok stamp_bytes
unfolding encode_time_override Time.encode time_bytes
stamp_encoded = refl

decode_time_override-encode_time_override_example :
    decode_time_override (as_bytes stamp_bytes) ≡ ok (some stamp)
decode_time_override-encode_time_override_example =
    decode_time_override-encode_time_override (some stamp) stamp_bytes (omega arith) stamp_encoded

abbrev modified : ModificationOverride
modified = record { original = some stamp; observed = later_stamp }

abbrev modified_bytes : InlineBytes
modified_bytes = record {
  bytes = (1 ∷ time_bytes stamp) ++ (time_bytes later_stamp ++ []);
  size = 25;
}

modified_encoded : encode_modification_override modified ≡ ok modified_bytes
unfolding encode_modification_override encode_time_override Time.encode as_bytes time_bytes to_le
    i64_to_word
modified_encoded = refl

decode_modification_override-encode_modification_override_example :
    decode_modification_override (as_bytes modified_bytes) ≡ ok modified
decode_modification_override-encode_modification_override_example =
    decode_modification_override-encode_modification_override modified modified_bytes (omega arith)
      (omega arith) modified_encoded

user_tag : to_native linux logical (ascii "tag") 9 ≡ ok (ascii "user.tag" ++ 0 ∷ [])
unfolding to_native check_name validate_logical_name contains
user_tag = refl

from_native-to_native_example :
    (body : Bytes) × (ascii "user.tag" ++ 0 ∷ [] ≡ body ++ 0 ∷ [])
    × (contains body 0 ≡ false)
    × (length (ascii "user.tag" ++ 0 ∷ []) ≤ 9)
    × (from_native linux logical body ≡ some (ascii "tag"))
from_native-to_native_example = from_native-to_native linux logical (ascii "tag") 9 user_tag

abbrev without_times : Omit
without_times = record { bits = 4 }

borrowing_omitting-clear_omitted_example :
    borrowing_omitting granted canonical without_times
    ≡ Validation.new (clear_omitted Family.all without_times canonical.metadata)
borrowing_omitting-clear_omitted_example =
    borrowing_omitting-clear_omitted granted (λ n. refl) canonical without_times

mswin_transports : (for_os mswin).logical_xattr ≡ true
unfolding for_os
mswin_transports = refl

new-total_example :
    (plan : RestorePlan) × (Restore.new (for_os mswin) canonical ≡ ok plan)
    × (length plan.compromises ≤ 8)
new-total_example = new-total (for_os mswin) mswin_transports canonical
