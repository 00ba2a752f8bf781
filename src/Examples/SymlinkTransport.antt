-- ===== src/Examples/SymlinkTransport.antt =====
-- rust/src/symlink_transport.rs: two records written and read back.
use difz.Prelude.{
  ℕ, ◌↔◌, get_elem?, ◌≡◌, refl, true, false, [], ◌∷◌, none, some, arith, Result, ok, err,
}
use difz.Prelude.Bytes.{Bytes, to_le}
use difz.Prelude.Order.{cmp}
use difz.Prelude.Integers.{pos}
use difz.Prelude.Slices.{contains}
use difz.Prelude.Text.{ascii}
use difz.Examples.Inputs.{granted}
use difz.Metadata.Records
use difz.Metadata.Records.{no_metadata, Metadata}
use difz.Metadata.Time
use difz.Metadata.Validation
use difz.Metadata.Encoding
use difz.Directory.Paths
use difz.SymlinkTransport.{
  find, Error, Record, Transport, validate, check_records, new, flags_of, add_counts, encoded_len,
  record_chunks, put_records, encode,
}
use difz.SymlinkTransport.Decoding.{decode}
use difz.SymlinkTransport.Acceptance.{decode-eq-ok_links}
use difz.SymlinkTransport.Lookup.{find-eq-some_iff}
use difz.SymlinkTransport.RoundTrip.{decode-encode_links}
use difz.SymlinkTransport.RoundTrip.Records.{IsSoundRecord}

abbrev stamped : Metadata
stamped = record no_metadata {
  times = record { mtime = none; atime = some (record { sec = pos 9; nsec = 1 }); btime = none };
}

abbrev first : Record
first = record {
  name = ascii "a";
  metadata = record { metadata = stamped };
  absent_times = 1;
  observed_mtime = some (record { sec = pos 5; nsec = 6 });
  acl_override = false;
  finder_override = true;
}

abbrev second : Record
second = record {
  name = ascii "b";
  metadata = record { metadata = no_metadata };
  absent_times = 4;
  observed_mtime = none;
  acl_override = true;
  finder_override = false;
}

abbrev links : Transport
links = record { records = first ∷ second ∷ [] }

abbrev value_of : Result Error Bytes → Bytes
value_of (ok bytes) = bytes
value_of (err e) = []

abbrev written : Bytes
written = value_of (encode granted links)

links-written : encode granted links ≡ ok written
unfolding encode put_records record_chunks encoded_len add_counts flags_of Time.encode_time_override
    Time.encode Time.as_bytes Encoding.native_acl_chunks Encoding.time_chunks Encoding.info_chunks
    Encoding.link_chunks Encoding.chunks Encoding.put_all Encoding.write Encoding.encoded_len
    Encoding.encode to_le
links-written = refl

links_accepted : new links.records ≡ ok links
unfolding new check_records validate Time.encode_time_override Time.encode Paths.validate_path
    Paths.validate_text Records.metadata_is_empty cmp contains
links_accepted = refl

first_sound : IsSoundRecord first
unfolding Validation.validate_xattrs Validation.validate_aces Validation.validate_native_acl
    Validation.validate_times Validation.validate_holes Validation.validate_link Validation.validate
first_sound = record {
  typed = record {
    xattrs = tt;
    aces = tt;
    native_acl = tt;
    mtime = tt;
    atime = (omega arith, omega arith);
    btime = tt;
    finder_flags = omega arith;
    finder_info = tt;
    holes = tt;
    hardlink_to = tt;
  };
  valid = refl;
  absent_times = omega arith;
  observed = omega arith;
}

second_sound : IsSoundRecord second
unfolding Validation.validate_xattrs Validation.validate_aces Validation.validate_native_acl
    Validation.validate_times Validation.validate_holes Validation.validate_link Validation.validate
second_sound = record {
  typed = record {
    xattrs = tt;
    aces = tt;
    native_acl = tt;
    mtime = tt;
    atime = tt;
    btime = tt;
    finder_flags = omega arith;
    finder_info = tt;
    holes = tt;
    hardlink_to = tt;
  };
  valid = refl;
  absent_times = omega arith;
  observed = tt;
}

decode-encode_links_example : decode granted written ≡ ok links
decode-encode_links_example =
    decode-encode_links granted (λ n. refl) links (first_sound, (second_sound, tt)) links_accepted
      links-written

find-eq-some_iff_example :
    (find links (ascii "b") ≡ some second)
    ↔ ((i : ℕ) × (get_elem? links.records i ≡ some second) × (second.name ≡ ascii "b"))
find-eq-some_iff_example = find-eq-some_iff links (ascii "b") second links_accepted

links_read : decode granted written ≡ ok links
links_read =
    decode-encode_links granted (λ n. refl) links (first_sound, (second_sound, tt)) links_accepted
      links-written

decode-eq-ok_links_example : new links.records ≡ ok links
decode-eq-ok_links_example = decode-eq-ok_links granted written links links_read
