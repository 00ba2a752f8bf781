-- ===== src/Metadata/Encoding/Sizes.antt =====
-- rust/src/metadata_canonical.rs: how short an encoding can be.
use difz.Prelude.{◌≤◌, [], ◌++◌, Option, none, some, arith, concat_map, join, length, length-append}
use difz.Prelude.Bytes.{Bytes, to_le, length-to_le}
use difz.Metadata.Records.{Metadata, NativeAcl}
use difz.Metadata.Encoding.{native_acl_chunks, info_chunks, link_chunks, time_chunks}
use difz.Metadata.Encoding.Layout.{
  written, written-eq-sections, counted, xattr_bytes, ace_bytes, hole_bytes, times_bytes,
}

acl_size : (o : Option NativeAcl) → 1 ≤ length (join (native_acl_chunks o))
unfolding native_acl_chunks
acl_size none = omega arith
acl_size (some acl) = omega (arith, length-append (to_le 4 (length acl.bytes)) (acl.bytes ++ []))

info_size : (o : Option Bytes) → 1 ≤ length (join (info_chunks o))
unfolding info_chunks
info_size none = omega arith
info_size (some bytes) = omega arith

link_size : (o : Option Bytes) → 1 ≤ length (join (link_chunks o))
unfolding link_chunks
link_size none = omega arith
link_size (some bytes) = omega arith

pub written_size : (m : Metadata) → 20 ≤ length (written m)
written_size m =
    let links = join (link_chunks m.hardlink_to) in
    let holes = counted hole_bytes m.holes ++ links in
    let info = join (info_chunks m.finder_info) ++ holes in
    let flags = to_le 4 m.finder_flags ++ info in
    let stamps =
      join (time_chunks m.times.mtime)
      ++ (join (time_chunks m.times.atime) ++ join (time_chunks m.times.btime)) in
    let acls = join (native_acl_chunks m.native_acl) ++ (times_bytes m.times ++ flags) in
    let aces = counted ace_bytes m.aces ++ acls in
    rw (written-eq-sections m) (
      omega (
        arith,
        length-append (counted xattr_bytes m.xattrs) aces,
        length-append (to_le 4 (length m.xattrs)) (concat_map xattr_bytes m.xattrs),
        length-append (counted ace_bytes m.aces) acls,
        length-append (to_le 4 (length m.aces)) (concat_map ace_bytes m.aces),
        length-append (join (native_acl_chunks m.native_acl)) (times_bytes m.times ++ flags),
        length-append stamps flags,
        length-append (to_le 4 m.finder_flags) info,
        length-append (join (info_chunks m.finder_info)) holes,
        length-append (counted hole_bytes m.holes) links,
        length-append (to_le 4 (length m.holes)) (concat_map hole_bytes m.holes),
        length-to_le 4 (length m.xattrs),
        length-to_le 4 (length m.aces),
        length-to_le 4 m.finder_flags,
        length-to_le 4 (length m.holes),
        acl_size m.native_acl,
        info_size m.finder_info,
        link_size m.hardlink_to,
      ))
