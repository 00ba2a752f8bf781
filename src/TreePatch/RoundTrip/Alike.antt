-- ===== src/TreePatch/RoundTrip/Alike.antt =====
-- rust/src/tree_patch_encode.rs: the size of what `create` writes, and what the checks see of it.
use difz.Prelude.{ℕ, ◌≤◌, ◌≡◌, refl, sym, Bool, false, List, arith, length, length-append, is_empty}
use difz.Prelude.Bytes.{Bytes, length-to_le}
use difz.Metadata.Encoding.Sizes.{written_size}
use difz.Directory.Structure.{check_content}
use difz.Directory.Structure.Likeness.{IsAlike}
use difz.Directory.Snapshot
use difz.Directory.Snapshot.{Content, directory, file, symlink, Entry, structure, mode_of}
use difz.File.Codec.{Native}
use difz.TreePatch.{default_limits}
use difz.TreePatch.Decoding
use difz.TreePatch.Decoding.{Operation, DecodedEntry}
use difz.TreePatch.Encoding.Layout.{rule_bytes, entry_bytes, IsWrittenAs, RuleFits}
use difz.TreePatch.Encoding.Choice.{
  IsChosen, a_directory, a_symlink, a_link, a_copy, a_delta, a_whole,
}
use difz.Directory.Paths.Sizes.{not_empty}

pub rule_size :
    (longest : ℕ) (r : difz.PathFilter.Compile.Rule)
    → RuleFits longest r
    → 9 ≤ length (rule_bytes r)
rule_size longest r fits =
    omega (arith, length-append {0}, length-to_le, not_empty _ fits.some_pattern)

pub entry_size : (d : DecodedEntry) → is_empty d.path ≡ false → 41 ≤ length (entry_bytes d)
entry_size d h =
    omega
      (arith, length-append {0}, length-to_le, not_empty d.path h, written_size d.metadata.metadata)

module _ (native : Native) (reserve : ℕ → Bool) (blake3 : Bytes → Bytes) (source : List Entry) where
  pub content_passes :
      (e : Entry) (d : DecodedEntry)
      → IsWrittenAs native reserve blake3 source e d
      → IsChosen native reserve blake3 default_limits.max_symlink_bytes source e d.operation
          d.payload
      → IsAlike (structure e) (Decoding.structure d)
  unfolding structure Decoding.structure Decoding.kind_of Snapshot.kind_of Snapshot.bytes_of mode_of
      check_content
  content_passes e d w (a_directory mode is o p) = record {
    path = sym w.path;
    mode = sym w.mode;
    kind = rw (is, o) refl;
    content = λ h. rw (check_content, o, p) refl;
  }
  content_passes e d w (a_symlink target is o p short) = record {
    path = sym w.path;
    mode = sym w.mode;
    kind = rw (is, o) refl;
    content = λ h. rw (w.path, w.mode, is, o, p) (rw is at h);
  }
  content_passes e d w (a_link mode bytes is o linked) = record {
    path = sym w.path;
    mode = sym w.mode;
    kind = rw (is, o) refl;
    content = λ h. rw (check_content, o) refl;
  }
  content_passes e d w (a_copy mode bytes is o p unlinked old) = record {
    path = sym w.path;
    mode = sym w.mode;
    kind = rw (is, o) refl;
    content = λ h. rw (check_content, o) refl;
  }
  content_passes e d w (a_delta mode bytes previous is o unlinked old changed made) = record {
    path = sym w.path;
    mode = sym w.mode;
    kind = rw (is, o) refl;
    content = λ h. rw (check_content, o) refl;
  }
  content_passes e d w (a_whole mode bytes is o p unlinked absent) = record {
    path = sym w.path;
    mode = sym w.mode;
    kind = rw (is, o) refl;
    content = λ h. rw (check_content, o) refl;
  }
