-- ===== src/TreePatch/Encoding/Choice.antt =====
-- rust/src/tree_patch_encode.rs: the cases of how `create` represents an entry.
use difz.Prelude.{
  ◌≢◌, false, ℕ, Bool, ◌≤◌, ◌≡◌, inl, inr, refl, sym, ap, ◌∙◌, Result, [], Option, none, some, ltb,
  length, ltb_false→le, ok, map_err, reject, >>-eq-ok, >>=-eq-ok, reject-eq-ok, map_err-eq-ok,
  Bool-cases, List,
}
use difz.Prelude.Bytes.{Bytes, bytes_eq, bytes_eq→eq, bytes_eq_refl}
use difz.Directory.Snapshot.{Content, directory, file, symlink, Entry}
use difz.File.Codec.{Native}
use difz.File.Patch
use difz.TreePatch.{Error, limit_exceeded, file_error}
use difz.TreePatch.Decoding.{Operation}
use difz.TreePatch.Encoding.{content_at, choose_file, choose_linked, choose}

-- Whether a path of the source holds a file, and which bytes.
abbrev pub HoldsFile : List Entry → Bytes → Bytes → Type 0
HoldsFile source path bytes = (mode : ℕ) × (content_at source path ≡ some (file mode bytes))

bytes_differ : (a b : Bytes) → bytes_eq a b ≡ false → a ≢ b
bytes_differ a b h same = cc (bytes_eq_refl b, rw same at h)

module _ (native : Native) (reserve : ℕ → Bool) (blake3 : Bytes → Bytes) (longest : ℕ)
    (source : List Entry) where
  -- A directory has no payload and a symbolic link its target; a hard link names its file; a file
  -- that the source has unchanged is copied, one that it has is patched, and any other is whole.
  pub data IsChosen (e : Entry) (operation : Operation) (payload : Bytes) : Type 0 where
    a_directory :
        (mode : ℕ)
        → e.content ≡ directory mode
        → operation ≡ Operation.directory
        → payload ≡ []
        → IsChosen e operation payload
    a_symlink :
        (target : Bytes)
        → e.content ≡ symlink target
        → operation ≡ Operation.symlink
        → payload ≡ target
        → length target ≤ longest
        → IsChosen e operation payload
    a_link :
        (mode : ℕ) (bytes : Bytes)
        → e.content ≡ file mode bytes
        → operation ≡ Operation.file_hardlink
        → e.metadata.metadata.hardlink_to ≡ some payload
        → IsChosen e operation payload
    a_copy :
        (mode : ℕ) (bytes : Bytes)
        → e.content ≡ file mode bytes
        → operation ≡ Operation.file_copy
        → payload ≡ []
        → e.metadata.metadata.hardlink_to ≡ none
        → HoldsFile source e.path bytes
        → IsChosen e operation payload
    a_delta :
        (mode : ℕ) (bytes previous : Bytes)
        → e.content ≡ file mode bytes
        → operation ≡ Operation.file_delta
        → e.metadata.metadata.hardlink_to ≡ none
        → HoldsFile source e.path previous
        → previous ≢ bytes
        → Patch.encode native reserve blake3 previous bytes ≡ ok payload
        → IsChosen e operation payload
    a_whole :
        (mode : ℕ) (bytes : Bytes)
        → e.content ≡ file mode bytes
        → operation ≡ Operation.file_raw
        → payload ≡ bytes
        → e.metadata.metadata.hardlink_to ≡ none
        → ((previous : Bytes) → HoldsFile source e.path previous → ⊥)
        → IsChosen e operation payload

  answer :
      {a o : Operation} {b p : Bytes}
      → ◌≡◌ {A = Result Error (Operation × Bytes)} (ok (a, b)) (ok (o, p))
      → (o ≡ a) × (p ≡ b)
  answer h = (cc h, cc h)

  choose_file-IsChosen :
      (e : Entry) (mode : ℕ) (bytes : Bytes) (old : Option Content) {operation : Operation}
      {payload : Bytes}
      → content_at source e.path ≡ old
      → e.content ≡ file mode bytes
      → e.metadata.metadata.hardlink_to ≡ none
      → choose_file native reserve blake3 old bytes ≡ ok (operation, payload)
      → IsChosen e operation payload
  unfolding choose_file
  choose_file-IsChosen e mode bytes none at is_file unlinked h =
      let (o, p) = answer h in
      a_whole mode bytes is_file o p unlinked (λ previous (m, found). absurd (cc (at, found)))
  choose_file-IsChosen e mode bytes (some (directory m)) at is_file unlinked h =
      let (o, p) = answer h in
      a_whole mode bytes is_file o p unlinked (λ previous (m, found). absurd (cc (at, found)))
  choose_file-IsChosen e mode bytes (some (symlink t)) at is_file unlinked h =
      let (o, p) = answer h in
      a_whole mode bytes is_file o p unlinked (λ previous (m, found). absurd (cc (at, found)))
  choose_file-IsChosen e mode bytes (some (file m previous)) {operation} {payload} at is_file
        unlinked h =
      elim (Bool-cases (bytes_eq previous bytes)) [
        | inl same ↦
            let equal = bytes_eq→eq previous bytes same in
            let (o, p) = answer (rw same at h) in
            a_copy mode bytes is_file o p unlinked (m, rw (← equal) at)
        | inr other ↦
            let (delta, encoded, made) =
              >>=-eq-ok (map_err file_error (Patch.encode native reserve blake3 previous bytes)) _
                (rw other at h) in
            let (o, p) = answer made in
            a_delta mode bytes previous is_file o unlinked (m, at)
              (bytes_differ previous bytes other)
              (rw p (
                map_err-eq-ok file_error (Patch.encode native reserve blake3 previous bytes)
                  encoded))
      ]

  choose_linked-IsChosen :
      (e : Entry) (mode : ℕ) (bytes : Bytes) (link : Option Bytes) {operation : Operation}
      {payload : Bytes}
      → e.content ≡ file mode bytes
      → e.metadata.metadata.hardlink_to ≡ link
      → choose_linked native reserve blake3 link (content_at source e.path) bytes
        ≡ ok (operation, payload)
      → IsChosen e operation payload
  unfolding choose_linked
  choose_linked-IsChosen e mode bytes none is_file linked h =
      choose_file-IsChosen e mode bytes (content_at source e.path) refl is_file linked h
  choose_linked-IsChosen e mode bytes (some link) is_file linked h =
      let (o, p) = answer h in a_link mode bytes is_file o (linked ∙ ap some (sym p))

  choose_content :
      (e : Entry) (content : Content) {operation : Operation} {payload : Bytes}
      → e.content ≡ content
      → choose native reserve blake3 longest source e ≡ ok (operation, payload)
      → IsChosen e operation payload
  unfolding choose
  choose_content e (directory mode) is_directory h =
      let (o, p) = answer (rw is_directory at h) in a_directory mode is_directory o p
  choose_content e (symlink target) is_symlink h =
      let (short, made) =
        >>-eq-ok (reject (ltb longest (length target)) limit_exceeded) _ (rw is_symlink at h) in
      let (o, p) = answer made in
      a_symlink target is_symlink o p (ltb_false→le _ _ (reject-eq-ok _ limit_exceeded short))
  choose_content e (file mode bytes) is_file h =
      choose_linked-IsChosen e mode bytes e.metadata.metadata.hardlink_to is_file refl
        (rw is_file at h)

  -- What `choose` returns is one of the cases.
  pub choose-IsChosen :
      (e : Entry) (operation : Operation) (payload : Bytes)
      → choose native reserve blake3 longest source e ≡ ok (operation, payload)
      → IsChosen e operation payload
  choose-IsChosen e operation payload h = choose_content e e.content refl h
