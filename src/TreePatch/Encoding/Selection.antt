-- ===== src/TreePatch/Encoding/Selection.antt =====
-- rust/src/tree_patch_encode.rs: which files `create` copies, patches and writes whole, by what the
-- source holds.
use difz.Prelude.{
  ℕ, Bool, true, false, ◌≡◌, ◌≢◌, ◌⊎◌, ◌↔◌, inl, inr, refl, sym, ap, ◌∙◌, List, map, Option, none,
  some, get_elem?, ok, Option-cases,
}
use difz.Prelude.Bytes.{Bytes}
use difz.Directory.Structure
use difz.Directory.Structure.{find_path}
use difz.Directory.Structure.Order.{Ascending}
use difz.Directory.Structure.Search.{find_path-eq-some, find_path-eq-some_iff}
use difz.Directory.Snapshot.{Content, file, Entry, structure}
use difz.Directory.Canonical.Relations.{get_elem?-map}
use difz.File.Codec.{Native}
use difz.TreePatch.Decoding.{Operation, file_copy, file_delta, file_raw}
use difz.TreePatch.Encoding.{content_at, choose}
use difz.TreePatch.Encoding.Choice.{
  HoldsFile, IsChosen, a_directory, a_symlink, a_link, a_copy, a_delta, a_whole, choose-IsChosen,
}

-- One of the entries is a file with the path and the bytes.
abbrev pub HasFile : List Entry → Bytes → Bytes → Type 0
HasFile source path bytes =
    (i : ℕ) × (old : Entry) × (mode : ℕ) × (get_elem? source i ≡ some old)
    × (old.path ≡ path)
    × (old.content ≡ file mode bytes)

-- A file with the bytes that is no hard link.
abbrev pub IsPlainFile : Entry → Bytes → Type 0
IsPlainFile e bytes =
    (mode : ℕ) × (e.content ≡ file mode bytes) × (e.metadata.metadata.hardlink_to ≡ none)

pub index_of :
    (xs : List Entry) (path : Bytes) (c : Content)
    → content_at xs path ≡ some c
    → (i : ℕ) × (x : Entry) × (find_path (map structure xs) path ≡ some i)
      × (get_elem? xs i ≡ some x)
      × (x.content ≡ c)
unfolding content_at
index_of xs path c h = elim (Option-cases (find_path (map structure xs) path)) [
  | inl missed ↦ absurd (cc (rw (content_at, missed) at h))
  | inr (i, hit) ↦ elim (Option-cases (get_elem? xs i)) [
    | inl out ↦ absurd (cc (rw (content_at, hit, out) at h))
    | inr (x, at) ↦ (i, x, hit, at, cc (rw (content_at, hit, at) at h))
  ]
]

path_of :
    (xs : List Entry) (path : Bytes) (i : ℕ) (x : Entry)
    → find_path (map structure xs) path ≡ some i
    → get_elem? xs i ≡ some x
    → x.path ≡ path
unfolding structure
path_of xs path i x hit at =
    let (r, at', named) = find_path-eq-some (map structure xs) path i hit in
    let same : some (structure x) ≡ some r = sym (get_elem?-map xs i x at) ∙ at' in
    ap (path_or path) same ∙ named
  where
    path_or : Bytes → Option Structure.Record → Bytes
    path_or default none = default
    path_or default (some r) = r.path

-- The lookup by halves finds the file of the source with the path, if there is one.
HoldsFile_iff :
    (source : List Entry) (path bytes : Bytes)
    → Ascending (map structure source)
    → HoldsFile source path bytes ↔ HasFile source path bytes
unfolding content_at structure
HoldsFile_iff source path bytes asc = (
  λ (mode, held).
      let (i, x, hit, at, is) = index_of source path (file mode bytes) held in
      (i, x, mode, at, path_of source path i x hit at, is),
  λ (i, x, mode, at, named, is).
      let hit : find_path (map structure source) path ≡ some i =
        (find_path-eq-some_iff (map structure source) path i asc).1
          (structure x, get_elem?-map source i x at, named) in
      (mode, rw (content_at, hit, at, is) refl),
)

-- Copied, patched or written whole.
abbrev needs_no_link : Operation → Bool
needs_no_link Operation.directory = false
needs_no_link Operation.symlink = false
needs_no_link Operation.file_copy = true
needs_no_link Operation.file_raw = true
needs_no_link Operation.file_delta = true
needs_no_link Operation.file_hardlink = false

module _ (native : Native) (reserve : ℕ → Bool) (blake3 : Bytes → Bytes) (longest : ℕ)
    (source : List Entry) where
  abbrev Chosen : Entry → Operation → Bytes → Type 0
  Chosen = IsChosen native reserve blake3 longest source

  -- The three ways to represent a plain file.
  abbrev ByHolding : Entry → Operation → Bytes → Type 0
  ByHolding e operation bytes =
      ((operation ≡ file_copy) × HoldsFile source e.path bytes)
      ⊎ (((operation ≡ file_delta)
            × ((previous : Bytes) × HoldsFile source e.path previous × (previous ≢ bytes)))
          ⊎ ((operation ≡ file_raw) × ((previous : Bytes) → HoldsFile source e.path previous → ⊥)))

  by_holding :
      (e : Entry) (operation : Operation) (payload bytes : Bytes)
      → Chosen e operation payload
      → IsPlainFile e bytes
      → ByHolding e operation bytes
  by_holding e operation payload bytes (a_directory mode is o p) (m, plain, _) =
      absurd (cc (is, plain))
  by_holding e operation payload bytes (a_symlink target is o p short) (m, plain, _) =
      absurd (cc (is, plain))
  by_holding e operation payload bytes (a_link mode bytes' is o linked) (m, plain, unlinked) =
      absurd (cc (linked, unlinked))
  by_holding e operation payload bytes (a_copy mode bytes' is o p _ held) (m, plain, _) =
      let same : bytes' ≡ bytes = cc (is, plain) in inl (o, rw same at held)
  by_holding e operation payload bytes (a_delta mode bytes' previous is o _ held changed made)
        (m, plain, _) =
      let same : bytes' ≡ bytes = cc (is, plain) in
      inr (inl (o, (previous, held, rw same at changed)))
  by_holding e operation payload bytes (a_whole mode bytes' is o p _ missing) (m, plain, _) =
      inr (inr (o, missing))

  is_plain :
      (e : Entry) (operation : Operation) (payload : Bytes)
      → Chosen e operation payload
      → needs_no_link operation ≡ true
      → (bytes : Bytes) × IsPlainFile e bytes
  is_plain e operation payload (a_directory mode is o p) w = absurd (cc (rw o at w))
  is_plain e operation payload (a_symlink target is o p short) w = absurd (cc (rw o at w))
  is_plain e operation payload (a_link mode bytes is o linked) w = absurd (cc (rw o at w))
  is_plain e operation payload (a_copy mode bytes is o p unlinked held) w =
      (bytes, (mode, is, unlinked))
  is_plain e operation payload (a_delta mode bytes previous is o unlinked held changed made) w =
      (bytes, (mode, is, unlinked))
  is_plain e operation payload (a_whole mode bytes is o p unlinked missing) w =
      (bytes, (mode, is, unlinked))

  one_file : (path a b : Bytes) → HoldsFile source path a → HoldsFile source path b → a ≡ b
  one_file path a b (m, held) (n, held') = cc (held, held')

  one_content : (e : Entry) (a b : Bytes) → IsPlainFile e a → IsPlainFile e b → a ≡ b
  one_content e a b (m, is, _) (n, is', _) = cc (is, is')

  copies :
      (e : Entry) (operation : Operation) (bytes : Bytes)
      → ByHolding e operation bytes
      → HoldsFile source e.path bytes
      → operation ≡ file_copy
  copies e operation bytes (inl (o, held)) now = o
  copies e operation bytes (inr (inl (o, (previous, held, changed)))) now =
      absurd (changed (one_file e.path previous bytes held now))
  copies e operation bytes (inr (inr (o, missing))) now = absurd (missing bytes now)

  patches :
      (e : Entry) (operation : Operation) (bytes previous : Bytes)
      → ByHolding e operation bytes
      → HoldsFile source e.path previous
      → previous ≢ bytes
      → operation ≡ file_delta
  patches e operation bytes previous (inl (o, held)) now changed =
      absurd (changed (one_file e.path previous bytes now held))
  patches e operation bytes previous (inr (inl (o, rest))) now changed = o
  patches e operation bytes previous (inr (inr (o, missing))) now changed =
      absurd (missing previous now)

  writes :
      (e : Entry) (operation : Operation) (bytes : Bytes)
      → ByHolding e operation bytes
      → ((previous : Bytes) → HoldsFile source e.path previous → ⊥)
      → operation ≡ file_raw
  writes e operation bytes (inl (o, held)) none_held = absurd (none_held bytes held)
  writes e operation bytes (inr (inl (o, (previous, held, changed)))) none_held =
      absurd (none_held previous held)
  writes e operation bytes (inr (inr (o, missing))) none_held = o

  copied :
      (e : Entry) (operation : Operation) (bytes : Bytes)
      → ByHolding e operation bytes
      → operation ≡ file_copy
      → HoldsFile source e.path bytes
  copied e operation bytes (inl (o, held)) w = held
  copied e operation bytes (inr (inl (o, rest))) w = absurd (cc (o, w))
  copied e operation bytes (inr (inr (o, missing))) w = absurd (cc (o, w))

  patched :
      (e : Entry) (operation : Operation) (bytes : Bytes)
      → ByHolding e operation bytes
      → operation ≡ file_delta
      → (previous : Bytes) × HoldsFile source e.path previous × (previous ≢ bytes)
  patched e operation bytes (inl (o, held)) w = absurd (cc (o, w))
  patched e operation bytes (inr (inl (o, rest))) w = rest
  patched e operation bytes (inr (inr (o, missing))) w = absurd (cc (o, w))

  written :
      (e : Entry) (operation : Operation) (bytes : Bytes)
      → ByHolding e operation bytes
      → operation ≡ file_raw
      → (previous : Bytes) → HoldsFile source e.path previous
      → ⊥
  written e operation bytes (inl (o, held)) w = absurd (cc (o, w))
  written e operation bytes (inr (inl (o, rest))) w = absurd (cc (o, w))
  written e operation bytes (inr (inr (o, missing))) w = missing

  -- If the paths of the source ascend and `choose` represents an entry, then it copies exactly if
  -- the entry is a file that is no hard link and some entry of the source with its path is a file
  -- with the same bytes, it patches exactly if such an entry of the source is a file with other
  -- bytes, and it writes the file whole exactly if no entry of the source with its path is a
  -- file.
  pub choose_by_source :
      (e : Entry) (operation : Operation) (payload : Bytes)
      → Ascending (map structure source)
      → choose native reserve blake3 longest source e ≡ ok (operation, payload)
      → ((operation ≡ file_copy)
          ↔ ((bytes : Bytes) × IsPlainFile e bytes × HasFile source e.path bytes))
        × ((operation ≡ file_delta) ↔ (
            (bytes : Bytes) × (previous : Bytes) × IsPlainFile e bytes
            × HasFile source e.path previous
            × (previous ≢ bytes)))
        × ((operation ≡ file_raw) ↔ (
            (bytes : Bytes) × IsPlainFile e bytes
            × ((previous : Bytes) → HasFile source e.path previous → ⊥)))
  choose_by_source e operation payload asc h =
      let chosen = choose-IsChosen native reserve blake3 longest source e operation payload h in
      let holds = λ (bytes : Bytes). HoldsFile_iff source e.path bytes asc in
      let cases = λ (bytes : Bytes) (plain : IsPlainFile e bytes).
        by_holding e operation payload bytes chosen plain in
      (
        (
          λ o.
              let (bytes, plain) = is_plain e operation payload chosen (rw o refl) in
              (bytes, plain, (holds bytes).0 (copied e operation bytes (cases bytes plain) o)),
          λ (bytes, plain, has). copies e operation bytes (cases bytes plain) ((holds bytes).1 has),
        ),
        (
          λ o.
              let (bytes, plain) = is_plain e operation payload chosen (rw o refl) in
              let (previous, held, changed) = patched e operation bytes (cases bytes plain) o in
              (bytes, previous, plain, (holds previous).0 held, changed),
          λ (bytes, previous, plain, has, changed).
              patches e operation bytes previous (cases bytes plain) ((holds previous).1 has)
                changed,
        ),
        (
          λ o.
              let (bytes, plain) = is_plain e operation payload chosen (rw o refl) in
              (
                bytes,
                plain,
                λ previous has.
                    written e operation bytes (cases bytes plain) o previous
                      ((holds previous).1 has),
              ),
          λ (bytes, plain, missing).
              writes e operation bytes (cases bytes plain)
                (λ previous held. missing previous ((holds previous).0 held)),
        ),
      )
