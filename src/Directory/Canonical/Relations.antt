-- ===== src/Directory/Canonical/Relations.antt =====
-- rust/src/directory_canonical.rs: what holds of a snapshot that `new` returned.
use mathlib.Core.Option
use difz.Prelude.{
  ok_or-eq-ok, not-false, is_some-false, ℕ, zero, suc, inl, inr, ◌+◌, ◌-◌, ◌≤◌, ◌≡◌, refl, sym, ap,
  ◌∙◌, true, false, not, ◌||◌, List, [], ◌∷◌, ◌++◌, Option, none, some, arith, ltb, ltb_false→le,
  ◌==◌, ==_iff, any, length, map, take, drop, get_elem?, is_empty, is_some, ok, ok_or, reject,
  reject-or, >>-eq-ok, >>=-eq-ok, reject-eq-ok, All, Bool-cases,
}
use difz.Prelude.Bytes.{Bytes, bytes_eq, bytes_eq→eq}
use difz.Metadata.Records.{Metadata, Hole}
use difz.Directory.Paths.{invalid_sparse_extent, invalid_hardlink_relation}
use difz.Directory.Structure
use difz.Directory.Structure.{find_path}
use difz.Directory.Structure.Order.{Ascending}
use difz.Directory.Structure.Search.{find_path-eq-some}
use difz.Directory.Structure.Hierarchy.{validate-Ascending}
use difz.Directory.Snapshot.{Content, directory, file, symlink, Entry, Snapshot, structure}
use difz.Directory.Canonical.{
  shared_metadata_equal, check_hole, check_holes, check_target, check_link, check_relations,
  CanonicalSnapshot, new,
}

-- A hole lies in a file and covers zeros only.
abbrev pub IsHoleOf : Content → Hole → Type 0
IsHoleOf (directory mode) hole = ⊥
IsHoleOf (symlink target) hole = ⊥
IsHoleOf (file mode bytes) hole =
    (hole.offset + hole.size ≤ length bytes)
    × All (λ b. b ≡ 0) (take hole.size (drop hole.offset bytes))

-- A link names an earlier file that is no link, with the same content and shared metadata.
abbrev pub IsLinkOf : List Entry → Content → Metadata → Option Bytes → Type 0
IsLinkOf before content metadata none = Unit
IsLinkOf before content metadata (some path) =
    (i : ℕ) × (target : Entry) × (get_elem? before i ≡ some target)
    × (target.path ≡ path)
    × (target.content ≡ content)
    × (target.metadata.metadata.hardlink_to ≡ none)
    × (shared_metadata_equal metadata target.metadata.metadata ≡ true)

abbrev pub HasRelations : List Entry → List Entry → Type 0
HasRelations before [] = Unit
HasRelations before (e ∷ rest) =
    All (IsHoleOf e.content) e.metadata.metadata.holes
    × IsLinkOf before e.content e.metadata.metadata e.metadata.metadata.hardlink_to
    × HasRelations (before ++ e ∷ []) rest

all_zero : (bytes : Bytes) → any (λ b. not (b == 0)) bytes ≡ false → All (λ b. b ≡ 0) bytes
all_zero [] h = tt
all_zero (b ∷ bs) h = elim (Bool-cases (b == 0)) [
  | inl zero_byte ↦ ((==_iff b 0).0 zero_byte, all_zero bs (rw zero_byte at h))
  | inr other ↦ absurd (cc (rw other at h))
]

check_hole-IsHoleOf :
    (content : Content) (hole : Hole) → check_hole content hole ≡ ok tt → IsHoleOf content hole
unfolding check_hole
check_hole-IsHoleOf (directory mode) hole h = cc h
check_hole-IsHoleOf (symlink target) hole h = cc h
check_hole-IsHoleOf (file mode bytes) hole h =
    let (inside, zeros) =
      >>-eq-ok
        (reject (ltb (length bytes) hole.offset || ltb (length bytes - hole.offset) hole.size)
          invalid_sparse_extent)
        _ h in
    let (begins, ends) =
      reject-or (ltb (length bytes) hole.offset) _ invalid_sparse_extent inside in
    let low = ltb_false→le (length bytes) hole.offset begins in
    let high =
      ltb_false→le (length bytes - hole.offset) hole.size
        (reject-eq-ok _ invalid_sparse_extent ends) in
    (
      omega (arith, low, high),
      all_zero (take hole.size (drop hole.offset bytes))
          (reject-eq-ok _ invalid_sparse_extent zeros),
    )

check_holes-IsHoleOf :
    (content : Content) (holes : List Hole)
    → check_holes content holes ≡ ok tt
    → All (IsHoleOf content) holes
unfolding check_holes
check_holes-IsHoleOf content [] h = tt
check_holes-IsHoleOf content (hole ∷ holes) h =
    let (here, later) = >>-eq-ok (check_hole content hole) _ h in
    (check_hole-IsHoleOf content hole here, check_holes-IsHoleOf content holes later)

check_target_sound :
    (mode : ℕ) (bytes : Bytes) (metadata : Metadata) (target : Entry) (content : Content)
    → target.content ≡ content
    → check_target mode bytes metadata target ≡ ok tt
    → (content ≡ file mode bytes)
      × (target.metadata.metadata.hardlink_to ≡ none)
      × (shared_metadata_equal metadata target.metadata.metadata ≡ true)
unfolding check_target
check_target_sound mode bytes metadata target (directory mode') same h = absurd (cc (rw same at h))
check_target_sound mode bytes metadata target (symlink to) same h = absurd (cc (rw same at h))
check_target_sound mode bytes metadata target (file target_mode target_bytes) same h =
    let h' = rw same at h in
    let (unlinked, h₁) =
      reject-or (is_some target.metadata.metadata.hardlink_to) _ invalid_hardlink_relation h' in
    let (modes, h₂) = reject-or (not (mode == target_mode)) _ invalid_hardlink_relation h₁ in
    let (contents, shared) =
      reject-or (not (bytes_eq bytes target_bytes)) _ invalid_hardlink_relation h₂ in
    let same_mode = (==_iff mode target_mode).0 (not-false (mode == target_mode) modes) in
    let same_bytes =
      bytes_eq→eq bytes target_bytes (not-false (bytes_eq bytes target_bytes) contents) in
    (
      cc (same_mode, same_bytes),
      is_some-false target.metadata.metadata.hardlink_to unlinked,
      not-false (shared_metadata_equal metadata target.metadata.metadata)
          (reject-eq-ok _ invalid_hardlink_relation shared),
    )

pub get_elem?-map :
    (entries : List Entry) (i : ℕ) (e : Entry)
    → get_elem? entries i ≡ some e
    → get_elem? (map structure entries) i ≡ some (structure e)
get_elem?-map [] i e h = cc h
get_elem?-map (x ∷ xs) zero e h = ap (λ o. Option.map structure o) h
get_elem?-map (x ∷ xs) (suc i) e h = get_elem?-map xs i e h

check_link-IsLinkOf :
    (before : List Entry) (content : Content) (metadata : Metadata) (link : Option Bytes)
    → check_link before content metadata link ≡ ok tt
    → IsLinkOf before content metadata link
unfolding check_link structure
check_link-IsLinkOf before content metadata none h = tt
check_link-IsLinkOf before (directory mode) metadata (some path) h = cc h
check_link-IsLinkOf before (symlink target) metadata (some path) h = cc h
check_link-IsLinkOf before (file mode bytes) metadata (some path) h =
    let (i, found, h₁) =
      >>=-eq-ok (ok_or (find_path (map structure before) path) invalid_hardlink_relation) _ h in
    let (target, at, checked) =
      >>=-eq-ok (ok_or (get_elem? before i) invalid_hardlink_relation) _ h₁ in
    let (same, unlinked, shared) =
      check_target_sound mode bytes metadata target target.content refl checked in
    let here = ok_or-eq-ok (get_elem? before i) _ at in
    let (r, there, path_of) =
      find_path-eq-some (map structure before) path i
        (ok_or-eq-ok (find_path (map structure before) path) _ found) in
    let r_is : some (structure target) ≡ some r =
      sym (get_elem?-map before i target here) ∙ there in
    (i, target, here, ap (λ o. path_or o) r_is ∙ path_of, same, unlinked, shared)
  where
    path_or : Option Structure.Record → Bytes
    path_or none = []
    path_or (some record') = record'.path

check_relations_sound :
    (before entries : List Entry)
    → check_relations before entries ≡ ok tt
    → HasRelations before entries
unfolding check_relations
check_relations_sound before [] h = tt
check_relations_sound before (e ∷ rest) h =
    let (holes, h₁) = >>-eq-ok (check_holes e.content e.metadata.metadata.holes) _ h in
    let (link, later) =
      >>-eq-ok (check_link before e.content e.metadata.metadata e.metadata.metadata.hardlink_to) _
        h₁ in
    (
      check_holes-IsHoleOf e.content e.metadata.metadata.holes holes,
      check_link-IsLinkOf before e.content e.metadata.metadata e.metadata.metadata.hardlink_to link,
      check_relations_sound (before ++ e ∷ []) rest later,
    )

-- If a snapshot becomes canonical, it is returned unchanged, all paths ascend, every hole of an
-- entry lies in its file and covers zero bytes only, every hard link names an earlier file that
-- is no link and has the same content, mode and shared metadata, and the root has neither holes
-- nor a link.
pub new-eq-ok :
    (snapshot : Snapshot) {canonical : CanonicalSnapshot}
    → new snapshot ≡ ok canonical
    → (canonical.snapshot ≡ snapshot)
      × Ascending (map structure snapshot.entries)
      × HasRelations [] snapshot.entries
      × (snapshot.root.metadata.holes ≡ [])
      × (snapshot.root.metadata.hardlink_to ≡ none)
unfolding new
new-eq-ok snapshot {canonical} h =
    let (valid, h₁) = >>-eq-ok (Structure.validate (map structure snapshot.entries)) _ h in
    let (related, h₂) = >>-eq-ok (check_relations [] snapshot.entries) _ h₁ in
    let (no_holes, h₃) =
      >>-eq-ok (reject (not (is_empty snapshot.root.metadata.holes)) invalid_sparse_extent) _ h₂ in
    let (no_link, h₄) =
      >>-eq-ok (reject (is_some snapshot.root.metadata.hardlink_to) invalid_hardlink_relation) _
        h₃ in
    let same : record { snapshot = snapshot } ≡ canonical = cc h₄ in
    (
      ap (λ c. c.snapshot) (sym same),
      validate-Ascending (map structure snapshot.entries) valid,
      check_relations_sound [] snapshot.entries related,
      is_empty-nil snapshot.root.metadata.holes
          (not-false _ (reject-eq-ok _ invalid_sparse_extent no_holes)),
      is_some-false snapshot.root.metadata.hardlink_to
          (reject-eq-ok _ invalid_hardlink_relation no_link),
    )
  where
    is_empty-nil : (holes : List Hole) → is_empty holes ≡ true → holes ≡ []
    is_empty-nil [] e = refl
    is_empty-nil (x ∷ xs) e = cc e
