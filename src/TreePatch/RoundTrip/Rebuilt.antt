-- ===== src/TreePatch/RoundTrip/Rebuilt.antt =====
-- rust/src/tree_patch_apply.rs: the entries of a patch that `create` returned, rebuilt.
use difz.Prelude.{
  ℕ, zero, suc, ◌-◌, ◌≤◌, ◌≡◌, refl, sym, ap, ◌∙◌, Bool, true, false, not, List, [], ◌∷◌, ◌++◌,
  append-nil, append_assoc, map, some, arith, length, get_elem?, le→ltb_false, ok, reject, All,
  Pairs, Pairs-get, subst, if◌then◌else◌,
}
use difz.Prelude.Bytes.{Bytes}
use difz.Directory.Structure.{Record, find_path, mode_from_bits}
use difz.Directory.Structure.Order.{Below, Ascending}
use difz.Directory.Structure.Search.{find_path-eq-some_iff}
use difz.Directory.Snapshot.{Content, file, Entry, structure, mode_of, bytes_of}
use difz.Directory.Canonical.Relations.{IsLinkOf, HasRelations, get_elem?-map}
use difz.File.Codec.{Native}
use difz.File.Patch
use difz.File.Patch.RoundTrip.{IsHash, IsLossless, apply-encode, encode-header}
use difz.TreePatch.{out_of_memory, default_limits}
use difz.TreePatch.Decoding.{DecodedEntry}
use difz.TreePatch.Encoding.Selection.{index_of}
use difz.TreePatch.Encoding.Layout.{IsWrittenAs}
use difz.TreePatch.Encoding.Choice.{
  HoldsFile, IsChosen, a_directory, a_symlink, a_link, a_copy, a_delta, a_whole, choose-IsChosen,
}
use difz.TreePatch.Applying.Safety.{output_bytes, entries_of-snoc}
use difz.TreePatch.Applying.{
  Rebuilt, account, file_bytes, entries_of, delta, source_bytes, link_to, rebuild, rebuild_all,
}

-- Entries with the same path and content.
abbrev pub SameFile : Entry → Entry → Type 0
SameFile x y = (x.path ≡ y.path) × (x.content ≡ y.content)

pub same_files :
    (xs ys : List Entry)
    → map (λ e. e.path) xs ≡ map (λ e. e.path) ys
    → map (λ e. e.content) xs ≡ map (λ e. e.content) ys
    → Pairs SameFile xs ys
same_files [] [] p c = tt
same_files [] (y ∷ ys) p c = absurd (cc p)
same_files (x ∷ xs) [] p c = absurd (cc p)
same_files (x ∷ xs) (y ∷ ys) p c =
    let paths : map (λ e. e.path) xs ≡ map (λ e. e.path) ys = cc p in
    let contents : map (λ e. e.content) xs ≡ map (λ e. e.content) ys = cc c in
    ((cc p, cc c), same_files xs ys paths contents)

structures : (xs ys : List Entry) → Pairs SameFile xs ys → map structure xs ≡ map structure ys
unfolding structure
structures [] [] h = refl
structures [] (y ∷ ys) h = absurd h
structures (x ∷ xs) [] h = absurd h
structures (x ∷ xs) (y ∷ ys) h =
    rw (h.0.0, h.0.1) (ap (λ t. structure y ∷ t) (structures xs ys h.1))

rebuilt_at :
    (built : List Rebuilt) (i : ℕ) (e : Entry)
    → get_elem? (entries_of built) i ≡ some e
    → (r : Rebuilt) × (get_elem? built i ≡ some r) × (r.entry ≡ e)
rebuilt_at [] i e h = cc h
rebuilt_at (r ∷ built) zero e h = (r, refl, cc h)
rebuilt_at (r ∷ built) (suc i) e h = rebuilt_at built i e h

Below-front :
    (a : Record) (xs ys : List Entry)
    → All (Below a) (map structure (xs ++ ys))
    → All (Below a) (map structure xs)
Below-front a [] ys h = tt
Below-front a (x ∷ xs) ys h = (h.0, Below-front a xs ys h.1)

Ascending-front :
    (xs ys : List Entry) → Ascending (map structure (xs ++ ys)) → Ascending (map structure xs)
Ascending-front [] ys h = tt
Ascending-front (x ∷ xs) ys h = (Below-front (structure x) xs ys h.0, Ascending-front xs ys h.1)

mode_passes : (mode : ℕ) → mode ≤ 511 → mode_from_bits mode ≡ ok mode
unfolding mode_from_bits
mode_passes mode h = rw (le→ltb_false 511 mode h) refl

account_passes : (remaining n : ℕ) → n ≤ remaining → account remaining n ≡ ok (remaining - n)
unfolding account
account_passes remaining n h = rw (le→ltb_false remaining n h) refl

pub same_total : (xs ys : List Entry) → Pairs SameFile xs ys → output_bytes xs ≡ output_bytes ys
same_total [] [] h = refl
same_total [] (y ∷ ys) h = absurd h
same_total (x ∷ xs) [] h = absurd h
same_total (x ∷ xs) (y ∷ ys) h = rw (h.0.1, same_total xs ys h.1) refl

module _ (native : Native) (reserve : ℕ → Bool) (blake3 : Bytes → Bytes)
    (ample : (n : ℕ) → reserve n ≡ true) (hash : IsHash blake3) (lossless : IsLossless native)
    (full compared : List Entry) (same : Pairs SameFile compared full) where
  -- The full source holds the files that the compared one does.
  source_bytes_of :
      (path bytes : Bytes)
      → HoldsFile compared path bytes
      → source_bytes native reserve blake3 full path ≡ ok bytes
  unfolding source_bytes file_bytes
  source_bytes_of path bytes (mode, held) =
      let (i, x, hit, at, is) = index_of compared path (file mode bytes) held in
      let (y, at', alike) = Pairs-get SameFile compared full i x same at in
      let hit' : find_path (map structure full) path ≡ some i =
        rw (structures compared full same) at hit in
      let content : y.content ≡ file mode bytes = sym alike.1 ∙ is in rw (hit', at', content) refl

  delta_of :
      (previous bytes payload : Bytes) (remaining : ℕ)
      → Patch.encode native reserve blake3 previous bytes ≡ ok payload
      → length bytes ≤ remaining
      → delta native reserve blake3 previous payload remaining ≡ ok bytes
  unfolding delta Patch.header_for
  delta_of previous bytes payload remaining made fits =
      let (frame, begins) = encode-header native reserve blake3 hash previous bytes payload made in
      rw
        (
          begins,
          le→ltb_false remaining (length bytes) fits,
          apply-encode native reserve blake3 hash lossless ample previous bytes payload made,
        )
        refl

  link_of :
      (built : List Rebuilt) (e : Entry) (mode : ℕ) (bytes path : Bytes)
      → Ascending (map structure (entries_of built))
      → e.content ≡ file mode bytes
      → IsLinkOf (entries_of built) e.content e.metadata.metadata (some path)
      → (owned : Bool) × (link_to native reserve blake3 built path ≡ ok (bytes, owned))
  unfolding link_to file_bytes structure
  link_of built e mode bytes path asc is (i, target, at, named, content, unlinked, _) =
      let (r, here, entry) = rebuilt_at built i target at in
      let hit : find_path (map structure (entries_of built)) path ≡ some i =
        (find_path-eq-some_iff (map structure (entries_of built)) path i asc).1
          (structure target, get_elem?-map (entries_of built) i target at, named) in
      let is_file : target.content ≡ file mode bytes = content ∙ is in
      (r.owned, rw (hit, here, entry, unlinked, is_file) refl)

  copied :
      (owned : Bool) (n : ℕ)
      → (if owned then reject (not (reserve n)) out_of_memory else ok tt) ≡ ok tt
  copied true n = rw (ample n) refl
  copied false n = refl

  -- One entry: its content, and what its bytes leave of the budget.
  module _ (built : List Rebuilt) (e : Entry) (d : DecodedEntry) (remaining : ℕ)
      (asc : Ascending (map structure (entries_of built)))
      (linked : IsLinkOf
        (entries_of built)
        e.content
        e.metadata.metadata
        e.metadata.metadata.hardlink_to)
      (fits : length (bytes_of e.content) ≤ remaining) (path : d.path ≡ e.path) where
    Gives : ℕ → Type 0
    Gives mode =
        (owned : Bool) × (rebuild native reserve blake3 full built remaining d mode
          ≡ ok (e.content, owned, remaining - length (bytes_of e.content)))

    rebuild_chosen :
        IsChosen native reserve blake3 default_limits.max_symlink_bytes compared e d.operation
          d.payload
        → Gives (mode_of e.content)
    unfolding Gives rebuild bytes_of mode_of
    rebuild_chosen (a_directory mode is o p) =
        let whole : remaining - 0 ≡ remaining = omega arith in
        (false, rw (o, rebuild, is, whole) refl)
    rebuild_chosen (a_symlink target is o p short) =
        let small : length target ≤ remaining = rw is at fits in
        (false, rw (o, rebuild, is, p, account_passes remaining (length target) small) refl)
    rebuild_chosen (a_link mode bytes is o to) =
        let small : length bytes ≤ remaining = rw is at fits in
        let (owned, found) =
          link_of built e mode bytes d.payload asc is
            (subst (IsLinkOf (entries_of built) e.content e.metadata.metadata) to linked) in
        (
          owned,
          rw
              (
                o,
                rebuild,
                is,
                found,
                account_passes remaining (length bytes) small,
                copied owned (length bytes),
              )
              refl,
        )
    rebuild_chosen (a_copy mode bytes is o p unlinked held) =
        let small : length bytes ≤ remaining = rw is at fits in
        let old = source_bytes_of e.path bytes held in
        (false, rw (o, rebuild, is, path, old, account_passes remaining (length bytes) small) refl)
    rebuild_chosen (a_delta mode bytes previous is o unlinked held changed made) =
        let small : length bytes ≤ remaining = rw is at fits in
        let old = source_bytes_of e.path previous held in
        (
          true,
          rw
              (
                o,
                rebuild,
                is,
                path,
                old,
                delta_of previous bytes d.payload remaining made small,
                account_passes remaining (length bytes) small,
              )
              refl,
        )
    rebuild_chosen (a_whole mode bytes is o p unlinked absent) =
        let small : length bytes ≤ remaining = rw is at fits in
        (false, rw (o, rebuild, is, p, account_passes remaining (length bytes) small) refl)

  step_of :
      (built : List Rebuilt) (d : DecodedEntry) (ds : List DecodedEntry) (remaining : ℕ) {mode : ℕ}
      {content : Content} {owned : Bool} {left : ℕ}
      → mode_from_bits d.mode ≡ ok mode
      → rebuild native reserve blake3 full built remaining d mode ≡ ok (content, owned, left)
      → rebuild_all native reserve blake3 full built remaining (d ∷ ds)
        ≡ rebuild_all native reserve blake3 full
            (built
              ++ record {
                entry = record { path = d.path; content = content; metadata = d.metadata };
                owned = owned;
              }
                ∷ [])
            left
            ds
  unfolding rebuild_all
  step_of built d ds remaining mode here = rw (rebuild_all, mode, here) refl

  same_entry :
      (e : Entry) (d : DecodedEntry)
      → d.path ≡ e.path
      → d.metadata ≡ e.metadata
      → ◌≡◌ {A = Entry} (record { path = d.path; content = e.content; metadata = d.metadata }) e
  same_entry e d path metadata = rw (path, metadata) refl

  -- The loop gives the entries that were written.
  pub rebuild_all_of :
      (built : List Rebuilt) (es : List Entry) (ds : List DecodedEntry) (remaining : ℕ)
      → Ascending (map structure (entries_of built ++ es))
      → HasRelations (entries_of built) es
      → All (λ e. mode_of e.content ≤ 511) es
      → Pairs (IsWrittenAs native reserve blake3 compared) es ds
      → output_bytes es ≤ remaining
      → (all : List Rebuilt) × (rebuild_all native reserve blake3 full built remaining ds ≡ ok all)
        × (entries_of all ≡ entries_of built ++ es)
  unfolding rebuild_all Gives
  rebuild_all_of built [] [] remaining asc related modes pairs fits =
      (built, refl, sym (append-nil (entries_of built)))
  rebuild_all_of built [] (d ∷ ds) remaining asc related modes pairs fits = absurd pairs
  rebuild_all_of built (e ∷ es) [] remaining asc related modes pairs fits = absurd pairs
  rebuild_all_of built (e ∷ es) (d ∷ ds) remaining asc related modes pairs fits =
      let w = pairs.0 in
      let chosen =
        choose-IsChosen native reserve blake3 _ compared e d.operation d.payload w.chosen in
      let before = Ascending-front (entries_of built) (e ∷ es) asc in
      let (owned, here) =
        rebuild_chosen built e d remaining before related.1 (omega (arith, fits)) w.path chosen in
      let mode : mode_from_bits d.mode ≡ ok (mode_of e.content) =
        rw w.mode (mode_passes (mode_of e.content) modes.0) in
      let r : Rebuilt = record { entry = e; owned = owned } in
      let grown : entries_of (built ++ r ∷ []) ≡ entries_of built ++ e ∷ [] =
        entries_of-snoc built r in
      let next : entries_of (built ++ r ∷ []) ++ es ≡ entries_of built ++ e ∷ es =
        ap (λ t. t ++ es) grown ∙ append_assoc (entries_of built) (e ∷ []) es in
      let (all, later, entries) =
        rebuild_all_of (built ++ r ∷ []) es ds (remaining - length (bytes_of e.content))
          (rw next asc) (rw grown related.2) modes.1 pairs.1 (omega (arith, fits)) in
      (
        all,
        step_of built d ds remaining mode here
            ∙ ap
                (λ x.
                  rebuild_all native reserve blake3 full
                    (built ++ record { entry = x; owned = owned } ∷ [])
                    (remaining - length (bytes_of e.content)) ds)
                (same_entry e d w.path w.metadata)
            ∙ later,
        entries ∙ next,
      )
