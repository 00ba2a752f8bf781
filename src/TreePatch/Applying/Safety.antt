-- ===== src/TreePatch/Applying/Safety.antt =====
-- rust/src/tree_patch_apply.rs: what holds of a tree that `apply` returned, whatever the patch was.
use difz.Prelude.{
  ℕ, ◌+◌, ◌≤◌, ◌≡◌, refl, sym, ap, ◌∙◌, Bool, not, List, [], ◌∷◌, ◌++◌, map, append-nil, arith,
  length, Result, ok, map_err, reject, >>-eq-ok, >>=-eq-ok, reject-eq-ok, map_err-eq-ok, not-false,
  if◌then◌else◌, subst,
}
use difz.Prelude.Bytes.{Bytes, bytes_eq, bytes_eq→eq}
use difz.Directory.Structure.{mode_from_bits}
use difz.Directory.Snapshot.{Content, Entry, Snapshot, bytes_of}
use difz.Directory.Canonical
use difz.Directory.Canonical.{CanonicalSnapshot}
use difz.Directory.Canonical.Relations.{new-eq-ok}
use difz.File.Codec.{Native}
use difz.TreePatch.{
  Error, snapshot_error, out_of_memory, source_hash_mismatch, target_hash_mismatch,
}
use difz.TreePatch.Decoding
use difz.TreePatch.Decoding.{Operation, DecodedEntry, ParsedPatch}
use difz.TreePatch.Encoding.{masked}
use difz.TreePatch.Applying.{
  ApplyLimits, Rebuilt, account, source_bytes, delta, link_to, rebuild, rebuild_all, entries_of,
  apply,
}

-- The bytes of all files and link targets.
abbrev pub output_bytes : List Entry → ℕ
output_bytes [] = 0
output_bytes (e ∷ es) = length (bytes_of e.content) + output_bytes es

output_bytes-snoc :
    (es : List Entry) (e : Entry)
    → output_bytes (es ++ e ∷ []) ≡ output_bytes es + length (bytes_of e.content)
output_bytes-snoc [] e = omega arith
output_bytes-snoc (x ∷ es) e = omega (arith, output_bytes-snoc es e)

account-eq-ok : (remaining n : ℕ) {left : ℕ} → account remaining n ≡ ok left → left + n ≡ remaining
unfolding account
account-eq-ok remaining n h = ground arith

pub entries_of-snoc :
    (built : List Rebuilt) (r : Rebuilt)
    → entries_of (built ++ r ∷ []) ≡ entries_of built ++ r.entry ∷ []
entries_of-snoc [] r = refl
entries_of-snoc (b ∷ built) r = ap (λ t. b.entry ∷ t) (entries_of-snoc built r)

map-snoc {ℓ κ} :
    {A : Type ℓ} {B : Type κ} (f : A → B) (xs : List A) (x : A) (ys : List B)
    → map f (xs ++ x ∷ []) ++ ys ≡ map f xs ++ f x ∷ ys
map-snoc f [] x ys = refl
map-snoc f (y ∷ xs) x ys = ap (λ t. f y ∷ t) (map-snoc f xs x ys)

module _ (native : Native) (reserve : ℕ → Bool) (blake3 : Bytes → Bytes) where
  Costs : Content × Bool × ℕ → ℕ → Type 0
  Costs (content, owned, left) remaining = left + length (bytes_of content) ≡ remaining

  ends :
      {a r : Content × Bool × ℕ} (remaining : ℕ)
      → ◌≡◌ {A = Result Error (Content × Bool × ℕ)} (ok a) (ok r)
      → Costs a remaining
      → Costs r remaining
  ends remaining e c = let same : _ ≡ _ = ok_injective e in subst (λ t. Costs t remaining) same c
    where
      ok_injective :
          {a r : Content × Bool × ℕ}
          → ◌≡◌ {A = Result Error (Content × Bool × ℕ)} (ok a) (ok r)
          → a ≡ r
      ok_injective h = cc h

  -- What an entry's bytes take is taken from the budget.
  rebuild_cost :
      (source : List Entry) (built : List Rebuilt) (remaining : ℕ) (operation : Operation)
      (d : DecodedEntry) (mode : ℕ) {r : Content × Bool × ℕ}
      → d.operation ≡ operation
      → rebuild native reserve blake3 source built remaining d mode ≡ ok r
      → Costs r remaining
  unfolding rebuild Costs bytes_of
  rebuild_cost source built remaining Operation.directory d mode is h =
      ends remaining (rw (rebuild, is) at h) (omega arith)
  rebuild_cost source built remaining Operation.symlink d mode is h =
      let (left, cost, made) =
        >>=-eq-ok (account remaining (length d.payload)) _ (rw (rebuild, is) at h) in
      ends remaining made (account-eq-ok remaining (length d.payload) cost)
  rebuild_cost source built remaining Operation.file_raw d mode is h =
      let (left, cost, made) =
        >>=-eq-ok (account remaining (length d.payload)) _ (rw (rebuild, is) at h) in
      ends remaining made (account-eq-ok remaining (length d.payload) cost)
  rebuild_cost source built remaining Operation.file_copy d mode is h =
      let (bytes, _, h₁) =
        >>=-eq-ok (source_bytes native reserve blake3 source d.path) _ (rw (rebuild, is) at h) in
      let (left, cost, made) = >>=-eq-ok (account remaining (length bytes)) _ h₁ in
      ends remaining made (account-eq-ok remaining (length bytes) cost)
  rebuild_cost source built remaining Operation.file_delta d mode is h =
      let (old, _, h₁) =
        >>=-eq-ok (source_bytes native reserve blake3 source d.path) _ (rw (rebuild, is) at h) in
      let (bytes, _, h₂) = >>=-eq-ok (delta native reserve blake3 old d.payload remaining) _ h₁ in
      let (left, cost, made) = >>=-eq-ok (account remaining (length bytes)) _ h₂ in
      ends remaining made (account-eq-ok remaining (length bytes) cost)
  rebuild_cost source built remaining Operation.file_hardlink d mode is h =
      let ((bytes, owned), _, h₁) =
        >>=-eq-ok (link_to native reserve blake3 built d.payload) _ (rw (rebuild, is) at h) in
      let (left, cost, h₂) = >>=-eq-ok (account remaining (length bytes)) _ h₁ in
      let (_, made) =
        >>-eq-ok (if owned then reject (not (reserve (length bytes))) out_of_memory else ok tt) _
          h₂ in
      ends remaining made (account-eq-ok remaining (length bytes) cost)

  rebuild_all_cost :
      (source : List Entry) (built : List Rebuilt) (remaining : ℕ) (ds : List DecodedEntry)
      {all : List Rebuilt}
      → rebuild_all native reserve blake3 source built remaining ds ≡ ok all
      → (output_bytes (entries_of all) ≤ output_bytes (entries_of built) + remaining)
        × (map (λ e. e.path) (entries_of all)
            ≡ map (λ e. e.path) (entries_of built) ++ map (λ d. d.path) ds)
        × (map (λ e. e.metadata) (entries_of all)
            ≡ map (λ e. e.metadata) (entries_of built) ++ map (λ d. d.metadata) ds)
  unfolding rebuild_all
  rebuild_all_cost source built remaining [] {all} h =
      let same : built ≡ all = cc h in
      rw (← same) (omega arith, sym (append-nil _), sym (append-nil _))
  rebuild_all_cost source built remaining (d ∷ ds) h =
      let (mode, _, h₁) = >>=-eq-ok (map_err snapshot_error (mode_from_bits d.mode)) _ h in
      let ((content, owned, left), here, h₂) =
        >>=-eq-ok (rebuild native reserve blake3 source built remaining d mode) _ h₁ in
      let e : Entry = record { path = d.path; content = content; metadata = d.metadata } in
      let r : Rebuilt = record { entry = e; owned = owned } in
      let cost : left + length (bytes_of content) ≡ remaining =
        unfold Costs in rebuild_cost source built remaining d.operation d mode refl here in
      let (spent, paths, records) = rebuild_all_cost source (built ++ r ∷ []) left ds h₂ in
      let grown : entries_of (built ++ r ∷ []) ≡ entries_of built ++ e ∷ [] =
        entries_of-snoc built r in
      (
        omega (arith, spent, cost, ap output_bytes grown, output_bytes-snoc (entries_of built) e),
        paths
            ∙ rw grown
                (map-snoc (λ (x : Entry). x.path) (entries_of built) e (map (λ x. x.path) ds)),
        records
            ∙ rw grown (
                map-snoc (λ (x : Entry). x.metadata) (entries_of built) e
                  (map (λ x. x.metadata) ds)),
      )

  -- What binds a result to the patch and the source.
  pub record IsBound (source : CanonicalSnapshot) (limits : ApplyLimits) (p : ParsedPatch)
      (result : CanonicalSnapshot) : Type 0 where
    pub compared : CanonicalSnapshot
    pub source_masked : masked native reserve blake3 source p.header.omit ≡ ok compared
    pub source_hash : Canonical.hash blake3 compared ≡ p.header.source_hash
    pub target_hash : Canonical.hash blake3 result ≡ p.header.target_hash
    pub canonical : Canonical.new result.snapshot ≡ ok result
    pub paths : map (λ e. e.path) result.snapshot.entries ≡ map (λ d. d.path) p.entries
    pub records : map (λ e. e.metadata) result.snapshot.entries ≡ map (λ d. d.metadata) p.entries
    pub root : result.snapshot.root ≡ p.root
    pub output : output_bytes result.snapshot.entries ≤ limits.max_output_bytes

  -- If `apply` succeeds, the patch decodes, the source without the omitted families has the
  -- source hash of the header, and the result has its target hash, is a canonical snapshot with
  -- the patch's paths, records and root record in their order, and its files and link targets
  -- take no more bytes than the limit.
  pub apply-eq-ok_tree :
      (source : CanonicalSnapshot) (patch : Bytes) (limits : ApplyLimits)
      (result : CanonicalSnapshot)
      → apply native reserve blake3 source patch limits ≡ ok result
      → (p : ParsedPatch) × (Decoding.decode reserve blake3 patch limits.patch ≡ ok p)
        × IsBound source limits p result
  unfolding apply
  apply-eq-ok_tree source patch limits result h =
      let (p, decoded, h₁) = >>=-eq-ok (Decoding.decode reserve blake3 patch limits.patch) _ h in
      let (compared, source_masked, h₂) =
        >>=-eq-ok (masked native reserve blake3 source p.header.omit) _ h₁ in
      let (old, h₃) =
        >>-eq-ok
          (reject (not (bytes_eq (Canonical.hash blake3 compared) p.header.source_hash))
            source_hash_mismatch)
          _ h₂ in
      let (_, h₄) = >>-eq-ok (reject (not (reserve (length p.entries))) out_of_memory) _ h₃ in
      let (all, built, h₅) =
        >>=-eq-ok
          (rebuild_all native reserve blake3 source.snapshot.entries [] limits.max_output_bytes
            p.entries)
          _ h₄ in
      let snapshot : Snapshot = record { entries = entries_of all; root = p.root } in
      let (made, canonical, h₆) =
        >>=-eq-ok (map_err snapshot_error (Canonical.new snapshot)) _ h₅ in
      let (new, h₇) =
        >>-eq-ok
          (reject (not (bytes_eq (Canonical.hash blake3 made) p.header.target_hash))
            target_hash_mismatch)
          _ h₆ in
      let result_is : made ≡ result = cc h₇ in
      let created = map_err-eq-ok snapshot_error (Canonical.new snapshot) canonical in
      let made_is : made ≡ record { snapshot = snapshot } =
        ap (λ x. record { snapshot = x }) (new-eq-ok snapshot created).0 in
      let whole : result ≡ record { snapshot = snapshot } = sym result_is ∙ made_is in
      let (spent, paths, records) =
        rebuild_all_cost source.snapshot.entries [] limits.max_output_bytes p.entries built in
      (
        p,
        decoded,
        subst (IsBound source limits p) (sym whole) (record {
          compared = compared;
          source_masked = source_masked;
          source_hash = bytes_eq→eq _ _ (not-false _ (reject-eq-ok _ source_hash_mismatch old));
          target_hash =
              bytes_eq→eq _ _
                (not-false _ (reject-eq-ok _ target_hash_mismatch (rw made_is at new)));
          canonical = created ∙ ap ok made_is;
          paths = paths;
          records = records;
          root = refl;
          output = omega (arith, spent);
        }),
      )
