-- ===== src/Metadata/Encoding/Layout.antt =====
-- rust/src/metadata_canonical.rs: the encoding as one byte string, and the functions that make it.
use native.Mathlib.Nat.{zero-add}
use difz.Prelude.{
  ℕ, ◌+◌, ◌^◌, ◌<◌, ◌≡◌, sym, ap, Bool, true, List, [], ◌∷◌, ◌++◌, append-nil, append_assoc, arith,
  concat_map, join, join-append, join-concat_map, length, length-append, lt→ltb, ok, ok_or,
  >>=-eq-ok, ok_or-eq-ok, >>-eq-ok, reject, not,
}
use difz.Prelude.Bytes.{Bytes, to_le}
use difz.Prelude.Cursor.{checked_add}
use difz.Metadata.Kinds.{bad_metadata, out_of_memory}
use difz.Metadata.Records.{Xattr, Ace, Times, Hole, Metadata}
use difz.Metadata.Validation.{CanonicalMetadata}
use difz.Metadata.Encoding.{
  xattr_chunks, ace_chunks, native_acl_chunks, time_flags, time_chunks, info_chunks, hole_chunks,
  link_chunks, chunks, put_all, write, encoded_len, encode,
}

-- All that `write` puts.
abbrev pub written : Metadata → Bytes
written m = join (chunks m)

abbrev pub xattr_bytes : Xattr → Bytes
xattr_bytes x = join (xattr_chunks x)

abbrev pub ace_bytes : Ace → Bytes
ace_bytes a = join (ace_chunks a)

abbrev pub hole_bytes : Hole → Bytes
hole_bytes h = join (hole_chunks h)

-- A counted list: the count, then the items.
abbrev pub counted {ℓ} : {A : Type ℓ} → (A → Bytes) → List A → Bytes
counted item xs = to_le 4 (length xs) ++ concat_map item xs

abbrev pub times_bytes : Times → Bytes
times_bytes times =
    time_flags times
    ∷ (join (time_chunks times.mtime)
        ++ (join (time_chunks times.atime) ++ join (time_chunks times.btime)))

abbrev pub sections : Metadata → Bytes
sections m =
    counted xattr_bytes m.xattrs
    ++ (counted ace_bytes m.aces
        ++ (join (native_acl_chunks m.native_acl)
            ++ (times_bytes m.times
                ++ (to_le 4 m.finder_flags
                    ++ (join (info_chunks m.finder_info)
                        ++ (counted hole_bytes m.holes ++ join (link_chunks m.hardlink_to)))))))

pub written-eq-sections : (m : Metadata) → written m ≡ sections m
unfolding chunks
written-eq-sections m = simp (join-append, join-concat_map, append_assoc)

-- The loop that counts, and the loop that copies, from any point on.
put_all-count :
    (bytes : List Bytes) (n : ℕ)
    → n + length (join bytes) < 2 ^ 64
    → put_all (λ k chunk. ok_or (checked_add k (length chunk)) bad_metadata) n bytes
      ≡ ok (n + length (join bytes))
unfolding put_all
put_all-count [] n h = ap ok (omega arith)
put_all-count (b ∷ bs) n h =
    let sum : n + length (b ++ join bs) ≡ n + length b + length (join bs) =
      omega (arith, length-append b (join bs)) in
    rw (lt→ltb (n + length b) (2 ^ 64) (omega (arith, sum)), sum)
      (put_all-count bs (n + length b) (omega (arith, sum)))

put_all-copy :
    (bytes : List Bytes) (output : Bytes)
    → put_all (λ out chunk. ok (out ++ chunk)) output bytes ≡ ok (output ++ join bytes)
unfolding put_all
put_all-copy [] output = ap ok (sym (append-nil output))
put_all-copy (b ∷ bs) output = rw (put_all-copy bs (output ++ b), append_assoc)

pub encoded_len-written :
    (m : CanonicalMetadata)
    → length (written m.metadata) < 2 ^ 64
    → encoded_len m ≡ ok (length (written m.metadata))
unfolding encoded_len write
encoded_len-written m h = rw zero-add at (put_all-count (chunks m.metadata) 0 (rw zero-add h))

pub encode-written :
    (reserve : ℕ → Bool) (m : CanonicalMetadata)
    → length (written m.metadata) < 2 ^ 64
    → reserve (length (written m.metadata)) ≡ true
    → encode reserve m ≡ ok (written m.metadata)
unfolding encode write
encode-written reserve m h r = rw (encoded_len-written m h, r) (put_all-copy (chunks m.metadata) [])

-- Whenever `encode` succeeds, it returns what `write` puts.
pub encode-eq-ok :
    (reserve : ℕ → Bool) (m : CanonicalMetadata) {bytes : Bytes}
    → encode reserve m ≡ ok bytes
    → bytes ≡ written m.metadata
unfolding encode write
encode-eq-ok reserve m {bytes} h =
    let (size, _, h₁) = >>=-eq-ok (encoded_len m) _ h in
    let (_, h₂) = >>-eq-ok (reject (not (reserve size)) out_of_memory) _ h₁ in
    cc (h₂, put_all-copy (chunks m.metadata) [])

put_all-counted :
    (bytes : List Bytes) (n : ℕ) {size : ℕ}
    → put_all (λ k chunk. ok_or (checked_add k (length chunk)) bad_metadata) n bytes ≡ ok size
    → size ≡ n + length (join bytes)
unfolding put_all
put_all-counted [] n {size} h = let same : n ≡ size = cc h in omega (arith, same)
put_all-counted (b ∷ bs) n h =
    let (next, first, later) = >>=-eq-ok (ok_or (checked_add n (length b)) bad_metadata) _ h in
    let sum : next ≡ n + length b =
      ground (arith, ok_or-eq-ok (checked_add n (length b)) bad_metadata first) in
    omega (arith, put_all-counted bs next later, sum, length-append b (join bs))

-- Whenever `encoded_len` succeeds, it returns the length of what `write` puts.
pub encoded_len-eq-ok :
    (m : CanonicalMetadata) {size : ℕ}
    → encoded_len m ≡ ok size
    → size ≡ length (written m.metadata)
unfolding encoded_len write
encoded_len-eq-ok m h = rw zero-add at (put_all-counted (chunks m.metadata) 0 h)
