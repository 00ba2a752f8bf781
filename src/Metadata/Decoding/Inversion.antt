-- ===== src/Metadata/Decoding/Inversion.antt =====
-- rust/src/metadata_decode.rs: what each reader of the decoder consumed.
use difz.Prelude.{
  ℕ, ◌^◌, ◌<◌, ◌≡◌, refl, sym, ◌∙◌, Bool, true, false, [], ◌∷◌, append-nil, append_assoc, none,
  some, arith, join, ok, ◌==◌, ==_iff, All, is_some, Bool-cases, inl, inr,
}
use difz.Prelude.Bits.{clear_seven}
use difz.Prelude.Bytes.{Bytes, IsByte, to_le}
use difz.Prelude.Cursor.{lift}
use difz.Prelude.Cursor.Parses.{
  Parses, Parses-pure, Parses-lift, Parses-bind, Parses-take_bytes, Parses-word, Parses-byte,
  Parses-mono,
}
use difz.Metadata.Kinds.{
  class_tag, class_try_from, ace_tag, ace_try_from, os_tag, os_try_from, truncated_metadata,
  XattrClass, logical, raw, AceTag, owner, Os, linux,
}
use difz.Metadata.Time
use difz.Metadata.Time.{Time}
use difz.Metadata.Time.RoundTrip.{time-eq-ok}
use difz.Metadata.Records.{
  NativeAcl, Permissions, permissions_from_bits, IsTime, OptionAll, IsXattr, IsAce, IsHole,
}
use difz.Metadata.Encoding.{xattr_chunks, ace_chunks, native_acl_chunks, time_chunks, hole_chunks}
use difz.Metadata.Encoding.Layout.{xattr_bytes, ace_bytes, hole_bytes}
use difz.Metadata.Decoding.{
  take, byte, word32, word64, blob, time, xattr, ace, native_acl_from, native_acl, time_if, hole,
}
use difz.Metadata.Decoding.Reading.{blob_bytes}

class_tag_of : (n : ℕ) (c : XattrClass) → class_try_from n ≡ ok c → class_tag c ≡ n
unfolding class_try_from class_tag
class_tag_of n logical h = ground arith
class_tag_of n raw h = ground arith

ace_tag_of : (n : ℕ) (t : AceTag) → ace_try_from n ≡ ok t → ace_tag t ≡ n
unfolding ace_try_from ace_tag
ace_tag_of n owner h = ground arith
ace_tag_of n _ h = ground arith

os_tag_of : (n : ℕ) (o : Os) → os_try_from n ≡ ok o → os_tag o ≡ n
unfolding os_try_from os_tag
os_tag_of n linux h = ground arith
os_tag_of n _ h = ground arith

permissions_of :
    (n : ℕ) (p : Permissions) → n < 256 → permissions_from_bits n ≡ ok p → (p.bits ≡ n) × (n < 8)
unfolding permissions_from_bits
permissions_of n p h e = ground (arith, clear_seven n)

pub Parses-word32 : Parses word32 (λ v xs. (xs ≡ to_le 4 v) × (v < 2 ^ 32))
unfolding word32
Parses-word32 = Parses-word truncated_metadata 4

Parses-word64 : Parses word64 (λ v xs. (xs ≡ to_le 8 v) × (v < 2 ^ 64))
unfolding word64
Parses-word64 = Parses-word truncated_metadata 8

-- A value with the predicate `P`, from its encoding by `write`.
abbrev pub Written {ℓ κ} : {A : Type ℓ} → (A → Bytes) → (A → Type κ) → A → Bytes → Type κ
Written write P v xs = (xs ≡ write v) × P v

pub Parses-blob : Parses blob (Written blob_bytes (All IsByte))
unfolding blob take
Parses-blob = Parses-bind _ _ word32 _ Parses-word32 λ n xs h.
    Parses-mono _ (λ v ys k. (rw (h.0, k.0, k.1), rw k.0 k.2))
      (Parses-take_bytes truncated_metadata n)

pub Parses-xattr : Parses xattr (Written xattr_bytes IsXattr)
unfolding xattr byte xattr_chunks
Parses-xattr = Parses-bind _ _ byte _ (Parses-byte truncated_metadata) λ tag x₁ h₁.
    Parses-bind (λ class xs. (xs ≡ []) × (class_tag class ≡ tag)) _ (lift (class_try_from tag)) _
      (Parses-lift _ (class_try_from tag) λ class e. (refl, class_tag_of tag class e))
      λ class x₂ h₂. Parses-bind _ _ blob _ Parses-blob λ name x₃ h₃.
        Parses-bind _ _ blob _ Parses-blob λ value x₄ h₄.
          Parses-pure _ (record { class = class; name = name; value = value })
            (rw (h₁.0, h₂.0, h₂.1, h₃.0, h₄.0) (simp append_assoc), (h₃.1, h₄.1))

pub Parses-ace : Parses ace (Written ace_bytes IsAce)
unfolding ace byte ace_chunks
Parses-ace = Parses-bind _ _ byte _ (Parses-byte truncated_metadata) λ code x₁ h₁.
    Parses-bind (λ tag xs. (xs ≡ []) × (ace_tag tag ≡ code)) _ (lift (ace_try_from code)) _
      (Parses-lift _ (ace_try_from code) λ tag e. (refl, ace_tag_of code tag e))
      λ tag x₂ h₂. Parses-bind _ _ byte _ (Parses-byte truncated_metadata) λ bits x₃ h₃.
        Parses-bind (λ (p : Permissions) xs. (xs ≡ []) × (p.bits ≡ bits) × (bits < 8)) _
          (lift (permissions_from_bits bits)) _
          (Parses-lift _ (permissions_from_bits bits)
            λ p e. let (same, small) = permissions_of bits p h₃.1 e in (refl, same, small))
          λ permissions x₄ h₄. Parses-bind _ _ blob _ Parses-blob λ name x₅ h₅.
            Parses-pure _ (record { tag = tag; permissions = permissions; name = name })
              (
                rw (h₁.0, h₂.0, h₂.1, h₃.0, h₄.0, h₄.1, h₅.0) (simp append_assoc),
                (rw h₄.1 h₄.2, h₅.1),
              )

pub Parses-hole : Parses hole (Written hole_bytes IsHole)
unfolding hole hole_chunks
Parses-hole = Parses-bind _ _ word64 _ Parses-word64 λ offset x₁ h₁.
    Parses-bind _ _ word64 _ Parses-word64 λ size x₂ h₂.
      Parses-pure _ (record { offset = offset; size = size }) (rw (h₁.0, h₂.0), (h₁.1, h₂.1))

abbrev pub AclTyped : NativeAcl → Type 0
AclTyped acl = All IsByte acl.bytes

Parses-native_acl_from :
    (code : ℕ)
    → Parses
        (native_acl_from code)
        (λ acl xs. (code ∷ xs ≡ join (native_acl_chunks acl)) × OptionAll AclTyped acl)
unfolding native_acl_from native_acl_chunks
Parses-native_acl_from code = elim (Bool-cases (code == 0)) [
  | inl zero_code ↦
      let none_code : code ≡ 0 = (==_iff code 0).0 zero_code in
      rw zero_code (Parses-pure _ none (rw none_code, tt))
  | inr other ↦ rw other (
      Parses-bind (λ origin xs. (xs ≡ []) × (os_tag origin ≡ code)) _ (lift (os_try_from code)) _
        (Parses-lift _ (os_try_from code) λ origin e. (refl, os_tag_of code origin e))
        λ origin x₁ h₁. Parses-bind _ _ blob _ Parses-blob λ bytes x₂ h₂.
          Parses-pure _ (some (record { origin = origin; bytes = bytes }))
            (rw (h₁.0, h₁.1, h₂.0) (simp append_assoc), h₂.1))
]

pub Parses-native_acl :
    Parses native_acl (Written (λ acl. join (native_acl_chunks acl)) (OptionAll AclTyped))
unfolding native_acl byte
Parses-native_acl =
    Parses-bind _ _ byte _ (Parses-byte truncated_metadata)
      λ code x₁ h₁. Parses-mono _ (λ acl ys k. (rw h₁.0 k.0, k.1)) (Parses-native_acl_from code)

Parses-time : Parses time (Written Time.time_bytes IsTime)
unfolding time take
Parses-time = Parses-bind _ _ (take 12) _ (Parses-take_bytes truncated_metadata 12) λ bytes x₁ h₁.
    Parses-lift _ (Time.decode bytes) λ t e.
      let (same, sec, nsec) = time-eq-ok bytes t (rw h₁.0 h₁.2) e in
      (append-nil x₁ ∙ sym h₁.0 ∙ same, (sec, omega arith))

pub Parses-time_if :
    (b : Bool)
    → Parses
        (time_if b)
        (λ t xs. (xs ≡ join (time_chunks t)) × (is_some t ≡ b) × OptionAll IsTime t)
unfolding time_if time_chunks
Parses-time_if true = Parses-bind _ _ time _ Parses-time λ t x₁ h₁.
    Parses-pure _ (some t) (rw h₁.0 (unfold Time.time_bytes in simp append_assoc), refl, h₁.1)
Parses-time_if false = Parses-pure _ none (refl, refl, tt)
