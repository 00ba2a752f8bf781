-- ===== src/Metadata/Omit.antt =====
-- rust/src/metadata.rs, `Omit`: a mask of families, and the comma-separated list that names them.
use difz.Prelude.{
  ℕ, ◌≡◌, Bool, not, List, [], ◌∷◌, Option, none, some, bit_and, bit_or, ◌==◌, is_empty,
  if◌then◌else◌, Result, ok, ok_or, ◌>>=◌, ◌>>◌, reject, refl,
}
use difz.Prelude.Bytes.{Bytes, bytes_eq}
use difz.Prelude.Slices.{split_on}
use difz.Prelude.Text.{ascii}
use difz.Metadata.Kinds.{Error, invalid_omit_mask, empty_family, unknown_family, duplicate_family}
use difz.Metadata.Family
use difz.Metadata.Family.{Family}

pub record Omit : Type 0 where
  pub bits : ℕ

abbrev pub nothing : Omit
nothing = record { bits = 0 }

-- `bits & !MASK != 0` on a u32.
unfoldable pub from_bits : ℕ → Result Error Omit
from_bits bits = do
  reject (not (bit_and bits 0xffff_ffc0 == 0)) invalid_omit_mask
  ok (record { bits = bits })

unfoldable pub contains : Omit → Family → Bool
unfolding Family.bit
contains omit family = not (bit_and omit.bits (Family.bit family) == 0)

-- `while let Some(tail) = name.strip_prefix(b" ")`, and the same at the end.
unfoldable pub trim_start : Bytes → Bytes
trim_start [] = []
trim_start (b ∷ bs) = let rest = trim_start bs in if b == b' ' then rest else b ∷ bs

abbrev keep_unless_blank : ℕ → Bytes → Bytes
keep_unless_blank b [] = if b == b' ' then [] else b ∷ []
keep_unless_blank b (c ∷ cs) = b ∷ c ∷ cs

unfoldable pub trim_end : Bytes → Bytes
trim_end [] = []
trim_end (b ∷ bs) = keep_unless_blank b (trim_end bs)

-- `Family::ALL.iter().find(|family| family.name() == name)`
unfoldable pub find_family : List Family → Bytes → Option Family
unfolding Family.name bytes_eq
find_family [] text = none
find_family (family ∷ families) text =
    if bytes_eq (Family.name family) text then some family else find_family families text

-- One name of the list: the mask with its bit.
unfoldable pub add_name : Omit → Bytes → Result Error Omit
unfolding trim_start trim_end find_family contains
add_name omit part = do
  let text = trim_end (trim_start part)
  reject (is_empty text) empty_family
  family ← ok_or (find_family Family.all text) unknown_family
  reject (contains omit family) duplicate_family
  ok (record { bits = bit_or omit.bits (Family.bit family) })

unfoldable pub add_names : Omit → List Bytes → Result Error Omit
unfolding add_name
add_names omit [] = ok omit
add_names omit (part ∷ parts) = do omit' ← add_name omit part; add_names omit' parts

unfoldable pub parse : Bytes → Result Error Omit
unfolding add_names split_on
parse text = if is_empty text then ok nothing else add_names nothing (split_on b',' text)

spaced_list : parse (ascii " acl ,sparse") ≡ ok (record { bits = 18 })
unfolding parse
spaced_list = refl
