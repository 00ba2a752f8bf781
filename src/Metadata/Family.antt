-- ===== src/Metadata/Family.antt =====
-- rust/src/metadata.rs, `families!`: the six metadata families with their tags and names.
use difz.Prelude.{ℕ, ◌-◌, ◌^◌, List, [], ◌∷◌}
use difz.Prelude.Bytes.{Bytes}
use difz.Prelude.Text.{ascii}

pub data Family : Type 0 where
  xattr acl timestamps finder sparse hardlink : Family

abbrev pub all : List Family
all = xattr ∷ acl ∷ timestamps ∷ finder ∷ sparse ∷ hardlink ∷ []

unfoldable pub tag : Family → ℕ
tag xattr = 1
tag acl = 2
tag timestamps = 3
tag finder = 4
tag sparse = 5
tag hardlink = 6

-- `1 << (tag - 1)`
unfoldable pub bit : Family → ℕ
unfolding tag
bit family = 2 ^ (tag family - 1)

-- The union of the bits.
abbrev pub family_mask : ℕ
family_mask = 0x3f

unfoldable pub name : Family → Bytes
name xattr = ascii "xattr"
name acl = ascii "acl"
name timestamps = ascii "timestamps"
name finder = ascii "finder"
name sparse = ascii "sparse"
name hardlink = ascii "hardlink"
