-- ===== src/Prelude/Text.antt =====
-- The source's byte-string literals.
use Prim.Native.Char.{code}
use Prim.Native.String.{String}
use difz.Prelude.{[], ◌∷◌}
use difz.Prelude.Bytes.{Bytes}

-- The code points of a text: its bytes, as every literal of the source is ASCII.
abbrev pub ascii : String → Bytes
ascii String.[] = []
ascii (String.◌∷◌ c s) = code c ∷ ascii s
