-- ===== src/PathFilter/Matching.antt =====
-- rust/src/path_filter.rs: `Filter::includes`.
pub mod Language
pub mod Correct
pub mod Verdict
use difz.Prelude.{
  ℕ, ◌+◌, ◌≡◌, refl, Bool, true, false, not, ◌&&◌, ◌||◌, List, [], ◌∷◌, Option, none, some, ◌==◌,
  is_empty, if◌then◌else◌, Result, ok, err, ◌>>=◌, ◌>>◌, map_err, ok_or, replicate, length,
}
use difz.Prelude.Bytes.{Bytes}
use difz.Prelude.Slices.{contains}
use difz.Prelude.Text.{ascii}
use difz.Prelude.Utf8.{chars}
use difz.Directory.Paths
use difz.PathFilter.Compile.{
  Action, include, exclude, Error, path_error, Token, literal, any_char, star, tree_prefix, class,
  CompiledRule, Filter,
}

-- `a != b` on Booleans.
abbrev pub differs : Bool → Bool → Bool
differs true b = not b
differs false b = b

-- `ch.is_some_and(test)`
abbrev pub is_some_and : Option ℕ → (ℕ → Bool) → Bool
is_some_and none test = false
is_some_and (some c) test = test c

abbrev pub stop : Bool → ℕ
stop crosses = if crosses then b'\n' else b'/'

-- `row[0]`, which is false past the end of a row.
abbrev pub head : List Bool → Bool
head [] = false
head (b ∷ bs) = b

-- `directory_prefix` after the character.
unfoldable pub next_prefix : Option ℕ → Bool → Bool → Bool
next_prefix none after prefix = false
next_prefix (some c) after prefix =
    if c == b'\n' then false else if c == b'/' && after then true else prefix

-- One cell: the character, `next[j]`, `next[j + 1]`, `current[j + 1]`, the updated prefix flag.
unfoldable pub cell : Token → Option ℕ → Bool → Bool → Bool → Bool → Bool
unfolding contains
cell (literal expected) ch here after current prefix = is_some_and ch (λ c. c == expected) && after
cell any_char ch here after current prefix = is_some_and ch (λ c. not (c == b'/')) && after
cell (class negated members) ch here after current prefix =
    is_some_and ch (λ c. differs (contains members c) negated) && after
cell (star crosses) ch here after current prefix =
    here || (is_some_and ch (λ c. not (c == stop crosses)) && current)
cell tree_prefix ch here after current prefix = here || prefix

-- A row from its right end to `j`: `current[j..]`, with the prefix flag after position `j`.
unfoldable pub fill : Token → List ℕ → List Bool → List Bool × Bool
fill token [] next =
    let prefix = next_prefix none false false in
    (cell token none (head next) false false prefix ∷ [], prefix)
fill token (c ∷ cs) [] = ([], false)
fill token (c ∷ cs) (here ∷ next) =
    let (current, before) = fill token cs next in
    let prefix = next_prefix (some c) (head next) before in
    (cell token (some c) here (head next) (head current) prefix ∷ current, prefix)

-- `next.fill(false); next[chars.len()] = true`
unfoldable pub last_row : List ℕ → List Bool
last_row [] = true ∷ []
last_row (c ∷ cs) = false ∷ last_row cs

-- The tokens from the last to the first, each turning the row behind it into its own.
unfoldable pub rows : List Token → List ℕ → List Bool
rows [] text = last_row text
rows (token ∷ tokens) text = (fill token text (rows tokens text)).0

unfoldable pub matches : List Token → List ℕ → Bool
matches tokens text = head (rows tokens text)

abbrev pub is_include : Action → Bool
is_include include = true
is_include exclude = false

-- The last rule that matches decides.
unfoldable pub decide : List CompiledRule → List ℕ → Bool → Bool
decide [] text included = included
decide (rule ∷ rules) text included =
    decide rules text (if matches rule.tokens text then is_include rule.action else included)

unfoldable pub includes : Filter → Bytes → Result Error Bool
includes filter path = do
  map_err path_error (Paths.validate_path path)
  if is_empty filter.rules
      then ok filter.default_included
      else ok_or (chars path) (path_error Paths.invalid_utf8) >>= λ text.
          ok (decide filter.rules text filter.default_included)

tree : matches (tree_prefix ∷ literal b'a' ∷ star false ∷ []) (ascii "x/y/ab") ≡ true
unfolding matches rows fill cell next_prefix last_row
tree = refl

one_level : matches (star false ∷ literal b'a' ∷ []) (ascii "x/a") ≡ false
unfolding matches rows fill cell next_prefix last_row
one_level = refl
