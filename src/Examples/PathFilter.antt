-- ===== src/Examples/PathFilter.antt =====
-- rust/src/path_filter.rs: a filter that includes sources and excludes one directory.
use difz.Prelude.{◌≡◌, ◌↔◌, refl, true, false, List, [], ◌∷◌, some, ok}
use difz.Prelude.Bytes.{Bytes}
use difz.Prelude.Text.{ascii}
use difz.Prelude.Utf8.{chars}
use difz.Directory.Paths
use difz.PathFilter.Compile.Writing.{compile-write}
use difz.PathFilter.Compile.{
  tokenize, any_char, scan, open_class, class_body, class_members, compile, class, include, exclude,
  Token, literal, star, tree_prefix, CompiledRule, Filter,
}
use difz.PathFilter.Matching
use difz.PathFilter.Matching.{matches, is_include, includes}
use difz.PathFilter.Matching.Language.{Matches}
use difz.PathFilter.Matching.Correct.{matches-eq-true_iff}
use difz.PathFilter.Matching.Verdict.{Skips, includes_last_match, includes_no_match}

abbrev under_a : List Token
under_a = tree_prefix ∷ literal b'a' ∷ star true ∷ []

abbrev only_b : List Token
only_b = literal b'b' ∷ []

abbrev include_a : CompiledRule
include_a = record { action = include; tokens = under_a }

abbrev exclude_b : CompiledRule
exclude_b = record { action = exclude; tokens = only_b }

abbrev filter : Filter
filter = record { rules = include_a ∷ exclude_b ∷ []; default_included = false }

abbrev path : Bytes
path = ascii "x/ab"

abbrev other_path : Bytes
other_path = ascii "x/c"

matches-eq-true_iff_example : (matches under_a path ≡ true) ↔ Matches under_a path
matches-eq-true_iff_example = matches-eq-true_iff under_a path

path_valid : Paths.validate_path path ≡ ok tt
unfolding Paths.validate_path Paths.validate_text
path_valid = refl

path_chars : chars path ≡ some path
unfolding chars
path_chars = refl

under_a_hits : matches under_a path ≡ true
unfolding matches Matching.rows Matching.fill Matching.cell Matching.next_prefix Matching.last_row
under_a_hits = refl

only_b_misses : (matches only_b path ≡ false) × (matches only_b other_path ≡ false)
unfolding matches Matching.rows Matching.fill Matching.cell Matching.next_prefix Matching.last_row
only_b_misses = (refl, refl)

under_a_misses : matches under_a other_path ≡ false
unfolding matches Matching.rows Matching.fill Matching.cell Matching.next_prefix Matching.last_row
under_a_misses = refl

under_a-Matches : Matches under_a path
under_a-Matches = (matches-eq-true_iff under_a path).0 under_a_hits

under_a-Skips : Skips other_path include_a
under_a-Skips hit = absurd (cc (under_a_misses, (matches-eq-true_iff under_a other_path).1 hit))

-- One run of the dynamic program refutes a match.
only_b-Skips : (text : Bytes) → matches only_b text ≡ false → Skips text exclude_b
only_b-Skips text miss hit = absurd (cc (miss, (matches-eq-true_iff only_b text).1 hit))

includes_last_match_example : includes filter path ≡ ok true
includes_last_match_example =
    includes_last_match filter [] include_a (exclude_b ∷ []) path path refl path_valid path_chars
      under_a-Matches (only_b-Skips path only_b_misses.0, tt)

other_path_valid : Paths.validate_path other_path ≡ ok tt
unfolding Paths.validate_path Paths.validate_text
other_path_valid = refl

other_path-chars : chars other_path ≡ some other_path
unfolding chars
other_path-chars = refl

includes_no_match_example : includes filter other_path ≡ ok false
includes_no_match_example =
    includes_no_match filter other_path other_path other_path_valid other_path-chars
      (under_a-Skips, (only_b-Skips other_path only_b_misses.1, tt))

abbrev written : List Token
written = tree_prefix ∷ class true (b']' ∷ b'a' ∷ []) ∷ star false ∷ literal b'*' ∷ star true ∷ []

compile-write_example : compile (ascii "**/[!\\]\\a]*\\***") ≡ written
compile-write_example = compile-write written (refl, tt)

globstar :
    compile (ascii "**/a[!b\\]]*?")
    ≡ tree_prefix ∷ literal b'a' ∷ class true (b'b' ∷ b']' ∷ []) ∷ star false ∷ any_char ∷ []
unfolding compile tokenize scan open_class class_body class_members
globstar = refl

unclosed : compile (ascii "[a[b") ≡ literal b'[' ∷ literal b'a' ∷ literal b'[' ∷ literal b'b' ∷ []
unfolding compile tokenize scan open_class class_body class_members
unclosed = refl
