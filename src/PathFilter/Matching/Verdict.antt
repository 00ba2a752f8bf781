-- ===== src/PathFilter/Matching/Verdict.antt =====
-- rust/src/path_filter.rs, `Filter::includes`: which rule decides on a path.
use difz.Prelude.{
  ℕ, ◌≡◌, inl, inr, refl, ap, ◌∙◌, Bool, false, List, [], ◌∷◌, ◌++◌, some, is_empty, if◌then◌else◌,
  Result, ok, All, Bool-cases,
}
use difz.Prelude.Bytes.{Bytes}
use difz.Prelude.Utf8.{chars}
use difz.Directory.Paths
use difz.PathFilter.Compile.{CompiledRule, Filter, Error}
use difz.PathFilter.Matching.{matches, is_include, decide, includes}
use difz.PathFilter.Matching.Language.{Matches}
use difz.PathFilter.Matching.Correct.{matches-eq-true_iff}

abbrev pub Skips : List ℕ → CompiledRule → Type 0
Skips text rule = Matches rule.tokens text → ⊥

matches-skip :
    (text : List ℕ) (rule : CompiledRule) → Skips text rule → matches rule.tokens text ≡ false
matches-skip text rule skip = elim (Bool-cases (matches rule.tokens text)) [
  | inl hit ↦ absurd (skip ((matches-eq-true_iff rule.tokens text).0 hit))
  | inr miss ↦ miss
]

decide_none :
    (rules : List CompiledRule) (text : List ℕ) (included : Bool)
    → All (Skips text) rules
    → decide rules text included ≡ included
unfolding decide
decide_none [] text included h = refl
decide_none (rule ∷ rules) text included h =
    rw (matches-skip text rule h.0) (decide_none rules text included h.1)

decide_last :
    (before : List CompiledRule) (rule : CompiledRule) (after : List CompiledRule) (text : List ℕ)
    (included : Bool)
    → Matches rule.tokens text
    → All (Skips text) after
    → decide (before ++ rule ∷ after) text included ≡ is_include rule.action
unfolding decide
decide_last [] rule after text included hit skip =
    rw ((matches-eq-true_iff rule.tokens text).1 hit, decide)
      (decide_none after text (is_include rule.action) skip)
decide_last (first ∷ before) rule after text included hit skip =
    decide_last before rule after text _ hit skip

decide_or_default :
    (rules : List CompiledRule) (text : List ℕ) (included : Bool) (result : Result Error Bool)
    → result ≡ ok (decide rules text included)
    → (if is_empty rules then ok included else result) ≡ ok (decide rules text included)
unfolding decide
decide_or_default [] text included result e = refl
decide_or_default (rule ∷ rules) text included result e = e

includes-decide :
    (filter : Filter) (path : Bytes) (text : List ℕ)
    → Paths.validate_path path ≡ ok tt
    → chars path ≡ some text
    → includes filter path ≡ ok (decide filter.rules text filter.default_included)
unfolding includes
includes-decide filter path text valid decoded =
    rw (valid, decoded) (decide_or_default filter.rules text filter.default_included _ refl)

-- If a filter's rules are some rules, a rule that matches a valid path's text, and rules that do
-- not match it, then the filter includes the path exactly as that rule's action says.
pub includes_last_match :
    (filter : Filter) (before : List CompiledRule) (rule : CompiledRule) (after : List CompiledRule)
    (path : Bytes) (text : List ℕ)
    → filter.rules ≡ before ++ rule ∷ after
    → Paths.validate_path path ≡ ok tt
    → chars path ≡ some text
    → Matches rule.tokens text
    → All (Skips text) after
    → includes filter path ≡ ok (is_include rule.action)
includes_last_match filter before rule after path text listed valid decoded hit skip =
    includes-decide filter path text valid decoded
    ∙ ap (λ rules. ok (decide rules text filter.default_included)) listed
    ∙ ap ok (decide_last before rule after text filter.default_included hit skip)

-- If no rule of a filter matches a valid path's text, the filter answers with its default.
pub includes_no_match :
    (filter : Filter) (path : Bytes) (text : List ℕ)
    → Paths.validate_path path ≡ ok tt
    → chars path ≡ some text
    → All (Skips text) filter.rules
    → includes filter path ≡ ok filter.default_included
includes_no_match filter path text valid decoded skip =
    includes-decide filter path text valid decoded
    ∙ ap ok (decide_none filter.rules text filter.default_included skip)
