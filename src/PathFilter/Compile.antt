-- ===== src/PathFilter/Compile.antt =====
-- rust/src/path_filter.rs: patterns as tokens and rules as filters. Every allocation succeeds, so that
-- `out_of_memory` is never returned.
pub mod Fuel
pub mod Writing
use mathlib.Core.Option
use difz.Prelude.{
  ℕ, zero, suc, ◌+◌, ◌≡◌, refl, Bool, true, false, not, ◌&&◌, ◌||◌, List, [], ◌∷◌, Option, none,
  some, ◌==◌, length, drop, get_or, is_empty, if◌then◌else◌, Result, ok, err, ◌>>=◌, ◌>>◌, reject,
}
use difz.Prelude.Text.{ascii}
use difz.Directory.Paths

pub data Action : Type 0 where
  include exclude : Action

abbrev pub opposite : Action → Action
opposite include = exclude
opposite exclude = include

pub data Error : Type 0 where
  empty_pattern out_of_memory : Error
  path_error : Paths.Error → Error

pub data Token : Type 0 where
  literal : ℕ → Token
  any_char : Token
  star : Bool → Token
  tree_prefix : Token
  class : Bool → List ℕ → Token

pub record Rule : Type 0 where
  pub action : Action
  pub pattern : List ℕ

pub record CompiledRule : Type 0 where
  pub action : Action
  pub tokens : List Token

pub record Filter : Type 0 where
  pub rules : List CompiledRule
  pub default_included : Bool

abbrev pub add_member : ℕ → Option (List ℕ × List ℕ) → Option (List ℕ × List ℕ)
add_member c none = none
add_member c (some (members, rest)) = some (c ∷ members, rest)

-- The members up to the closing bracket, with what follows it; none without such a bracket.
unfoldable pub class_members : List ℕ → Option (List ℕ × List ℕ)
class_members [] = none
class_members (c ∷ []) = if c == b']' then some ([], []) else none
class_members (c ∷ d ∷ rest) =
    let escaped = add_member d (class_members rest) in
    let plain = add_member c (class_members (d ∷ rest)) in
    if c == b']' then some ([], d ∷ rest) else if c == b'\\' then escaped else plain

-- A first `]` is a member.
unfoldable pub class_body : List ℕ → Option (List ℕ × List ℕ)
class_body [] = none
class_body (c ∷ rest) =
    if c == b']' then add_member c (class_members rest) else class_members (c ∷ rest)

abbrev negates : List ℕ → Bool
negates [] = false
negates (c ∷ rest) = c == b'!' || c == b'^'

unfoldable pub open_class : List ℕ → Option (Token × List ℕ)
open_class chars =
    Option.map (λ (members, rest). (class (negates chars) members, rest))
      (class_body (if negates chars then drop 1 chars else chars))

-- A token with the characters behind it, and whether a class can still open.
abbrev pub Scanned : Type 0
Scanned = Token × List ℕ × Bool

abbrev starts : ℕ → List ℕ → Bool
starts c [] = false
starts c (d ∷ rest) = d == c

abbrev scan_escape : Bool → List ℕ → Scanned
scan_escape classes_remain [] = (literal b'\\', [], classes_remain)
scan_escape classes_remain (d ∷ rest) = (literal d, rest, classes_remain)

abbrev scan_star : Bool → List ℕ → Scanned
scan_star classes_remain rest =
    if starts b'*' rest
    then if starts b'/' (drop 1 rest)
      then (tree_prefix, drop 2 rest, classes_remain)
      else (star true, drop 1 rest, classes_remain)
    else (star false, rest, classes_remain)

abbrev scan_class : Option (Token × List ℕ) → List ℕ → Scanned
scan_class none rest = (literal b'[', rest, false)
scan_class (some (token, behind)) rest = (token, behind, true)

unfoldable pub scan : Bool → ℕ → List ℕ → Scanned
scan classes_remain c rest =
    if c == b'\\'
    then scan_escape classes_remain rest
    else if c == b'*'
    then scan_star classes_remain rest
    else if c == b'?'
    then (any_char, rest, classes_remain)
    else if c == b'[' && classes_remain
    then scan_class (open_class rest) rest
    else (literal c, rest, classes_remain)

-- The loop; every turn takes a character, so the pattern's length is fuel enough.
unfoldable pub tokenize : ℕ → Bool → List ℕ → List Token
tokenize zero classes_remain chars = []
tokenize (suc fuel) classes_remain [] = []
tokenize (suc fuel) classes_remain (c ∷ rest) =
    let (token, behind, remain) = scan classes_remain c rest in token ∷ tokenize fuel remain behind

unfoldable pub compile : List ℕ → List Token
compile pattern = tokenize (length pattern) true pattern

abbrev is_include : Action → Bool
is_include include = true
is_include exclude = false

-- `strip_prefix('!')`: the action and the pattern that are meant.
abbrev pub effective : Rule → Action × List ℕ
effective rule =
    if starts b'!' rule.pattern
    then (opposite rule.action, drop 1 rule.pattern)
    else (rule.action, rule.pattern)

unfoldable pub compile_rule : Rule → Result Error CompiledRule
compile_rule rule = do
  let (action, pattern) = effective rule
  reject (is_empty pattern) empty_pattern
  ok (record { action = action; tokens = compile pattern })

unfoldable pub compile_rules : List Rule → Result Error (List CompiledRule)
compile_rules [] = ok []
compile_rules (rule ∷ rules) = do
  first ← compile_rule rule
  others ← compile_rules rules
  ok (first ∷ others)

-- The first action that is written, before a `!` turns it, sets the default.
unfoldable pub default_included : List Rule → Bool
default_included [] = true
default_included (rule ∷ rules) =
    let later = default_included rules in if is_include rule.action then false else later

unfoldable pub compile_filter : List Rule → Result Error Filter
compile_filter rules = do
  compiled ← compile_rules rules
  ok (record { rules = compiled; default_included = default_included rules })
