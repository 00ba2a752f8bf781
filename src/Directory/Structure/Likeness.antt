-- ===== src/Directory/Structure/Likeness.antt =====
-- rust/src/directory_structure.rs, `validate`: slices that differ where it does not look.
use difz.Prelude.{
  ◌≡◌, sym, ◌∙◌, List, [], ◌∷◌, ◌++◌, Option, none, some, ok, All, Pairs, Pairs-length, Pairs-snoc,
  Pairs-get, subst,
}
use difz.Prelude.Bytes.{Bytes}
use difz.Directory.Structure.{Record, parent_path, check_content, validate}
use difz.Directory.Structure.Order.{Below}
use difz.Directory.Structure.Hierarchy.{HasParent, Fits, IsTree, validate-ok_iff}

pub record IsAlike (a b : Record) : Type 0 where
  pub path : a.path ≡ b.path
  pub mode : a.mode ≡ b.mode
  pub kind : a.kind ≡ b.kind
  pub content : check_content a ≡ ok tt → check_content b ≡ ok tt

Below-alike :
    (before before' : List Record) (a b : Record)
    → Pairs IsAlike before before'
    → a.path ≡ b.path
    → All (λ d. Below d a) before
    → All (λ d. Below d b) before'
Below-alike [] [] a b pairs same h = tt
Below-alike [] (y ∷ ys) a b pairs same h = absurd pairs
Below-alike (x ∷ xs) [] a b pairs same h = absurd pairs
Below-alike (x ∷ xs) (y ∷ ys) a b pairs same h =
    (rw (← same, ← pairs.0.path) h.0, Below-alike xs ys a b pairs.1 same h.1)

parent_alike :
    (before before' : List Record) (o : Option Bytes)
    → Pairs IsAlike before before'
    → HasParent before o
    → HasParent before' o
parent_alike before before' none pairs h = tt
parent_alike before before' (some path) pairs (i, d, at, same, is_dir) =
    let (d', at', alike) = Pairs-get IsAlike before before' i d pairs at in
    (i, d', at', sym alike.path ∙ same, sym alike.kind ∙ is_dir)

Fits-alike :
    (before before' : List Record) (a b : Record)
    → Pairs IsAlike before before'
    → IsAlike a b
    → Fits before a
    → Fits before' b
Fits-alike before before' a b pairs alike fits = record {
  path = rw (← alike.path) fits.path;
  mode = rw (← alike.mode) fits.mode;
  content = alike.content fits.content;
  order = Below-alike before before' a b pairs alike.path fits.order;
  parent =
      subst (λ p. HasParent before' (parent_path p)) alike.path
        (parent_alike before before' (parent_path a.path) pairs fits.parent);
}

IsTree-alike :
    (before before' entries entries' : List Record)
    → Pairs IsAlike before before'
    → Pairs IsAlike entries entries'
    → IsTree before entries
    → IsTree before' entries'
IsTree-alike before before' [] [] done pairs tree = tt
IsTree-alike before before' [] (y ∷ ys) done pairs tree = absurd pairs
IsTree-alike before before' (x ∷ xs) [] done pairs tree = absurd pairs
IsTree-alike before before' (x ∷ xs) (y ∷ ys) done pairs (fits, later) = (
  Fits-alike before before' x y done pairs.0 fits,
  IsTree-alike (before ++ x ∷ []) (before' ++ y ∷ []) xs ys
      (Pairs-snoc IsAlike before before' x y done pairs.0) pairs.1 later,
)

-- A slice that is alike passes the check too.
pub validate_alike :
    (entries entries' : List Record)
    → Pairs IsAlike entries entries'
    → validate entries ≡ ok tt
    → validate entries' ≡ ok tt
validate_alike entries entries' pairs h =
    let (few, tree) = (validate-ok_iff entries).0 h in
    (validate-ok_iff entries').1 (
      rw (← Pairs-length IsAlike entries entries' pairs) few,
      IsTree-alike [] [] entries entries' tt pairs tree,
    )
