-- ===== src/Directory/Structure/Hierarchy.antt =====
-- rust/src/directory_structure.rs, `validate`: which slices of entries it accepts.
use difz.Prelude.{
  ok_or-eq-ok, ℕ, zero, suc, ◌≤◌, ◌≡◌, ◌↔◌, refl, sym, ◌∙◌, List, [], ◌∷◌, ◌++◌, Option, none, some,
  arith, append-nil, append_assoc, ltb, length, get_elem?, ok, reject, >>-eq-ok, >>=-eq-ok,
  reject-eq-ok, ltb_false→le, le→ltb_false, ok_or, All, All-append,
}
use difz.Prelude.Bytes.{Bytes}
use difz.Prelude.Order.{cmp_trans}
use difz.Directory.Paths.{
  too_many_entries, missing_parent, invalid_mode, max_entries, validate_path,
}
use difz.Directory.Structure.{
  Record, Kind, directory, file, symlink, find_path, parent_path, mode_from_bits, check_content,
  last, check_order, kind_at, check_directory, check_parent, check_entry, check_entries, validate,
}
use difz.Directory.Structure.Order.{Below, Ascending}
use difz.Directory.Structure.Search.{find_path-eq-some_iff}

-- The parent of a path, if it has one, is an entry before it and a directory.
abbrev pub HasParent : List Record → Option Bytes → Type 0
HasParent before none = Unit
HasParent before (some path) =
    (i : ℕ) × (d : Record) × (get_elem? before i ≡ some d) × (d.path ≡ path) × (d.kind ≡ directory)

pub record Fits (before : List Record) (e : Record) : Type 0 where
  pub path : validate_path e.path ≡ ok tt
  pub mode : e.mode ≤ 511
  pub content : check_content e ≡ ok tt
  pub order : All (λ d. Below d e) before
  pub parent : HasParent before (parent_path e.path)

-- Each entry fits behind those before it.
abbrev pub IsTree : List Record → List Record → Type 0
IsTree before [] = Unit
IsTree before (e ∷ rest) = Fits before e × IsTree (before ++ e ∷ []) rest

check_order_sound :
    (before : List Record) (e : Record)
    → Ascending before
    → check_order (last before) e.path ≡ ok tt
    → All (λ d. Below d e) before
unfolding check_order
check_order_sound [] e asc h = tt
check_order_sound (x ∷ []) e asc h = (ground arith, tt)
check_order_sound (x ∷ y ∷ ys) e asc h =
    let rest = check_order_sound (y ∷ ys) e asc.1 h in
    (cmp_trans x.path y.path e.path asc.0.0 rest.0, rest)

check_order_complete :
    (before : List Record) (e : Record)
    → All (λ d. Below d e) before
    → check_order (last before) e.path ≡ ok tt
unfolding check_order
check_order_complete [] e h = refl
check_order_complete (x ∷ []) e h = rw (h.0, check_order) refl
check_order_complete (x ∷ y ∷ ys) e h = check_order_complete (y ∷ ys) e h.1

Ascending-snoc :
    (before : List Record) (e : Record)
    → Ascending before
    → All (λ d. Below d e) before
    → Ascending (before ++ e ∷ [])
Ascending-snoc [] e asc below = (tt, tt)
Ascending-snoc (x ∷ xs) e asc below =
    (All-append (Below x) xs (e ∷ []) asc.0 (below.0, tt), Ascending-snoc xs e asc.1 below.1)

kind_at-get_elem? :
    (entries : List Record) (i : ℕ) (d : Record)
    → get_elem? entries i ≡ some d
    → kind_at entries i ≡ d.kind
kind_at-get_elem? [] i d h = cc
kind_at-get_elem? (x ∷ xs) zero d h = cc h
kind_at-get_elem? (x ∷ xs) (suc i) d h = kind_at-get_elem? xs i d h

check_directory-eq-ok : (k : Kind) → check_directory k ≡ ok tt → k ≡ directory
check_directory-eq-ok directory h = refl
check_directory-eq-ok file h = cc
check_directory-eq-ok symlink h = cc

check_parent_sound :
    (before : List Record) (o : Option Bytes)
    → Ascending before
    → check_parent before o ≡ ok tt
    → HasParent before o
unfolding check_parent
check_parent_sound before none asc h = tt
check_parent_sound before (some path) asc h =
    let (i, hit, is_dir) = >>=-eq-ok (ok_or (find_path before path) missing_parent) _ h in
    let (d, at, same) =
      (find_path-eq-some_iff before path i asc).0 (ok_or-eq-ok (find_path before path) _ hit) in
    (
      i,
      d,
      at,
      same,
      sym (kind_at-get_elem? before i d at) ∙ check_directory-eq-ok (kind_at before i) is_dir,
    )

check_parent_complete :
    (before : List Record) (o : Option Bytes)
    → Ascending before
    → HasParent before o
    → check_parent before o ≡ ok tt
unfolding check_parent
check_parent_complete before none asc h = refl
check_parent_complete before (some path) asc (i, d, at, same, is_dir) =
    rw
      (
        (find_path-eq-some_iff before path i asc).1 (d, at, same),
        kind_at-get_elem? before i d at,
        is_dir,
      )
      refl

check_entry_sound :
    (before : List Record) (e : Record)
    → Ascending before
    → check_entry before e ≡ ok tt
    → Fits before e
unfolding check_entry mode_from_bits
check_entry_sound before e asc h =
    let (path, h₁) = >>-eq-ok (validate_path e.path) _ h in
    let (m, mode, h₂) = >>=-eq-ok (mode_from_bits e.mode) _ h₁ in
    let (content, h₃) = >>-eq-ok (check_content e) _ h₂ in
    let (order, parent) = >>-eq-ok (check_order (last before) e.path) _ h₃ in
    let (small, _) = >>-eq-ok (reject (ltb 511 e.mode) invalid_mode) _ mode in
    record {
      path = path;
      mode = ltb_false→le 511 e.mode (reject-eq-ok _ invalid_mode small);
      content = content;
      order = check_order_sound before e asc order;
      parent = check_parent_sound before (parent_path e.path) asc parent;
    }

check_entry_complete :
    (before : List Record) (e : Record)
    → Ascending before
    → Fits before e
    → check_entry before e ≡ ok tt
unfolding check_entry mode_from_bits
check_entry_complete before e asc fits =
    rw
      (
        fits.path,
        le→ltb_false 511 e.mode fits.mode,
        fits.content,
        check_order_complete before e fits.order,
      )
      (check_parent_complete before (parent_path e.path) asc fits.parent)

check_entries_sound :
    (before entries : List Record)
    → Ascending before
    → check_entries before entries ≡ ok tt
    → IsTree before entries
unfolding check_entries
check_entries_sound before [] asc h = tt
check_entries_sound before (e ∷ rest) asc h =
    let (here, later) = >>-eq-ok (check_entry before e) _ h in
    let fits = check_entry_sound before e asc here in
    (
      fits,
      check_entries_sound (before ++ e ∷ []) rest (Ascending-snoc before e asc fits.order) later,
    )

check_entries_complete :
    (before entries : List Record)
    → Ascending before
    → IsTree before entries
    → check_entries before entries ≡ ok tt
unfolding check_entries
check_entries_complete before [] asc h = refl
check_entries_complete before (e ∷ rest) asc (fits, tree) =
    rw (check_entry_complete before e asc fits)
      (check_entries_complete (before ++ e ∷ []) rest (Ascending-snoc before e asc fits.order) tree)

-- The structure check accepts a slice of entries exactly when it has at most a million entries
-- and each entry fits behind those before it: its path and its content pass their checks, its
-- mode is at most 0o777, every earlier path is less than its own, and the parent of its path, if
-- it has one, is an earlier entry that is a directory.
pub validate-ok_iff :
    (entries : List Record)
    → (validate entries ≡ ok tt) ↔ ((length entries ≤ max_entries) × IsTree [] entries)
unfolding validate
validate-ok_iff entries = (
  λ h.
      let (small, checked) =
        >>-eq-ok (reject (ltb max_entries (length entries)) too_many_entries) _ h in
      (
        ltb_false→le max_entries (length entries) (reject-eq-ok _ too_many_entries small),
        check_entries_sound [] entries tt checked,
      ),
  λ (small, tree).
      rw (le→ltb_false max_entries (length entries) small)
        (check_entries_complete [] entries tt tree),
)

IsTree-Ascending :
    (before entries : List Record)
    → Ascending before
    → IsTree before entries
    → Ascending (before ++ entries)
IsTree-Ascending before [] asc tree = rw append-nil asc
IsTree-Ascending before (e ∷ rest) asc (fits, tree) =
    rw (← append_assoc before (e ∷ []) rest)
      (IsTree-Ascending (before ++ e ∷ []) rest (Ascending-snoc before e asc fits.order) tree)

-- If the structure check accepts a slice, every path is less than every later one.
pub validate-Ascending : (entries : List Record) → validate entries ≡ ok tt → Ascending entries
validate-Ascending entries h = IsTree-Ascending [] entries tt ((validate-ok_iff entries).0 h).1
