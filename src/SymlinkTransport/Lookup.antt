-- ===== src/SymlinkTransport/Lookup.antt =====
-- rust/src/symlink_transport.rs, `find`: what the lookup of a name returns.
use Prim.Native.Nat.{Ordering}
use mathlib.Core.Option
use difz.Prelude.{
  ℕ, zero, suc, ◌+◌, ◌/◌, ◌≡◌, ◌↔◌, refl, sym, ap, ap₂, ◌∙◌, true, false, List, [], ◌∷◌, map,
  Option, none, some, inl, inr, Option-cases, length, length-map, take, drop, get_elem?, ltb, ok,
  map_err, reject, >>-eq-ok, >>=-eq-ok, reject-eq-ok, All,
}
use difz.Prelude.Bytes.{Bytes}
use difz.Prelude.Order.{cmp, cmp_trans}
use difz.Metadata.Time.{encode_time_override}
use difz.Directory.Structure
use difz.Directory.Structure.{find_path}
use difz.Directory.Structure.Order.{Below, Ascending, All_weaken}
use difz.Directory.Structure.Search.{find_path-eq-some, find_path-eq-some_iff}
use difz.SymlinkTransport.{
  invalid_transport, transport_too_large, metadata_error, max_records, Record, Transport, validate,
  not_before, check_records, new, search, find,
}

-- A record as an entry of a slice that is ordered by paths.
abbrev entry_of : Record → Structure.Record
entry_of r = record { path = r.name; mode = 0; kind = Structure.Kind.file; data_bytes = [] }

module _ {ℓ κ} {A : Type ℓ} {B : Type κ} (f : A → B) where
  get_elem?-map-eq : (xs : List A) (i : ℕ) → get_elem? (map f xs) i ≡ Option.map f (get_elem? xs i)
  get_elem?-map-eq [] i = refl
  get_elem?-map-eq (x ∷ xs) zero = refl
  get_elem?-map-eq (x ∷ xs) (suc i) = get_elem?-map-eq xs i

  take-map : (n : ℕ) (xs : List A) → take n (map f xs) ≡ map f (take n xs)
  take-map zero xs = refl
  take-map (suc n) [] = refl
  take-map (suc n) (x ∷ xs) = ap (λ t. f x ∷ t) (take-map n xs)

  drop-map : (n : ℕ) (xs : List A) → drop n (map f xs) ≡ map f (drop n xs)
  drop-map zero xs = refl
  drop-map (suc n) [] = refl
  drop-map (suc n) (x ∷ xs) = drop-map n xs

-- One turn of a search, by the name in the middle.
abbrev turn : Option Bytes → Bytes → ℕ → Option ℕ → Option ℕ → Option ℕ
turn none name half right left = none
turn (some middle) name half right left = elim (cmp middle name) [
  | Ordering.lt ↦ Option.map (λ i. half + 1 + i) right
  | Ordering.eq ↦ some half
  | Ordering.gt ↦ left
]

turn_of_records :
    (o : Option Record) (name : Bytes) (half : ℕ) (right left : Option ℕ)
    → Path
        (Option ℕ)
        (elim o [
          | none ↦ none
          | some r ↦ elim (cmp r.name name) [
            | Ordering.lt ↦ Option.map (λ i. half + 1 + i) right
            | Ordering.eq ↦ some half
            | Ordering.gt ↦ left
          ]
        ])
        (turn (Option.map (λ r. r.name) o) name half right left)
turn_of_records none name half right left = refl
turn_of_records (some r) name half right left = refl

turn_of_entries :
    (o : Option Structure.Record) (name : Bytes) (half : ℕ) (right left : Option ℕ)
    → Path
        (Option ℕ)
        (elim o [
          | none ↦ none
          | some e ↦ elim (cmp e.path name) [
            | Ordering.lt ↦ Option.map (λ i. half + 1 + i) right
            | Ordering.eq ↦ some half
            | Ordering.gt ↦ left
          ]
        ])
        (turn (Option.map (λ e. e.path) o) name half right left)
turn_of_entries none name half right left = refl
turn_of_entries (some e) name half right left = refl

path-entry_of :
    (o : Option Record)
    → Option.map (λ e. e.path) (Option.map entry_of o) ≡ Option.map (λ r. r.name) o
path-entry_of none = refl
path-entry_of (some r) = refl

-- The search is the one of a directory's entries by their paths.
search-entry_of :
    (fuel : ℕ) (records : List Record) (name : Bytes)
    → Structure.search fuel (map entry_of records) name ≡ search fuel records name
unfolding search Structure.search
search-entry_of zero records name = refl
search-entry_of (suc fuel) records name =
    let half = length records / 2 in
    let size = length-map entry_of records in
    let left =
      ap (λ xs. Structure.search fuel xs name) (take-map entry_of half records)
      ∙ search-entry_of fuel (take half records) name in
    let right =
      ap (λ xs. Structure.search fuel xs name) (drop-map entry_of (half + 1) records)
      ∙ search-entry_of fuel (drop (half + 1) records) name in
    let middle =
      ap (λ o. Option.map (λ e. e.path) o) (get_elem?-map-eq entry_of records half)
      ∙ path-entry_of (get_elem? records half) in
    let entries = map entry_of records in
    turn_of_entries (get_elem? entries (length entries / 2)) name (length entries / 2)
      (Structure.search fuel (drop (length entries / 2 + 1) entries) name)
      (Structure.search fuel (take (length entries / 2) entries) name)
    ∙ ap
        (λ n.
          turn (Option.map (λ e. e.path) (get_elem? entries (n / 2))) name (n / 2)
            (Structure.search fuel (drop (n / 2 + 1) entries) name)
            (Structure.search fuel (take (n / 2) entries) name))
        size
    ∙ ap
        (λ o.
          turn o name half (Structure.search fuel (drop (half + 1) entries) name)
            (Structure.search fuel (take half entries) name))
        middle
    ∙ ap₂ (λ a b. turn (Option.map (λ r. r.name) (get_elem? records half)) name half a b) right left
    ∙ sym (
        turn_of_records (get_elem? records half) name half
          (search fuel (drop (half + 1) records) name) (search fuel (take half records) name))

found_of : (o : Ordering) → elim o [ Ordering.lt ↦ false | _ ↦ true ] ≡ false → o ≡ Ordering.lt
found_of Ordering.lt h = refl
found_of Ordering.eq h = cc h
found_of Ordering.gt h = cc h

-- The names of accepted records ascend.
chain-Ascending :
    (r : Record) (records : List Record)
    → check_records (some r.name) records ≡ ok tt
    → All (Below (entry_of r)) (map entry_of records) × Ascending (map entry_of records)
unfolding check_records
chain-Ascending r [] h = (tt, tt)
chain-Ascending r (next ∷ records) h =
    let (_, h₁) = >>-eq-ok (validate next) _ h in
    let (before, h₂) =
      >>-eq-ok (reject (not_before (some r.name) next.name) invalid_transport) _ h₁ in
    let (_, _, h₃) =
      >>=-eq-ok (map_err metadata_error (encode_time_override next.observed_mtime)) _ h₂ in
    let (above, asc) = chain-Ascending next records h₃ in
    let less : cmp r.name next.name ≡ Ordering.lt =
      found_of _ (reject-eq-ok _ invalid_transport before) in
    (
      (
        less,
        All_weaken (map entry_of records) (λ e below. cmp_trans r.name next.name e.path less below)
            above,
      ),
      (above, asc),
    )

records-Ascending :
    (records : List Record) → check_records none records ≡ ok tt → Ascending (map entry_of records)
unfolding check_records
records-Ascending [] h = tt
records-Ascending (r ∷ records) h =
    let (_, h₁) = >>-eq-ok (validate r) _ h in
    let (_, h₂) = >>-eq-ok (reject (not_before none r.name) invalid_transport) _ h₁ in
    let (_, _, h₃) =
      >>=-eq-ok (map_err metadata_error (encode_time_override r.observed_mtime)) _ h₂ in
    chain-Ascending r records h₃

get_elem?-entry_of :
    (records : List Record) (i : ℕ) (r : Record)
    → get_elem? records i ≡ some r
    → get_elem? (map entry_of records) i ≡ some (entry_of r)
get_elem?-entry_of records i r here =
    get_elem?-map-eq entry_of records i ∙ ap (λ o. Option.map entry_of o) here

-- In a transport that `new` accepted, `find` returns a record exactly when it is a record of the
-- transport that has the name.
pub find-eq-some_iff :
    (t : Transport) (name : Bytes) (r : Record)
    → new t.records ≡ ok t
    → (find t name ≡ some r) ↔ ((i : ℕ) × (get_elem? t.records i ≡ some r) × (r.name ≡ name))
unfolding new find find_path
find-eq-some_iff t name r made =
    let (_, h₁) =
      >>-eq-ok (reject (ltb max_records (length t.records)) transport_too_large) _ made in
    let (checked, _) = >>-eq-ok (check_records none t.records) _ h₁ in
    let asc = records-Ascending t.records checked in
    let same : find_path (map entry_of t.records) name ≡ search (length t.records) t.records name =
      ap (λ n. Structure.search n (map entry_of t.records) name) (length-map entry_of t.records)
      ∙ search-entry_of (length t.records) t.records name in
    (
      λ hit. elim (Option-cases (search (length t.records) t.records name)) [
        | inl missed ↦ absurd (cc (rw (find, missed) at hit))
        | inr (i, found) ↦
            let here : get_elem? t.records i ≡ some r = rw (find, found) at hit in
            let (e, at, named) = find_path-eq-some (map entry_of t.records) name i (same ∙ found) in
            let is : some (entry_of r) ≡ some e =
              sym (get_elem?-entry_of t.records i r here) ∙ at in
            (i, here, ap (path_or r.name) is ∙ named)
      ],
      λ (i, here, named).
          let found : search (length t.records) t.records name ≡ some i =
            sym same
            ∙ (find_path-eq-some_iff (map entry_of t.records) name i asc).1
                (entry_of r, get_elem?-entry_of t.records i r here, named) in
          rw (find, found) here,
    )
  where
    path_or : Bytes → Option Structure.Record → Bytes
    path_or default none = default
    path_or default (some e) = e.path
