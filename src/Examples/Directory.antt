-- ===== src/Examples/Directory.antt =====
-- rust/src/directory.rs and its parts: a directory with a sparse file and a hard link to it.
use difz.Prelude.{
  ◌≤◌, ◌≡◌, ◌↔◌, refl, false, List, [], ◌∷◌, none, some, length, map, get_elem?, ok, err, All,
  is_empty,
}
use difz.Prelude.Bytes.{Bytes, bytes_eq}
use difz.Prelude.Order.{cmp}
use difz.Prelude.Slices.{split_on}
use difz.Prelude.Text.{ascii}
use difz.Metadata.Records.{no_metadata, Metadata}
use difz.Metadata.Validation.{CanonicalMetadata}
use difz.Directory.Paths.{
  symlink_escapes_root, max_entries, validate_text, validate_path, count_byte, descend, walk,
  validate_symlink_target,
}
use difz.Directory.Paths.Containment.{
  resolve, parent_stack, validate_symlink_target-contained, validate_symlink_target-escape_iff,
}
use difz.Directory.Structure
use difz.Directory.Structure.{Record, search, find_path, parent_path}
use difz.Directory.Structure.Order.{Ascending}
use difz.Directory.Structure.Search.{find_path-eq-some_iff}
use difz.Directory.Structure.Hierarchy.{IsTree, validate-ok_iff, validate-Ascending}
use difz.Directory.Snapshot.{Content, directory, file, Entry, Snapshot, structure}
use difz.Directory.Canonical
use difz.Directory.Canonical.{CanonicalSnapshot, new}
use difz.Directory.Canonical.Relations.{HasRelations, new-eq-ok}

abbrev link_path : Bytes
link_path = ascii "a/b/link"

abbrev inner_target : Bytes
inner_target = ascii "../c/../../x"

inner_target_accepted : validate_symlink_target link_path inner_target ≡ ok tt
unfolding validate_symlink_target validate_path validate_text walk descend count_byte
inner_target_accepted = refl

validate_symlink_target-contained_example :
    (place : List Bytes) × (resolve (parent_stack link_path) (split_on b'/' inner_target)
      ≡ some place)
validate_symlink_target-contained_example =
    validate_symlink_target-contained link_path inner_target inner_target_accepted

abbrev outer_target : Bytes
outer_target = ascii "../../../x"

link_path_accepted : validate_path link_path ≡ ok tt
unfolding validate_path validate_text
link_path_accepted = refl

outer_target_text : validate_text outer_target ≡ ok tt
unfolding validate_text
outer_target_text = refl

outer_target_parts : All (λ part. is_empty part ≡ false) (split_on b'/' outer_target)
unfolding split_on
outer_target_parts = (refl, (refl, (refl, (refl, tt))))

validate_symlink_target-escape_iff_example :
    (validate_symlink_target link_path outer_target ≡ err symlink_escapes_root)
    ↔ (resolve (parent_stack link_path) (split_on b'/' outer_target) ≡ none)
validate_symlink_target-escape_iff_example =
    validate_symlink_target-escape_iff link_path outer_target link_path_accepted refl
      outer_target_text outer_target_parts

abbrev plain : CanonicalMetadata
plain = record { metadata = no_metadata }

abbrev sparse_file : Content
sparse_file = file 420 (0 ∷ 0 ∷ 7 ∷ [])

abbrev sparse : Metadata
sparse = record no_metadata { holes = record { offset = 0; size = 2 } ∷ [] }

abbrev entries : List Entry
entries =
    record { path = ascii "a"; content = directory 493; metadata = plain }
    ∷ record { path = ascii "a/b"; content = sparse_file; metadata = record { metadata = sparse } }
    ∷ record {
      path = ascii "a/c";
      content = sparse_file;
      metadata = record { metadata = record sparse { hardlink_to = some (ascii "a/b") } };
    }
    ∷ []

abbrev tree : Snapshot
tree = record { entries = entries; root = plain }

abbrev canonical_tree : CanonicalSnapshot
canonical_tree = record { snapshot = tree }

tree_valid : Structure.validate (map structure entries) ≡ ok tt
unfolding Structure.validate Structure.check_entries Structure.check_entry validate_path structure
    validate_text Structure.mode_from_bits Structure.check_content Structure.check_order
    Structure.check_parent parent_path cmp find_path search
tree_valid = refl

tree_canonical : new tree ≡ ok canonical_tree
unfolding new Structure.validate Structure.check_entries Structure.check_entry validate_path
    structure validate_text Structure.mode_from_bits Structure.check_content Structure.check_order
    Structure.check_parent parent_path cmp find_path search Canonical.check_relations
    Canonical.check_holes Canonical.check_link Canonical.check_hole Canonical.check_target
    Canonical.shared_metadata_equal Canonical.list_eq Canonical.option_eq Canonical.times_eq
    Canonical.hole_eq bytes_eq
tree_canonical = refl

tree-Ascending : Ascending (map structure entries)
tree-Ascending = validate-Ascending (map structure entries) tree_valid

find_path-eq-some_iff_example :
    (find_path (map structure entries) (ascii "a/b") ≡ some 1)
    ↔ ((e : Record) × (get_elem? (map structure entries) 1 ≡ some e) × (e.path ≡ ascii "a/b"))
find_path-eq-some_iff_example =
    find_path-eq-some_iff (map structure entries) (ascii "a/b") 1 tree-Ascending

validate-ok_iff_example :
    (Structure.validate (map structure entries) ≡ ok tt)
    ↔ ((length (map structure entries) ≤ max_entries) × IsTree [] (map structure entries))
validate-ok_iff_example = validate-ok_iff (map structure entries)

new-eq-ok_example :
    (canonical_tree.snapshot ≡ tree)
    × Ascending (map structure tree.entries)
    × HasRelations [] tree.entries
    × (tree.root.metadata.holes ≡ [])
    × (tree.root.metadata.hardlink_to ≡ none)
new-eq-ok_example = new-eq-ok tree tree_canonical
