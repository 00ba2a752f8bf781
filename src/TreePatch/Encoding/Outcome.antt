-- ===== src/TreePatch/Encoding/Outcome.antt =====
-- rust/src/tree_patch_encode.rs: the header and the body of a patch that `create` returned.
use difz.Prelude.{
  ℕ, ◌+◌, ◌≤◌, ◌≡◌, sym, ap, ◌∙◌, Bool, true, List, [], ◌++◌, append_assoc, arith, concat_map, ltb,
  length, length-append, length-replicate, drop, drop_past, replicate, ltb_false→le, ok, map_err,
  reject, >>-eq-ok, >>=-eq-ok, reject-eq-ok, map_err-eq-ok, All, Pairs,
}
use difz.Prelude.Bytes.{Bytes}
use difz.Directory.Canonical.{CanonicalSnapshot}
use difz.PathFilter.Compile.{Filter, compile_filter}
use difz.File.Codec.{Native}
use difz.TreePatch.{limit_exceeded, filter_error, default_limits, default_envelope}
use difz.TreePatch.Header
use difz.TreePatch.Header.{Header, header_len}
use difz.TreePatch.Decoding.{DecodedEntry}
use difz.TreePatch.Encoding.{
  CreateOptions, put, put_rules, put_entries, put_root, header_for, create_masked,
}
use difz.TreePatch.Encoding.Layout.{
  rule_bytes, entry_bytes, root_bytes, RecordFits, IsWrittenAs, RuleFits, put-eq-ok,
  put_rules-eq-ok, put_entries-eq-ok, put_root-eq-ok,
}

module _ (native : Native) (reserve : ℕ → Bool) (blake3 : Bytes → Bytes)
    (source target : CanonicalSnapshot) (options : CreateOptions) where
  abbrev pub header : Header
  header = header_for native reserve blake3 source target options

  abbrev pub body_bytes : List DecodedEntry → Bytes
  body_bytes ds =
      concat_map rule_bytes options.rules
      ++ (concat_map entry_bytes ds
          ++ root_bytes header.root_metadata target.snapshot.root.metadata)

  pub record IsCreated (patch : Bytes) : Type 0 where
    pub entries : List DecodedEntry
    pub written_as :
        Pairs
          (IsWrittenAs native reserve blake3 source.snapshot.entries)
          target.snapshot.entries
          entries
    pub rule_count : length options.rules ≤ default_envelope.max_rules
    pub rules : All (RuleFits default_limits.max_pattern_bytes) options.rules
    pub filter : Filter
    pub compiled : compile_filter options.rules ≡ ok filter
    pub root : header.root_metadata ≡ true → RecordFits target.snapshot.root.metadata
    pub patch_is : patch ≡ Header.encode blake3 header (body_bytes entries) ++ body_bytes entries
    pub body : header_len + length (body_bytes entries) ≤ default_envelope.max_patch_bytes

  pub create_masked-IsCreated :
      {patch : Bytes}
      → create_masked native reserve blake3 source target options ≡ ok patch
      → IsCreated patch
  unfolding create_masked header_for
  create_masked-IsCreated {patch} h =
      let maximum = default_envelope.max_patch_bytes in
      let (few, h₁) =
        >>-eq-ok (reject (ltb default_envelope.max_rules (length options.rules)) limit_exceeded) _
          h in
      let (filter, compiled, h₂) =
        >>=-eq-ok (map_err filter_error (compile_filter options.rules)) _ h₁ in
      let (start, s₁, h₃) =
        >>=-eq-ok (put native reserve blake3 maximum [] (replicate header_len 0)) _ h₂ in
      let (ruled, s₂, h₄) =
        >>=-eq-ok
          (put_rules native reserve blake3 maximum default_limits.max_pattern_bytes start
            options.rules)
          _ h₃ in
      let (filled, s₃, h₅) =
        >>=-eq-ok
          (put_entries native reserve blake3 maximum source.snapshot.entries ruled
            target.snapshot.entries)
          _ h₄ in
      let (output, s₄, h₆) =
        >>=-eq-ok
          (put_root native reserve blake3 header.root_metadata maximum filled target.snapshot.root)
          _ h₅ in
      let (e₁, l₁) = put-eq-ok native reserve blake3 maximum [] (replicate header_len 0) s₁ in
      let (e₂, l₂, rules) =
        put_rules-eq-ok native reserve blake3 maximum default_limits.max_pattern_bytes start
          options.rules l₁ s₂ in
      let (ds, pairs, e₃, l₃) =
        put_entries-eq-ok native reserve blake3 maximum source.snapshot.entries ruled
          target.snapshot.entries l₂ s₃ in
      let (e₄, l₄, root) =
        put_root-eq-ok native reserve blake3 maximum header.root_metadata filled
          target.snapshot.root l₃ s₄ in
      let zeros : Bytes = replicate header_len 0 in
      let width : length zeros ≡ header_len = length-replicate {A = ℕ} header_len 0 in
      let whole : output ≡ zeros ++ body_bytes ds =
        e₄
        ∙ ap (λ t. t ++ root_bytes header.root_metadata target.snapshot.root.metadata)
            (e₃
              ∙ ap (λ t. t ++ concat_map entry_bytes ds)
                  (e₂ ∙ ap (λ t. t ++ concat_map rule_bytes options.rules) e₁))
        ∙ simp append_assoc in
      let rest : drop header_len output ≡ body_bytes ds =
        ap (drop header_len) whole ∙ drop_past zeros (body_bytes ds) header_len 0 width in
      let made : Header.encode blake3 header (drop header_len output) ++ drop header_len output
          ≡ patch =
        cc h₆ in
      record {
        entries = ds;
        written_as = pairs;
        rule_count = ltb_false→le _ _ (reject-eq-ok _ limit_exceeded few);
        rules = rules;
        filter = filter;
        compiled = map_err-eq-ok filter_error _ compiled;
        root = root;
        patch_is = sym made ∙ ap (λ t. Header.encode blake3 header t ++ t) rest;
        body =
            omega
              (arith, l₄, ap (length {A = ℕ}) whole, length-append zeros (body_bytes ds), width);
      }
