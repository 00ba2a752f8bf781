-- ===== src/Directory/Paths/Sizes.antt =====
-- rust/src/directory.rs: how long an accepted tree path is.
use difz.Prelude.{
  ◌≤◌, ◌≡◌, false, [], ◌∷◌, arith, is_empty, length, ltb, ltb_false→le, ok, >>-eq-ok, reject,
  reject-eq-ok,
}
use difz.Prelude.Bytes.{Bytes}
use difz.Directory.Paths.{empty_path, path_too_long, validate_path}

pub path_size :
    (path : Bytes) → validate_path path ≡ ok tt → (is_empty path ≡ false) × (length path ≤ 4096)
unfolding validate_path
path_size path h =
    let (some_path, h₁) = >>-eq-ok (reject (is_empty path) empty_path) _ h in
    let (short, _) = >>-eq-ok (reject (ltb 4096 (length path)) path_too_long) _ h₁ in
    (reject-eq-ok _ empty_path some_path, ltb_false→le _ _ (reject-eq-ok _ path_too_long short))

pub not_empty : (bytes : Bytes) → is_empty bytes ≡ false → 1 ≤ length bytes
not_empty [] h = absurd (cc h)
not_empty (b ∷ bs) h = omega arith
