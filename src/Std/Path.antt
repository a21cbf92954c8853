-- ===== src/Std/Path.antt =====
-- `Path::components` on Unix, as far as a test for `Component::ParentDir` sees it.
use Prim.Native.String
use Prim.Native.String.{[], ◌∷◌}
use esesaetsch.Base.{Bool, List, [], ◌∷◌, code, String, eqb, if◌then◌else◌, any, ◌==◌}

parts_from : String → String → List String
parts_from cur [] = cur ∷ []
parts_from cur (c ∷ s) =
    let closed : List String = cur ∷ parts_from "" s in
    let longer : List String = parts_from (String.◌++◌ cur (c ∷ [])) s in
    if eqb (code c) b'/' then closed else longer

-- The texts between slashes. `components` drops the empty ones and the inner ".", and keeps "..".
unfoldable pub parts : String → List String
unfolding parts_from
parts path = parts_from "" path

-- `path.components().any(|c| matches!(c, Component::ParentDir))`
unfoldable pub has_parent_dir : String → Bool
unfolding parts any
has_parent_dir path = any (λ part. part == "..") (parts path)
