-- ===== src/Tests/Json.antt =====
-- util/json_path.rs at concrete inputs.
use bc_server_rust.Base.{◌≡◌, ◌≢◌, some, [], ◌∷◌, arith, ==_iff, string_eq, String, pos}
use bc_server_rust.Json.{int, null, Fields, fields}
use bc_server_rust.Util.JsonPath.{set_path}
use bc_server_rust.Util.JsonPath.Laws.{
  find_path, here, there, find_path-set_path, find_path-set_path_ne,
}

abbrev stored : Fields
stored = fields (("a", int (pos 1)) ∷ ("b", null) ∷ [])

find_path-set_path_example :
    find_path (set_path stored ("a" ∷ "x" ∷ []) (int (pos 2))) ("a" ∷ "x" ∷ []) ≡ some (int (pos 2))
find_path-set_path_example = find_path-set_path stored "a" ("x" ∷ []) (int (pos 2))

parted : ◌≢◌ {A = String} "x" "y"
parted e = ground (arith, (==_iff {A = String} "x" "y").1 e)

find_path-set_path_ne_example :
    find_path (set_path stored ("a" ∷ "x" ∷ []) null) ("a" ∷ "y" ∷ [])
    ≡ find_path stored ("a" ∷ "y" ∷ [])
find_path-set_path_ne_example =
    find_path-set_path_ne stored {p = "a" ∷ "x" ∷ []} {q = "a" ∷ "y" ∷ []} null
      (there {k = "a"} (here {p = []} {q = []} parted))
