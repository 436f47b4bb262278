-- ===== src/Util/JsonPath.antt =====
-- util/json_path.rs: updates under Mongo's dotted paths.
pub mod Laws
use bc_server_rust.Base.{
  String, Bool, true, false, not, ◌||◌, Option, none, some, List, [], ◌∷◌, retain, if◌then◌else◌,
  ◌==◌, string_eq,
}
use bc_server_rust.Base.Text.{split, is_empty_text, contains_text}
use bc_server_rust.Json.{Value, object, Fields, end, field, find_field, insert_field}

-- The object behind a key, or a new one where there is none.
abbrev pub object_at : Option Value → Fields
object_at (some (object fs)) = fs
object_at _ = end

unfoldable pub set_path : Fields → List String → Value → Fields
set_path root [] v = root
set_path root (key ∷ []) v = insert_field root key v
set_path root (key ∷ next ∷ more) v =
    insert_field root key (object (set_path (object_at (find_field root key)) (next ∷ more) v))

abbrev pub segments : String → List String
segments path = retain (λ s. not (is_empty_text s)) (split b'.' path)

unfoldable pub apply_dotted_path : Fields → String → Value → Fields
unfolding set_path
apply_dotted_path root path v = set_path root (segments path) v

abbrev is_identity : String → Bool
is_identity k = k == "_id" || k == "MapData" || k == "AccountName"

unfoldable pub merge_set_into_object : Fields → Fields → Fields
merge_set_into_object root end = root
merge_set_into_object root (field k v set) =
    let next =
      if is_identity k
      then root
      else if contains_text k "."
      then apply_dotted_path root k v
      else insert_field root k v in
    merge_set_into_object next set
