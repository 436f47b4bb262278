-- ===== src/Json/Laws.antt =====
-- The laws of JSON objects as maps.
use Prim.Native.String.{String}
use bc_server_rust.Base.{
  ◌≡◌, refl, none, some, List, [], ◌∷◌, arith, if◌then◌else◌, ◌==◌, ==_iff, contains, string_eq,
}
use bc_server_rust.Json.{
  Value, Fields, end, field, find_field, insert_field, remove_field, remove_fields, to_list,
  from_list,
}

pub find_field-insert_field :
    (fs : Fields) (k j : String) (v : Value)
    → find_field (insert_field fs k v) j ≡ (if k == j then some v else find_field fs j)
unfolding find_field insert_field
find_field-insert_field end k j v = refl
find_field-insert_field (field i w fs) k j v =
    ground (arith, ==_iff i k, ==_iff i j, ==_iff k j, find_field-insert_field fs k j v)

pub find_field-remove_field :
    (fs : Fields) (k j : String)
    → find_field (remove_field fs k) j ≡ (if k == j then none else find_field fs j)
unfolding find_field remove_field
find_field-remove_field end k j = ground arith
find_field-remove_field (field i w fs) k j =
    ground (arith, ==_iff i k, ==_iff i j, ==_iff k j, find_field-remove_field fs k j)

pub find_field-remove_fields :
    (fs : Fields) (ks : List String) (j : String)
    → find_field (remove_fields fs ks) j ≡ (if contains ks j then none else find_field fs j)
unfolding remove_fields contains
find_field-remove_fields fs [] j = refl
find_field-remove_fields fs (k ∷ ks) j = ground (
  arith,
  find_field-remove_fields (remove_field fs k) ks j,
  find_field-remove_field fs k j,
  ==_iff j k,
  ==_iff k j,
)

pub to_list-from_list : (vs : List Value) → to_list (from_list vs) ≡ vs
unfolding to_list from_list
to_list-from_list [] = refl
to_list-from_list (v ∷ vs) = ground (arith, to_list-from_list vs)

pub ruleset json_laws =
    (find_field-insert_field, find_field-remove_field, find_field-remove_fields, to_list-from_list)
