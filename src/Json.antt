-- ===== src/Json.antt =====
-- `serde_json::Value` and `Map`, with the accessors and edits that the server calls.
pub mod Laws
use Prim.Native.String.{String}
use bc_server_rust.Base.{
  ℕ, zero, suc, Bool, true, false, Option, none, some, List, [], ◌∷◌, ℤ, pos, fits_i64,
  if◌then◌else◌, ◌==◌, string_eq, int_eq,
}
use bc_server_rust.Base.Text.{text_lt}

-- A number is an integer (`i64` or `u64`) or a float, given by its bit pattern.
mutual
  pub data Value : Type 0 where
    null : Value
    bool : Bool → Value
    int : ℤ → Value
    float : ℕ → Value
    text : String → Value
    array : Items → Value
    object : Fields → Value

  pub data Items : Type 0 where
    nil : Items
    cons : Value → Items → Items

  -- `Map<String, Value>`, the keys ascending.
  pub data Fields : Type 0 where
    end : Fields
    field : String → Value → Fields → Fields

unfoldable pub to_list : Items → List Value
to_list nil = []
to_list (cons v vs) = v ∷ to_list vs

unfoldable pub from_list : List Value → Items
from_list [] = nil
from_list (v ∷ vs) = cons v (from_list vs)

-- `Map::get`, `insert` and `remove`.
unfoldable pub find_field : Fields → String → Option Value
find_field end k = none
find_field (field j v fs) k = if j == k then some v else find_field fs k

unfoldable pub insert_field : Fields → String → Value → Fields
insert_field end k v = field k v end
insert_field (field j w fs) k v =
    if j == k
    then field k v fs
    else if text_lt k j
    then field k v (field j w fs)
    else field j w (insert_field fs k v)

unfoldable pub remove_field : Fields → String → Fields
remove_field end k = end
remove_field (field j w fs) k =
    let rest = remove_field fs k in if j == k then rest else field j w rest

unfoldable pub remove_fields : Fields → List String → Fields
remove_fields fs [] = fs
remove_fields fs (k ∷ ks) = remove_fields (remove_field fs k) ks

abbrev pub has_field : Fields → String → Bool
has_field fs k = elim (find_field fs k) [ none ↦ false | some v ↦ true ]

abbrev pub is_no_field : Fields → Bool
is_no_field end = true
is_no_field (field k v fs) = false

abbrev pub count_fields : Fields → ℕ
count_fields end = 0
count_fields (field k v fs) = suc (count_fields fs)

abbrev pub fields : List (String × Value) → Fields
fields [] = end
fields ((k, v) ∷ r) = insert_field (fields r) k v

-- `json!({ … })` and `json!([ … ])`.
abbrev pub json_object : List (String × Value) → Value
json_object r = object (fields r)

abbrev pub json_array : List Value → Value
json_array vs = array (from_list vs)

-- `Value::get(key)` with a string key, and the typed views.
abbrev pub get_field : Value → String → Option Value
get_field (object fs) k = find_field fs k
get_field _ k = none

abbrev pub as_str : Value → Option String
as_str (text s) = some s
as_str _ = none

abbrev pub as_bool : Value → Option Bool
as_bool (bool b) = some b
as_bool _ = none

abbrev pub as_i64 : Value → Option ℤ
as_i64 (int n) = if fits_i64 n then some n else none
as_i64 _ = none

abbrev pub as_array : Value → Option (List Value)
as_array (array vs) = some (to_list vs)
as_array _ = none

abbrev pub as_object : Value → Option Fields
as_object (object fs) = some fs
as_object _ = none

abbrev pub is_object : Value → Bool
is_object (object fs) = true
is_object _ = false

abbrev pub is_array : Value → Bool
is_array (array vs) = true
is_array _ = false

abbrev pub is_string : Value → Bool
is_string (text s) = true
is_string _ = false

abbrev pub is_boolean : Value → Bool
is_boolean (bool b) = true
is_boolean _ = false

abbrev pub is_null : Value → Bool
is_null null = true
is_null _ = false

abbrev pub is_i64 : Value → Bool
is_i64 (int n) = fits_i64 n
is_i64 _ = false

-- A chain `o.and_then(f)`.
infixl 5 ◌>>=◌
abbrev pub ◌>>=◌ {ℓ κ} : {A : Type ℓ} {B : Type κ} → Option A → (A → Option B) → Option B
none >>= f = none
some a >>= f = f a

-- `o.unwrap_or(d)`.
abbrev pub unwrap_or {ℓ} : {A : Type ℓ} → Option A → A → A
unwrap_or none d = d
unwrap_or (some a) d = a

abbrev pub is_some {ℓ} : {A : Type ℓ} → Option A → Bool
is_some none = false
is_some (some a) = true

-- `data.get(key).and_then(as_…)`.
abbrev pub str_field : Value → String → Option String
str_field v k = get_field v k >>= as_str

abbrev pub i64_field : Value → String → Option ℤ
i64_field v k = get_field v k >>= as_i64

abbrev pub bool_field : Value → String → Option Bool
bool_field v k = get_field v k >>= as_bool

-- `o == Some(n)` for an `Option<i64>`.
abbrev pub is_number : Option ℤ → ℤ → Bool
is_number none n = false
is_number (some m) n = m == n

abbrev pub is_text : Option String → String → Bool
is_text none s = false
is_text (some t) s = t == s
