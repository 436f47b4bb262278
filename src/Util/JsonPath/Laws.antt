-- ===== src/Util/JsonPath/Laws.antt =====
-- util/json_path.rs: an update at a path is seen there, and nowhere else.
use bc_server_rust.Base.{
  ◌≡◌, refl, ap, ◌≢◌, Option, none, some, List, [], ◌∷◌, arith, String, string_eq, ==_refl, ==_ne,
}
use bc_server_rust.Json.{Value, object, Fields, find_field, insert_field}
use bc_server_rust.Json.Laws.{find_field-insert_field}
use bc_server_rust.Util.JsonPath.{set_path, object_at}

-- The value at the end of a path of keys.
pub find_path : Fields → List String → Option Value
find_path root [] = none
find_path root (key ∷ []) = find_field root key
find_path root (key ∷ next ∷ more) = find_path (object_at (find_field root key)) (next ∷ more)

-- Neither path is a prefix of the other: they part at some key.
pub data Diverges : List String → List String → Type 0 where
  here : {k j : String} {p q : List String} → k ≢ j → Diverges (k ∷ p) (j ∷ q)
  there : {k : String} {p q : List String} → Diverges p q → Diverges (k ∷ p) (k ∷ q)

-- An update at a path of one key or more is found there.
pub find_path-set_path :
    (root : Fields) (key : String) (more : List String) (v : Value)
    → find_path (set_path root (key ∷ more) v) (key ∷ more) ≡ some v
unfolding find_path set_path
find_path-set_path root key [] v =
    ground (arith, find_field-insert_field root key key v, ==_refl key)
find_path-set_path root key (next ∷ more) v =
    let inner = set_path (object_at (find_field root key)) (next ∷ more) v in
    ground (
      arith,
      find_field-insert_field root key key (object inner),
      ==_refl key,
      find_path-set_path (object_at (find_field root key)) next more v,
    )

set_path-eq :
    (root : Fields) (k : String) (p : List String) (v : Value)
    → (x : Value) × (set_path root (k ∷ p) v ≡ insert_field root k x)
unfolding set_path
set_path-eq root k [] v = (v, refl)
set_path-eq root k (next ∷ more) v =
    (object (set_path (object_at (find_field root k)) (next ∷ more) v), refl)

find_path-congr :
    (a b : Fields) (j : String) (q : List String)
    → find_field a j ≡ find_field b j
    → find_path a (j ∷ q) ≡ find_path b (j ∷ q)
unfolding find_path
find_path-congr a b j [] e = e
find_path-congr a b j (next ∷ more) e = ap (λ o. find_path (object_at o) (next ∷ more)) e

module _ (root : Fields) (k : String) (x : Value) where
  find_field-insert_self : find_field (insert_field root k x) k ≡ some x
  find_field-insert_self = ground (arith, find_field-insert_field root k k x, ==_refl k)

  find_field-insert_ne :
      (j : String) → k ≢ j → find_field (insert_field root k x) j ≡ find_field root j
  find_field-insert_ne j h = ground (arith, find_field-insert_field root k j x, ==_ne k j h)

find_path-behind :
    (root : Fields) (k i j : String) (p q : List String) (v : Value)
    → let below = object_at (find_field root k) in
      find_path (set_path below (i ∷ p) v) (j ∷ q) ≡ find_path below (j ∷ q)
      → find_path (set_path root (k ∷ i ∷ p) v) (k ∷ j ∷ q) ≡ find_path root (k ∷ j ∷ q)
unfolding find_path set_path
find_path-behind root k i j p q v e = rw find_field-insert_self e

-- An update at a path leaves what a diverging path leads to as it was.
pub find_path-set_path_ne :
    (root : Fields) {p q : List String} (v : Value)
    → Diverges p q
    → find_path (set_path root p v) q ≡ find_path root q
find_path-set_path_ne root v (here {k = k} {j = j} {p = p} {q = q} ne) =
    let (x, e) = set_path-eq root k p v in
    rw e (find_path-congr (insert_field root k x) root j q (find_field-insert_ne root k x j ne))
find_path-set_path_ne root v (there {k = k} (here {k = i} {j = j} {p = p} {q = q} ne)) =
    find_path-behind root k i j p q v
      (find_path-set_path_ne (object_at (find_field root k)) v (here {p = p} {q = q} ne))
find_path-set_path_ne root v (there {k = k} (there {k = i} {p = p} {q = q} d)) =
    find_path-behind root k i i p q v
      (find_path-set_path_ne (object_at (find_field root k)) v (there {k = i} d))
