-- ===== src/Base/HashMap.antt =====
-- `HashMap<K, V>` as an association list. The order of the entries stands for the unspecified order
-- of iteration of the program's maps.
use mathlib.Core.Path.{◌≡◌, refl}
use mathlib.Core.Logic.{inl, inr}
use mathlib.Core.Bool.{Bool, true, false, ◌||◌}
use mathlib.Core.List.{List, [], ◌∷◌}
use mathlib.Core.Option.{Option, none, some}
use native.Mathlib.Omega.{arith}
use bc_server_rust.Base.Tests.{PartialEq, ◌==◌, if◌then◌else◌, Bool-cases}
use bc_server_rust.Base.Lists.{any, contains, IsDistinct}

abbrev pub HashMap {ℓ} : Type ℓ → Type ℓ → Type ℓ
HashMap K V = List (K × V)

abbrev pub values {ℓ} : {K V : Type ℓ} → HashMap K V → List V
values [] = []
values ((k, v) ∷ m) = v ∷ values m

abbrev pub map_option {ℓ κ} : {A : Type ℓ} {B : Type κ} → (A → B) → Option A → Option B
map_option f none = none
map_option f (some v) = some (f v)

module _ {ℓ} {K V : Type ℓ} ⦃e : PartialEq K⦄ where
  unfoldable pub get : HashMap K V → K → Option V
  get [] k = none
  get ((j, v) ∷ m) k = if j == k then some v else get m k

  unfoldable pub insert : HashMap K V → K → V → HashMap K V
  insert [] k v = (k, v) ∷ []
  insert ((j, w) ∷ m) k v = if j == k then (k, v) ∷ m else (j, w) ∷ insert m k v

  unfoldable pub remove : HashMap K V → K → HashMap K V
  remove [] k = []
  remove ((j, w) ∷ m) k = let rest = remove m k in if j == k then rest else (j, w) ∷ rest

  -- A write through `get_mut(k)`.
  unfoldable pub adjust : HashMap K V → K → (V → V) → HashMap K V
  adjust [] k f = []
  adjust ((j, w) ∷ m) k f = if j == k then (j, f w) ∷ m else (j, w) ∷ adjust m k f

  abbrev pub contains_key : HashMap K V → K → Bool
  contains_key m k = elim (get m k) [ none ↦ false | some v ↦ true ]

  pub get-insert :
      (m : HashMap K V) (k j : K) (v : V)
      → get (insert m k v) j ≡ (if k == j then some v else get m j)
  unfolding get insert
  get-insert [] k j v = refl
  get-insert ((i, w) ∷ m) k j v =
      ground (arith, e.decides i k, e.decides i j, e.decides k j, get-insert m k j v)

  pub get-remove :
      (m : HashMap K V) (k j : K) → get (remove m k) j ≡ (if k == j then none else get m j)
  unfolding get remove
  get-remove [] k j = ground arith
  get-remove ((i, w) ∷ m) k j =
      ground (arith, e.decides i k, e.decides i j, e.decides k j, get-remove m k j)

  pub get-adjust :
      (m : HashMap K V) (k j : K) (f : V → V)
      → get (adjust m k f) j ≡ (if k == j then map_option f (get m j) else get m j)
  unfolding get adjust
  get-adjust [] k j f = ground arith
  get-adjust ((i, w) ∷ m) k j f =
      ground (arith, e.decides i k, e.decides i j, e.decides k j, get-adjust m k j f)

  -- What holds of no value holds of no entry.
  pub any-get :
      (p : V → Bool) (m : HashMap K V) (k : K) (v : V)
      → get m k ≡ some v
      → p v ≡ true
      → any p (values m) ≡ true
  unfolding get any
  any-get p [] k v h t = absurd (ground arith)
  any-get p ((j, w) ∷ m) k v h t = elim (Bool-cases (j == k)) [
    | inl a ↦ ground arith
    | inr b ↦ ground (arith, any-get p m k v)
  ]

abbrev pub map_values {ℓ} : {K V : Type ℓ} → (V → V) → HashMap K V → HashMap K V
map_values f [] = []
map_values f ((k, v) ∷ m) = (k, f v) ∷ map_values f m

-- A write through `values_mut().find(p)`.
unfoldable pub adjust_first {ℓ} : {K V : Type ℓ} → (V → Bool) → (V → V) → HashMap K V → HashMap K V
adjust_first p f [] = []
adjust_first p f ((k, v) ∷ m) = if p v then (k, f v) ∷ m else (k, v) ∷ adjust_first p f m

-- `retain(|_, v| p(v))`.
unfoldable pub retain_values {ℓ} : {K V : Type ℓ} → (V → Bool) → HashMap K V → HashMap K V
retain_values p [] = []
retain_values p ((k, v) ∷ m) = let rest = retain_values p m in if p v then (k, v) ∷ rest else rest

abbrev pub keys {ℓ} : {K V : Type ℓ} → HashMap K V → List K
keys [] = []
keys ((k, v) ∷ m) = k ∷ keys m

module _ {ℓ} {K V : Type ℓ} ⦃e : PartialEq K⦄ where
  pub get-keys : (m : HashMap K V) (k : K) (v : V) → get m k ≡ some v → contains (keys m) k ≡ true
  unfolding get contains
  get-keys [] k v h = absurd (ground arith)
  get-keys ((j, w) ∷ m) k v h = ground (arith, e.decides j k, e.decides k j, get-keys m k v)

  pub contains-keys-insert :
      (m : HashMap K V) (k j : K) (v : V)
      → contains (keys (insert m k v)) j ≡ (contains (keys m) j || j == k)
  unfolding insert contains
  contains-keys-insert [] k j v = ground arith
  contains-keys-insert ((i, w) ∷ m) k j v =
      ground (arith, e.decides i k, e.decides j k, e.decides j i, contains-keys-insert m k j v)

  pub IsDistinct-insert :
      (m : HashMap K V) (k : K) (v : V) → IsDistinct (keys m) → IsDistinct (keys (insert m k v))
  unfolding insert contains
  IsDistinct-insert [] k v d = (refl, tt)
  IsDistinct-insert ((i, w) ∷ m) k v d =
      ground (arith, e.decides i k, contains-keys-insert m k i v, IsDistinct-insert m k v d.1)

  contains-keys-remove :
      (m : HashMap K V) (k j : K)
      → contains (keys m) j ≡ false
      → contains (keys (remove m k)) j ≡ false
  unfolding remove contains
  contains-keys-remove [] k j h = refl
  contains-keys-remove ((i, w) ∷ m) k j h = ground (arith, contains-keys-remove m k j)

  pub IsDistinct-remove :
      (m : HashMap K V) (k : K) → IsDistinct (keys m) → IsDistinct (keys (remove m k))
  unfolding remove
  IsDistinct-remove [] k d = tt
  IsDistinct-remove ((i, w) ∷ m) k d =
      ground (arith, contains-keys-remove m k i, IsDistinct-remove m k d.1)

  pub keys-adjust : (m : HashMap K V) (k : K) (f : V → V) → keys (adjust m k f) ≡ keys m
  unfolding adjust
  keys-adjust [] k f = refl
  keys-adjust ((i, w) ∷ m) k f = ground (arith, keys-adjust m k f)

  pub keys-adjust_first :
      (p : V → Bool) (f : V → V) (m : HashMap K V) → keys (adjust_first p f m) ≡ keys m
  unfolding adjust_first
  keys-adjust_first p f [] = refl
  keys-adjust_first p f ((i, w) ∷ m) = ground (arith, keys-adjust_first p f m)

  -- The first value that passes the test, if one key alone has such a value.
  pub get-adjust_first :
      (p : V → Bool) (f : V → V) (m : HashMap K V) (k j : K) (v : V)
      → IsDistinct (keys m)
      → get m k ≡ some v
      → p v ≡ true
      → ((i : K) (w : V) → get m i ≡ some w → p w ≡ true → i ≡ k)
      → get (adjust_first p f m) j ≡ (if k == j then some (f v) else get m j)
  unfolding get adjust_first
  get-adjust_first p f [] k j v d g t only = absurd (ground arith)
  get-adjust_first p f ((i, w) ∷ m) k j v d g t only = elim (Bool-cases (p w)) [
    | inl a ↦ ground (arith, only i w, e.decides i i, e.decides i k, e.decides k j, e.decides i j)
    | inr b ↦ ground (
      arith,
      e.decides i k,
      e.decides k j,
      e.decides i j,
      get-adjust_first p f m k j v d.1 (rest b) t only_rest,
    )
  ]
    where
      rest : p w ≡ false → get m k ≡ some v
      rest b = ground (arith, e.decides i k)

      only_rest : (i' : K) (w' : V) → get m i' ≡ some w' → p w' ≡ true → i' ≡ k
      only_rest i' w' g' t' =
          only i' w' (ground (arith, e.decides i i', get-keys m i' w' g', d.0)) t'

  -- If no value passes the test, nothing changes.
  pub get-adjust_first_none :
      (p : V → Bool) (f : V → V) (m : HashMap K V)
      → any p (values m) ≡ false
      → adjust_first p f m ≡ m
  unfolding adjust_first any
  get-adjust_first_none p f [] h = refl
  get-adjust_first_none p f ((i, w) ∷ m) h = ground (arith, get-adjust_first_none p f m)
