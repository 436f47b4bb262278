-- ===== src/Base/Lists.antt =====
-- Vectors: `Vec<T>` and slices as lists, measured and indexed by native numbers.
use Prim.Native.Nat.{ℕ, zero, suc, ◌+◌, ◌≤◌}
use mathlib.Core.Path.{◌≡◌, refl}
use mathlib.Core.Bool.{Bool, true, false, not, ◌||◌, ◌&&◌}
use mathlib.Core.List.{List, [], ◌∷◌, ◌++◌}
use mathlib.Core.Option.{Option, none, some}
use native.Mathlib.Omega.{arith}
use bc_server_rust.Base.Tests.{PartialEq, ◌==◌, if◌then◌else◌}

-- An index behind one more element.
abbrev pub bump : Option ℕ → Option ℕ
bump none = none
bump (some n) = some (suc n)

module _ {ℓ} {A : Type ℓ} where
  abbrev pub length : List A → ℕ
  length [] = 0
  length (x ∷ xs) = suc (length xs)

  abbrev pub get_elem? : List A → ℕ → Option A
  get_elem? [] i = none
  get_elem? (x ∷ xs) zero = some x
  get_elem? (x ∷ xs) (suc i) = get_elem? xs i

  -- A write out of bounds changes nothing.
  abbrev pub set : List A → ℕ → A → List A
  set [] i v = []
  set (x ∷ xs) zero v = v ∷ xs
  set (x ∷ xs) (suc i) v = x ∷ set xs i v

  -- A write through `xs.get_mut(i)`.
  abbrev pub adjust_at : List A → ℕ → (A → A) → List A
  adjust_at [] i f = []
  adjust_at (x ∷ xs) zero f = f x ∷ xs
  adjust_at (x ∷ xs) (suc i) f = x ∷ adjust_at xs i f

  -- `xs.remove(i)`, for a place within the list.
  abbrev pub remove_at : List A → ℕ → List A
  remove_at [] i = []
  remove_at (x ∷ xs) zero = xs
  remove_at (x ∷ xs) (suc i) = x ∷ remove_at xs i

  -- What `xs.pop()` leaves.
  abbrev pub drop_last : List A → List A
  drop_last [] = []
  drop_last (x ∷ []) = []
  drop_last (x ∷ y ∷ xs) = x ∷ drop_last (y ∷ xs)

  -- `xs.swap(i, j)`, for places within the list.
  unfoldable pub swap : List A → ℕ → ℕ → List A
  swap xs i j = elim (get_elem? xs i) [
    | none ↦ xs
    | some a ↦ elim (get_elem? xs j) [ none ↦ xs | some b ↦ set (set xs i b) j a ]
  ]

  abbrev pub is_empty : List A → Bool
  is_empty [] = true
  is_empty (x ∷ xs) = false

  abbrev pub push : List A → A → List A
  push xs a = xs ++ a ∷ []

  -- `iter().any(p)` and `iter().all(p)`.
  unfoldable pub any : (A → Bool) → List A → Bool
  any p [] = false
  any p (x ∷ xs) = p x || any p xs

  unfoldable pub all : (A → Bool) → List A → Bool
  all p [] = true
  all p (x ∷ xs) = p x && all p xs

  abbrev pub take : ℕ → List A → List A
  take zero xs = []
  take (suc n) [] = []
  take (suc n) (x ∷ xs) = x ∷ take n xs

  -- `retain(p)`, and `iter().filter(p)`.
  unfoldable pub retain : (A → Bool) → List A → List A
  retain p [] = []
  retain p (x ∷ xs) = let rest = retain p xs in if p x then x ∷ rest else rest

  unfoldable pub find : (A → Bool) → List A → Option A
  find p [] = none
  find p (x ∷ xs) = let rest = find p xs in if p x then some x else rest

  -- `iter().position(p)`.
  unfoldable pub position : (A → Bool) → List A → Option ℕ
  position p [] = none
  position p (x ∷ xs) = let rest = position p xs in if p x then some 0 else bump rest

  pub length-append : (xs ys : List A) → length (xs ++ ys) ≡ length xs + length ys
  length-append [] ys = omega arith
  length-append (x ∷ xs) ys = omega (arith, length-append xs ys)

  pub length-retain : (p : A → Bool) (xs : List A) → length (retain p xs) ≤ length xs
  unfolding retain
  length-retain p [] = omega arith
  length-retain p (x ∷ xs) = ground (arith, length-retain p xs)

-- `iter().filter_map(f)`.
unfoldable pub filter_map {ℓ κ} : {A : Type ℓ} {B : Type κ} → (A → Option B) → List A → List B
filter_map f [] = []
filter_map f (x ∷ xs) = let rest = filter_map f xs in elim (f x) [ none ↦ rest | some b ↦ b ∷ rest ]

-- `iter().find_map(f)`.
unfoldable pub find_map {ℓ κ} : {A : Type ℓ} {B : Type κ} → (A → Option B) → List A → Option B
find_map f [] = none
find_map f (x ∷ xs) = let rest = find_map f xs in elim (f x) [ none ↦ rest | some b ↦ some b ]

module _ {ℓ} {A : Type ℓ} ⦃e : PartialEq A⦄ where
  unfoldable pub contains : List A → A → Bool
  contains [] a = false
  contains (x ∷ xs) a = a == x || contains xs a

  -- `retain(|x| x != a)`.
  unfoldable pub without : A → List A → List A
  without a [] = []
  without a (x ∷ xs) = let rest = without a xs in if x == a then rest else x ∷ rest

  pub contains-push : (xs : List A) (a b : A) → contains (push xs a) b ≡ (contains xs b || b == a)
  unfolding contains
  contains-push [] a b = ground arith
  contains-push (x ∷ xs) a b = ground (arith, contains-push xs a b)

  pub contains-without :
      (xs : List A) (a b : A) → contains (without a xs) b ≡ (contains xs b && not (b == a))
  unfolding contains without
  contains-without [] a b = refl
  contains-without (x ∷ xs) a b =
      ground (arith, contains-without xs a b, e.decides x a, e.decides b a, e.decides b x)

  pub contains→not_empty : (xs : List A) (a : A) → contains xs a ≡ true → is_empty xs ≡ false
  unfolding contains
  contains→not_empty [] a h = cc
  contains→not_empty (x ∷ xs) a h = refl

  pub length-without : (xs : List A) (a : A) → length (without a xs) ≤ length xs
  unfolding without
  length-without [] a = omega arith
  length-without (x ∷ xs) a = ground (arith, length-without xs a)

  -- No element twice.
  abbrev pub IsDistinct : List A → Type 0
  IsDistinct [] = Unit {0}
  IsDistinct (x ∷ xs) = (contains xs x ≡ false) × IsDistinct xs

  pub IsDistinct-push :
      (xs : List A) (a : A) → IsDistinct xs → contains xs a ≡ false → IsDistinct (push xs a)
  unfolding contains
  IsDistinct-push [] a d h = (refl, tt)
  IsDistinct-push (x ∷ xs) a d h =
      ground (arith, contains-push xs a x, e.decides x a, e.decides a x, IsDistinct-push xs a d.1)

  pub IsDistinct-without : (xs : List A) (a : A) → IsDistinct xs → IsDistinct (without a xs)
  unfolding without
  IsDistinct-without [] a d = tt
  IsDistinct-without (x ∷ xs) a d =
      ground (arith, contains-without xs a x, IsDistinct-without xs a d.1)
