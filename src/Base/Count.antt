-- ===== src/Base/Count.antt =====
-- How often a list holds an item: what an order forgets.
use Prim.Native.Nat.{ℕ, zero, suc, ◌+◌, ◌≤◌}
use mathlib.Core.Path.{◌≡◌, refl}
use mathlib.Core.Logic.{inl, inr}
use mathlib.Core.Bool.{Bool}
use mathlib.Core.List.{List, [], ◌∷◌}
use mathlib.Core.Option.{some}
use native.Mathlib.Omega.{arith}
use bc_server_rust.Base.Tests.{PartialEq, ◌==◌, if◌then◌else◌, Option-cases, ltb, ==_refl}
use bc_server_rust.Base.Lists.{get_elem?, set, swap, contains, IsDistinct}

abbrev pub one_if : Bool → ℕ
one_if b = if b then 1 else 0

module _ {ℓ} {A : Type ℓ} ⦃e : PartialEq A⦄ where
  unfoldable pub count : List A → A → ℕ
  count [] m = 0
  count (x ∷ xs) m = one_if (x == m) + count xs m

  pub contains-count : (xs : List A) (m : A) → contains xs m ≡ ltb 0 (count xs m)
  unfolding count contains
  contains-count [] m = refl
  contains-count (x ∷ xs) m = ground (arith, contains-count xs m, e.decides x m, e.decides m x)

  pub IsDistinct-count_le : (xs : List A) → IsDistinct xs → (m : A) → count xs m ≤ 1
  unfolding count
  IsDistinct-count_le [] d m = omega arith
  IsDistinct-count_le (x ∷ xs) d m =
      ground (arith, IsDistinct-count_le xs d.1 m, contains-count xs x, e.decides x m)

  pub IsDistinct-of_count : (xs : List A) → ((m : A) → count xs m ≤ 1) → IsDistinct xs
  unfolding count
  IsDistinct-of_count [] h = tt
  IsDistinct-of_count (x ∷ xs) h = (
    ground (arith, h x, contains-count xs x, ==_refl x),
    IsDistinct-of_count xs (λ m. ground (arith, h m)),
  )

  -- Two lists with the same items, each as often.
  abbrev pub SameItems : List A → List A → Type ℓ
  SameItems xs ys = (m : A) → count xs m ≡ count ys m

  pub contains-SameItems :
      (xs ys : List A) → SameItems xs ys → (m : A) → contains xs m ≡ contains ys m
  contains-SameItems xs ys h m = ground (arith, contains-count xs m, contains-count ys m, h m)

  pub IsDistinct-SameItems : (xs ys : List A) → SameItems xs ys → IsDistinct ys → IsDistinct xs
  IsDistinct-SameItems xs ys h d =
      IsDistinct-of_count xs (λ m. ground (arith, h m, IsDistinct-count_le ys d m))

  pub get_elem?-set_self :
      (xs : List A) (i : ℕ) (a b : A) → get_elem? xs i ≡ some a → get_elem? (set xs i b) i ≡ some b
  get_elem?-set_self [] i a b h = absurd (ground arith)
  get_elem?-set_self (x ∷ xs) zero a b h = refl
  get_elem?-set_self (x ∷ xs) (suc i) a b h = get_elem?-set_self xs i a b h

  -- The item that is put at a place is found wherever it was found before.
  pub get_elem?-set :
      (xs : List A) (i j : ℕ) (b : A) → get_elem? xs j ≡ some b → get_elem? (set xs i b) j ≡ some b
  get_elem?-set [] i j b h = h
  get_elem?-set (x ∷ xs) zero zero b h = refl
  get_elem?-set (x ∷ xs) zero (suc j) b h = h
  get_elem?-set (x ∷ xs) (suc i) zero b h = h
  get_elem?-set (x ∷ xs) (suc i) (suc j) b h = get_elem?-set xs i j b h

  count-set :
      (xs : List A) (i : ℕ) (a b m : A)
      → get_elem? xs i ≡ some a
      → count (set xs i b) m + one_if (a == m) ≡ count xs m + one_if (b == m)
  unfolding count
  count-set [] i a b m h = absurd (ground arith)
  count-set (x ∷ xs) zero a b m h = ground arith
  count-set (x ∷ xs) (suc i) a b m h = ground (arith, count-set xs i a b m h)

  pub SameItems-swap : (xs : List A) (i j : ℕ) → SameItems (swap xs i j) xs
  unfolding swap
  SameItems-swap xs i j m = elim (Option-cases (get_elem? xs i)) [
    | inl p ↦ rw (p, swap) refl
    | inr (a, p) ↦ elim (Option-cases (get_elem? xs j)) [
      | inl q ↦ rw (p, q, swap) refl
      | inr (b, q) ↦
          rw (p, q, swap)
            (ground (
              arith,
              count-set xs i a b m p,
              count-set (set xs i b) j b a m (get_elem?-set xs i j b q),
            ))
    ]
  ]
