-- ===== src/Base/Membership.antt =====
-- The elements of a list.
use Prim.Native.Nat.{ℕ, zero, suc}
use mathlib.Core.Path.{◌≡◌, sym, ap, ◌∙◌}
use mathlib.Core.Logic.{◌⊎◌, inl, inr}
use mathlib.Core.Bool.{Bool, true}
use mathlib.Core.List.{List, [], ◌∷◌}
use native.Mathlib.Omega.{arith}
use bc_server_rust.Base.Tests.{Bool-cases}
use bc_server_rust.Base.Lists.{retain, take, all}

module _ {A : Type 0} where
  unfoldable pub IsIn : A → List A → Type 0
  IsIn a [] = ⊥
  IsIn a (x ∷ xs) = (x ≡ a) ⊎ IsIn a xs

  pub IsIn-retain :
      (p : A → Bool) (a : A) (xs : List A) → p a ≡ true → IsIn a xs → IsIn a (retain p xs)
  unfolding retain IsIn
  IsIn-retain p a [] h i = i
  IsIn-retain p a (x ∷ xs) h (inl e) = rw (ap p e ∙ h) (inl e)
  IsIn-retain p a (x ∷ xs) h (inr i) = elim (Bool-cases (p x)) [
    | inl e ↦ rw e (inr (IsIn-retain p a xs h i))
    | inr e ↦ rw e (IsIn-retain p a xs h i)
  ]

  pub IsIn-retained :
      (p : A → Bool) (a : A) (xs : List A) → IsIn a (retain p xs) → (p a ≡ true) × IsIn a xs
  unfolding retain IsIn
  IsIn-retained p a [] h = absurd h
  IsIn-retained p a (x ∷ xs) h = elim (Bool-cases (p x)) [
    | inl e ↦ elim (rw e at h) [
      | inl g ↦ (sym (ap p g) ∙ e, inl g)
      | inr g ↦ let (q, i) = IsIn-retained p a xs g in (q, inr i)
    ]
    | inr e ↦ let (q, i) = IsIn-retained p a xs (rw e at h) in (q, inr i)
  ]

  pub IsIn-take : (n : ℕ) (a : A) (xs : List A) → IsIn a (take n xs) → IsIn a xs
  unfolding IsIn
  IsIn-take zero a xs h = absurd h
  IsIn-take (suc n) a [] h = h
  IsIn-take (suc n) a (x ∷ xs) (inl e) = inl e
  IsIn-take (suc n) a (x ∷ xs) (inr i) = inr (IsIn-take n a xs i)

  pub all-IsIn : (p : A → Bool) (a : A) (xs : List A) → all p xs ≡ true → IsIn a xs → p a ≡ true
  unfolding all IsIn
  all-IsIn p a [] h i = absurd i
  all-IsIn p a (x ∷ xs) h (inl e) = sym (ap p e) ∙ ground arith
  all-IsIn p a (x ∷ xs) h (inr i) = all-IsIn p a xs (ground arith) i
