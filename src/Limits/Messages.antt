-- ===== src/Limits/Messages.antt =====
-- limits/mod.rs: what `MessageRateLimiter` lets through.
use bc_server_rust.Base.{
  ℕ, zero, suc, ◌+◌, ◌<◌, ◌≡◌, refl, false, some, List, [], ◌∷◌, ◌++◌, arith, ap, sym, ◌∙◌, ℤ, pos,
  ◌-i64◌, leb_ℤ, length, get_elem?,
}
use mathlib.Core.Path.{subst}
use native.Mathlib.Nat.{zero-add, suc-add}
use bc_server_rust.Limits.{MessageRateLimiter, new, check, replicate}

-- The limiter after a sequence of checks, whatever they answered.
pub run : MessageRateLimiter → List ℤ → MessageRateLimiter
run l [] = l
run l (t ∷ ts) = run (check l t).0 ts

-- No check of the sequence finds the socket over its limit.
abbrev pub Accepts : MessageRateLimiter → List ℤ → Type 0
Accepts l [] = Unit {0}
Accepts l (t ∷ ts) = ((check l t).1 ≡ false) × Accepts (check l t).0 ts

-- Two times more than a second apart, as the limiter measures it.
abbrev pub IsApart : ℤ → ℤ → Type 0
IsApart earlier later = leb_ℤ (later -i64 earlier) (pos 1000) ≡ false

append_one : (b ts : List ℤ) (t : ℤ) → (b ++ t ∷ []) ++ ts ≡ b ++ t ∷ ts
append_one [] ts t = refl
append_one (x ∷ b) ts t = ap (λ l. x ∷ l) (append_one b ts t)

abbrev holding : List ℤ → ℕ → MessageRateLimiter
holding b n = record { bucket = b; limit = n }

-- An entry of the bucket, or an earlier message, is compared with the message that evicts it.
IsApart-behind :
    (b ts : List ℤ) (x : ℤ) (n i : ℕ) {earlier later : ℤ}
    → 0 < n
    → Accepts (holding (x ∷ b) n) ts
    → get_elem? ((x ∷ b) ++ ts) i ≡ some earlier
    → get_elem? ts i ≡ some later
    → IsApart earlier later
unfolding check
IsApart-behind b [] x n i p a g h = absurd (ground arith)
IsApart-behind b (t ∷ ts) x n zero p a g h = ground arith
IsApart-behind [] (t ∷ ts) x n (suc i) p a g h = IsApart-behind [] ts t n i p a.1 g h
IsApart-behind (y ∷ c) (t ∷ ts) x n (suc i) {earlier = earlier} p a g h =
    IsApart-behind (c ++ t ∷ []) ts y n i p a.1
      (subst (λ l. get_elem? l i ≡ some earlier) (sym (append_one (y ∷ c) ts t)) g) h

length-replicate : (n : ℕ) (t : ℤ) → length (replicate n t) ≡ n
length-replicate zero t = refl
length-replicate (suc n) t = ap suc (length-replicate n t)

get_elem?-append : (b ts : List ℤ) (i : ℕ) → get_elem? (b ++ ts) (length b + i) ≡ get_elem? ts i
get_elem?-append [] ts i = rw (zero-add)
get_elem?-append (x ∷ b) ts i = rw (suc-add) (get_elem?-append b ts i)

-- A new limiter that has accepted every message of a sequence has let no `limit + 1` of them through
-- within a second: a message and the one `limit` places behind it are more than a second apart.
pub accepted-IsApart :
    (limit : ℕ) (ts : List ℤ) (i : ℕ) (earlier later : ℤ)
    → 0 < limit
    → Accepts (new limit) ts
    → get_elem? ts i ≡ some earlier
    → get_elem? ts (i + limit) ≡ some later
    → IsApart earlier later
unfolding new
accepted-IsApart zero ts i earlier later p a g h = absurd (omega arith)
accepted-IsApart (suc n) ts i earlier later p a g h =
    IsApart-behind (replicate n (pos 0)) ts (pos 0) (suc n) (i + suc n) p a moved h
  where
    zeros : List ℤ
    zeros = replicate (suc n) (pos 0)

    place : length zeros + i ≡ i + suc n
    place = omega (arith, length-replicate (suc n) (pos 0))

    moved : get_elem? (zeros ++ ts) (i + suc n) ≡ some earlier
    moved =
        subst (λ k. get_elem? (zeros ++ ts) k ≡ some earlier) place
          (get_elem?-append zeros ts i ∙ g)
