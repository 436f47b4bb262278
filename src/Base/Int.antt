-- ===== src/Base/Int.antt =====
-- Signed integers: `i64` and `i32` with the wrap-around of a release build.
use Prim.Native.Nat.{ℕ, suc, ◌+◌, ◌-◌, ◌%◌, ◌≤◌, ◌<◌}
use mathlib.Core.Path.{◌≡◌}
use mathlib.Core.Logic.{◌↔◌}
use mathlib.Core.Bool.{Bool, true, false, ◌&&◌}
use native.Mathlib.Omega.{arith}
use bc_server_rust.Base.Tests.{ltb, leb, nat_beq, if◌then◌else◌, PartialEq}

-- `negsuc n` is -(n + 1).
pub data ℤ : Type 0 where
  pos : ℕ → ℤ
  negsuc : ℕ → ℤ

abbrev pub pos_part : ℤ → ℕ
pos_part (pos n) = n
pos_part (negsuc n) = 0

abbrev pub neg_part : ℤ → ℕ
neg_part (pos n) = 0
neg_part (negsuc n) = suc n

-- a - b, as an integer.
abbrev pub sub_ℕ : ℕ → ℕ → ℤ
sub_ℕ a b = if leb b a then pos (a - b) else negsuc (b - a - 1)

infixl 65 ◌+ℤ◌ ◌-ℤ◌
infix 50 ◌≤ℤ◌ ◌<ℤ◌
unfoldable pub ◌+ℤ◌ : ℤ → ℤ → ℤ
a +ℤ b = sub_ℕ (pos_part a + pos_part b) (neg_part a + neg_part b)

unfoldable pub ◌-ℤ◌ : ℤ → ℤ → ℤ
a -ℤ b = sub_ℕ (pos_part a + neg_part b) (neg_part a + pos_part b)

abbrev pub ◌≤ℤ◌ : ℤ → ℤ → Type 0
a ≤ℤ b = pos_part a + neg_part b ≤ pos_part b + neg_part a

abbrev pub ◌<ℤ◌ : ℤ → ℤ → Type 0
a <ℤ b = pos_part a + neg_part b < pos_part b + neg_part a

abbrev pub ltb_ℤ : ℤ → ℤ → Bool
ltb_ℤ a b = ltb (pos_part a + neg_part b) (pos_part b + neg_part a)

abbrev pub leb_ℤ : ℤ → ℤ → Bool
leb_ℤ a b = leb (pos_part a + neg_part b) (pos_part b + neg_part a)

unfoldable pub int_beq : ℤ → ℤ → Bool
int_beq (pos a) (pos b) = nat_beq a b
int_beq (negsuc a) (negsuc b) = nat_beq a b
int_beq _ _ = false

pub int_beq_iff : (a b : ℤ) → (int_beq a b ≡ true) ↔ (a ≡ b)
unfolding int_beq
int_beq_iff (pos a) (pos b) = ground arith
int_beq_iff (pos a) (negsuc b) = ground arith
int_beq_iff (negsuc a) (pos b) = ground arith
int_beq_iff (negsuc a) (negsuc b) = ground arith

instance abbrev pub int_eq : PartialEq ℤ
int_eq = record { decides = int_beq_iff; eq = int_beq }

pub +ℤ_parts :
    (a b : ℤ)
    → pos_part (a +ℤ b) + neg_part a + neg_part b ≡ neg_part (a +ℤ b) + pos_part a + pos_part b
unfolding ◌+ℤ◌
+ℤ_parts a b = ground arith

pub -ℤ_parts :
    (a b : ℤ)
    → pos_part (a -ℤ b) + neg_part a + pos_part b ≡ neg_part (a -ℤ b) + pos_part a + neg_part b
unfolding ◌-ℤ◌
-ℤ_parts a b = ground arith

pub ruleset int_laws = (arith, +ℤ_parts, -ℤ_parts)

-- The residue of `z` modulo `m`, from 0 to `m - 1`.
abbrev residue : ℤ → ℕ → ℕ
residue (pos n) m = n % m
residue (negsuc n) m = m - 1 - n % m

-- The two's complement value of the low bits, `half` being 2 ^ (width - 1).
abbrev wrap : ℕ → ℤ → ℤ
wrap half z =
    let r = residue z (half + half) in if ltb r half then pos r else negsuc (half + half - 1 - r)

unfoldable pub wrap_i32 : ℤ → ℤ
wrap_i32 z = wrap 0x80000000 z

unfoldable pub wrap_i64 : ℤ → ℤ
wrap_i64 z = wrap 0x8000000000000000 z

-- The `+` and `-` of `i64`.
infixl 65 ◌+i64◌ ◌-i64◌
unfoldable pub ◌+i64◌ : ℤ → ℤ → ℤ
unfolding wrap_i64 ◌+ℤ◌
a +i64 b = wrap_i64 (a +ℤ b)

unfoldable pub ◌-i64◌ : ℤ → ℤ → ℤ
unfolding wrap_i64 ◌-ℤ◌
a -i64 b = wrap_i64 (a -ℤ b)

unfoldable pub fits_i64 : ℤ → Bool
fits_i64 z = leb (pos_part z) 0x7fffffffffffffff && leb (neg_part z) 0x8000000000000000

abbrev pub InI64 : ℤ → Type 0
InI64 z = (pos_part z < 0x8000000000000000) × (neg_part z ≤ 0x8000000000000000)

pub wrap_i64-eq : (z : ℤ) → InI64 z → wrap_i64 z ≡ z
unfolding wrap_i64
wrap_i64-eq (pos n) h = ground arith
wrap_i64-eq (negsuc n) h = ground arith

pub wrap_i32-eq : (z : ℤ) → pos_part z < 0x80000000 → neg_part z ≤ 0x80000000 → wrap_i32 z ≡ z
unfolding wrap_i32
wrap_i32-eq (pos n) h k = ground arith
wrap_i32-eq (negsuc n) h k = ground arith
