-- ===== src/Base/Int.antt =====
-- Signed integers: the identifiers of slots and the integer settings of the configuration.
use Prim.Native.Nat.{suc, ℕ, ◌+◌, ◌<◌}
use mathlib.Core.Bool.{Bool, false, true}
use mathlib.Core.Logic.{◌↔◌}
use mathlib.Core.Path.{◌≡◌}
use native.Mathlib.Omega.{arith}
use gemini_web2api_go.Base.Tests.{Comparable, ltb, nat_beq}

-- `negsuc n` is -(n + 1).
pub data ℤ : Type 0 where
  pos : ℕ → ℤ
  negsuc : ℕ → ℤ

abbrev pub pos_part : ℤ → ℕ
pos_part (pos n) = n
pos_part (negsuc n) = 0

abbrev pub neg_part : ℤ → ℕ
neg_part (pos n) = 0
neg_part (negsuc n) = suc n

-- `v > 0`
abbrev pub is_positive : ℤ → Bool
is_positive v = ltb 0 (pos_part v)

-- `v < 0`
abbrev pub is_negative : ℤ → Bool
is_negative v = ltb 0 (neg_part v)

abbrev pub ltb_ℤ : ℤ → ℤ → Bool
ltb_ℤ a b = ltb (pos_part a + neg_part b) (pos_part b + neg_part a)

abbrev pub ◌<ℤ◌ : ℤ → ℤ → Type 0
◌<ℤ◌ a b = pos_part a + neg_part b < pos_part b + neg_part a

-- `id - 1`, for an identifier below zero.
abbrev pub pred_neg : ℤ → ℤ
pred_neg (pos n) = negsuc 0
pred_neg (negsuc n) = negsuc (suc n)

unfoldable pub int_beq : ℤ → ℤ → Bool
int_beq (pos a) (pos b) = nat_beq a b
int_beq (negsuc a) (negsuc b) = nat_beq a b
int_beq _ _ = false

pub int_beq_iff : (a b : ℤ) → (int_beq a b ≡ true) ↔ (a ≡ b)
unfolding int_beq
int_beq_iff (pos a) (pos b) = ground arith
int_beq_iff (negsuc a) (negsuc b) = ground arith
int_beq_iff _ _ = ground arith

instance abbrev pub int_eq : Comparable ℤ
int_eq = record { equal = int_beq; equal_iff = int_beq_iff }
