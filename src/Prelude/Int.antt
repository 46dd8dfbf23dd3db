-- ===== src/Prelude/Int.antt =====
-- Signed integers over the native numbers, and the Rust type i64.
use Prim.Native.Nat.{ℕ, zero, suc, ◌+◌, ◌-◌, ◌≤◌, ◌<◌, ◌^◌}
use mathlib.Core.Path.{◌≡◌}
use mathlib.Core.Logic.{◌↔◌}
use mathlib.Core.Bool.{Bool, true, false}
use native.Mathlib.Omega.{arith}
use kafka_cad.Prelude.Tests.{ltb, leb, ◌==◌, if◌then◌else◌}

-- `negsuc n` is -(n + 1).
pub data ℤ : Type 0 where
  pos : ℕ → ℤ
  negsuc : ℕ → ℤ

abbrev pub pos_part : ℤ → ℕ
pos_part (pos n) = n
pos_part (negsuc n) = 0

abbrev pub neg_part : ℤ → ℕ
neg_part (pos n) = 0
neg_part (negsuc n) = suc n

-- a - b, as an integer.
abbrev pub sub_ℕ : ℕ → ℕ → ℤ
sub_ℕ a b = if leb b a then pos (a - b) else negsuc (b - a - 1)

infix 50 ◌≤ℤ◌ ◌<ℤ◌
abbrev pub ◌≤ℤ◌ : ℤ → ℤ → Type 0
a ≤ℤ b = pos_part a + neg_part b ≤ pos_part b + neg_part a

abbrev pub ◌<ℤ◌ : ℤ → ℤ → Type 0
a <ℤ b = pos_part a + neg_part b < pos_part b + neg_part a

abbrev pub leb_ℤ : ℤ → ℤ → Bool
leb_ℤ a b = leb (pos_part a + neg_part b) (pos_part b + neg_part a)

abbrev pub ltb_ℤ : ℤ → ℤ → Bool
ltb_ℤ a b = ltb (pos_part a + neg_part b) (pos_part b + neg_part a)

abbrev pub beq_ℤ : ℤ → ℤ → Bool
beq_ℤ (pos a) (pos b) = a == b
beq_ℤ (negsuc a) (negsuc b) = a == b
beq_ℤ _ _ = false

pub leb_ℤ→le : (a b : ℤ) → leb_ℤ a b ≡ true → a ≤ℤ b
leb_ℤ→le a b h = ground arith

pub leb_ℤ-le_iff : (a b : ℤ) → (leb_ℤ a b ≡ true) ↔ (a ≤ℤ b)
leb_ℤ-le_iff a b = ground arith

pub beq_ℤ_iff : (a b : ℤ) → (beq_ℤ a b ≡ true) ↔ (a ≡ b)
beq_ℤ_iff (pos a) (pos b) = ground arith
beq_ℤ_iff (negsuc a) (negsuc b) = ground arith
beq_ℤ_iff a b = ground arith

-- `z - 1` on an i64, which wraps at the least value as a release build does.
pub pred_i64 : ℤ → ℤ
pred_i64 z =
    if beq_ℤ z (negsuc (2 ^ 63 - 1)) then pos (2 ^ 63 - 1) else sub_ℕ (pos_part z) (neg_part z + 1)

pub pred_i64-pos : (n : ℕ) → pred_i64 (pos (suc n)) ≡ pos n
unfolding pred_i64
pred_i64-pos n = ground arith

-- At most one less is the same as less.
pub leb-pred : (z : ℤ) (n : ℕ) → leb_ℤ z (pred_i64 (pos n)) ≡ ltb_ℤ z (pos n)
unfolding pred_i64
leb-pred (pos a) zero = ground arith
leb-pred (pos a) (suc n) = ground arith
leb-pred (negsuc a) zero = ground arith
leb-pred (negsuc a) (suc n) = ground arith
