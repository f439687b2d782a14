-- ===== src/Prelude/Int.antt =====
-- Signed integers over the native numbers: Python's `int`, under the library's names.
use Prim.Native.Nat.{ℕ, suc, ◌+◌, ◌-◌, ◌≤◌}
use mathlib.Core.Path.{◌≡◌, refl}
use mathlib.Core.Logic.{◌↔◌, ◌⊎◌, inl, inr}
use mathlib.Core.Bool.{Bool, true}
use native.Mathlib.Omega.{arith}
use ksqlite.Prelude.Tests.{Bool-cases, ltb→lt, not-ltb→le, ltb, leb, ◌==◌, if◌then◌else◌}

-- `negsuc n` is -(n + 1)
pub data ℤ : Type 0 where
  pos : ℕ → ℤ
  negsuc : ℕ → ℤ

abbrev pub pos_part : ℤ → ℕ
pos_part (pos n) = n
pos_part (negsuc n) = 0

abbrev pub neg_part : ℤ → ℕ
neg_part (pos n) = 0
neg_part (negsuc n) = suc n

-- a - b, as an integer
abbrev pub sub_ℕ : ℕ → ℕ → ℤ
sub_ℕ a b = if leb b a then pos (a - b) else negsuc (b - a - 1)

infixl 65 ◌+ℤ◌ ◌-ℤ◌
infix 50 ◌≤ℤ◌ ◌<ℤ◌
unfoldable pub ◌+ℤ◌ : ℤ → ℤ → ℤ
a +ℤ b = sub_ℕ (pos_part a + pos_part b) (neg_part a + neg_part b)

unfoldable pub ◌-ℤ◌ : ℤ → ℤ → ℤ
a -ℤ b = sub_ℕ (pos_part a + neg_part b) (neg_part a + pos_part b)

abbrev pub ◌≤ℤ◌ : ℤ → ℤ → Type 0
a ≤ℤ b = pos_part a + neg_part b ≤ pos_part b + neg_part a

abbrev pub ◌<ℤ◌ : ℤ → ℤ → Type 0
a <ℤ b = suc (pos_part a + neg_part b) ≤ pos_part b + neg_part a

abbrev pub ltb_ℤ : ℤ → ℤ → Bool
ltb_ℤ a b = ltb (pos_part a + neg_part b) (pos_part b + neg_part a)

abbrev pub eqb_ℤ : ℤ → ℤ → Bool
eqb_ℤ a b = pos_part a + neg_part b == pos_part b + neg_part a

-- with these the operations can stay shut
pub +ℤ_parts :
    (a b : ℤ)
    → pos_part (a +ℤ b) + neg_part a + neg_part b ≡ neg_part (a +ℤ b) + pos_part a + pos_part b
unfolding ◌+ℤ◌
+ℤ_parts a b = ground arith

pub -ℤ_parts :
    (a b : ℤ)
    → pos_part (a -ℤ b) + neg_part a + pos_part b ≡ neg_part (a -ℤ b) + pos_part a + neg_part b
unfolding ◌-ℤ◌
-ℤ_parts a b = ground arith

pub eq_of_parts : (a b : ℤ) → pos_part a + neg_part b ≡ pos_part b + neg_part a → a ≡ b
eq_of_parts a b h = ground arith

pub ruleset int_laws = (arith, +ℤ_parts, -ℤ_parts, eq_of_parts)

pub eqb_ℤ_iff : (a b : ℤ) → (eqb_ℤ a b ≡ true) ↔ (a ≡ b)
eqb_ℤ_iff a b = (λ h. ground arith, λ h. ground arith)

abbrev pub max_ℤ : ℤ → ℤ → ℤ
max_ℤ a b = if ltb_ℤ a b then b else a

pub le_or_next : (a b : ℤ) → (a ≤ℤ b) ⊎ (b +ℤ pos 1 ≤ℤ a)
le_or_next a b = elim (Bool-cases (ltb_ℤ b a)) [
  | inl above ↦ inr (omega (int_laws, ltb→lt _ _ above))
  | inr within ↦ inl (omega (int_laws, not-ltb→le _ _ within))
]

pub le-max : (a b c : ℤ) → a ≤ℤ max_ℤ b c → (a ≤ℤ b) ⊎ (a ≤ℤ c)
le-max a b c h = elim (Bool-cases (ltb_ℤ b c)) [
  | inl above ↦ inr (rw above at h)
  | inr within ↦ inl (rw within at h)
]

pub max_below : (a b : ℤ) → b ≤ℤ a → max_ℤ a b ≡ a
max_below a b h = elim (Bool-cases (ltb_ℤ a b)) [
  | inl above ↦ omega (int_laws, h, ltb→lt _ _ above)
  | inr within ↦ rw within refl
]

pub right_le_max : (a b : ℤ) → b ≤ℤ max_ℤ a b
right_le_max a b = elim (Bool-cases (ltb_ℤ a b)) [
  | inl above ↦ rw above (omega int_laws)
  | inr within ↦ rw within (not-ltb→le _ _ within)
]
