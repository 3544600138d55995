-- ===== src/Decimal/Fixed.antt =====
-- A context with three decimal places that rounds towards zero: it meets `IsSound`.
use xian_dex_automation.Base.{suc, ℕ, ◌*◌, ◌/◌, ◌≡◌, arith}
use xian_dex_automation.Base.Int.{ℤ, pos, negsuc, negate, ◌-ℤ◌, ◌+ℤ◌, ◌≤ℤ◌, int_laws}
use xian_dex_automation.Decimal.{Decimal, Context, IsSound}

-- `f` on the magnitudes, under the sign of the exact product or quotient.
abbrev signed : (ℕ → ℕ → ℕ) → ℤ → ℤ → ℤ
signed f (pos a) (pos b) = pos (f a b)
signed f (pos a) (negsuc b) = negate (pos (f a (suc b)))
signed f (negsuc a) (pos b) = negate (pos (f (suc a) b))
signed f (negsuc a) (negsuc b) = pos (f (suc a) (suc b))

abbrev product : ℕ → ℕ → ℕ
product a b = a * b / 1000

abbrev quotient : ℕ → ℕ → ℕ
quotient a b = a * 1000 / b

abbrev pub fixed : Context
fixed = record { one = 1000; add = ◌+ℤ◌; sub = ◌-ℤ◌; mul = signed product; div = signed quotient }

zero_product : (b : ℕ) → product 0 b ≡ 0
zero_product b = grind arith

zero_quotient : (b : ℕ) → quotient 0 b ≡ 0
zero_quotient b = grind arith

module _ (f : ℕ → ℕ → ℕ) (zero_left : (b : ℕ) → f 0 b ≡ 0) where
  signed_zero : (a : Decimal) → signed f (pos 0) a ≡ pos 0
  signed_zero (pos a) = rw zero_left
  signed_zero (negsuc a) = rw zero_left

  signed_nonpos : (a b : Decimal) → a ≤ℤ pos 0 → pos 0 ≤ℤ b → signed f a b ≤ℤ pos 0
  signed_nonpos (pos a) (pos b) h k = let e : a ≡ 0 = omega arith in rw (e, zero_left) (omega arith)
  signed_nonpos (pos a) (negsuc b) h k = grind arith
  signed_nonpos (negsuc a) (pos b) h k = grind arith
  signed_nonpos (negsuc a) (negsuc b) h k = grind arith

signed_nonneg : (f : ℕ → ℕ → ℕ) (a b : Decimal) → pos 0 ≤ℤ a → pos 0 ≤ℤ b → pos 0 ≤ℤ signed f a b
signed_nonneg f (pos a) (pos b) h k = omega arith
signed_nonneg f (pos a) (negsuc b) h k = grind arith
signed_nonneg f (negsuc a) (pos b) h k = grind arith
signed_nonneg f (negsuc a) (negsuc b) h k = grind arith

pub fixed-IsSound : IsSound fixed
fixed-IsSound = record {
  one_pos = omega arith;
  sub_self = λ a. omega int_laws;
  zero_div = λ a h. signed_zero quotient zero_quotient a;
  zero_mul = λ a. signed_zero product zero_product a;
  sub_nonpos = λ a b h. omega int_laws;
  sub_nonneg = λ a b h. omega int_laws;
  div_nonpos = λ a b h k. signed_nonpos quotient zero_quotient a b h (omega arith);
  div_nonneg = λ a b h k. signed_nonneg quotient a b h (omega arith);
  mul_nonpos = λ a b h k. signed_nonpos product zero_product a b h k;
  mul_nonneg = λ a b h k. signed_nonneg product a b h k;
}
