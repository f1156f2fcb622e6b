-- ===== src/Float/Fixed.antt =====
-- Fixed-point numbers, in units of 1/10000: floats that can be computed with, for tests and examples.
use native.Mathlib.Nat.{mul-le-mul_left, zero-div}
use scalping.Prelude.{
  ℕ, zero, suc, ◌+◌, ◌-◌, ◌*◌, ◌/◌, ◌^◌, ◌≤◌, ◌≡◌, refl, true, arith, ◌==◌, if◌then◌else◌,
}
use scalping.Prelude.Int.{ℤ, pos, negsuc, pos_part, neg_part, sub_ℕ, ltb_ℤ, leb_ℤ}
use scalping.Float.{Float, IsNumber}
use scalping.Float.Laws.{IsOrdered, IsRounded}

abbrev pub Fixed : Type 0
Fixed = ℤ

abbrev add : Fixed → Fixed → Fixed
add a b = sub_ℕ (pos_part a + pos_part b) (neg_part a + neg_part b)

abbrev sub : Fixed → Fixed → Fixed
sub a b = sub_ℕ (pos_part a + neg_part b) (neg_part a + pos_part b)

abbrev mul : Fixed → Fixed → Fixed
mul a b =
    sub_ℕ ((pos_part a * pos_part b + neg_part a * neg_part b) / 10000)
      ((pos_part a * neg_part b + neg_part a * pos_part b) / 10000)

abbrev div : Fixed → Fixed → Fixed
div a (pos b) = sub_ℕ (pos_part a * 10000 / b) (neg_part a * 10000 / b)
div a (negsuc b) = sub_ℕ (neg_part a * 10000 / suc b) (pos_part a * 10000 / suc b)

-- The multiple of `q` below a value.
abbrev floor_to : ℕ → Fixed → Fixed
floor_to q (pos n) = pos (n / q * q)
floor_to q (negsuc n) = negsuc (n / q * q + q - 1)

-- Two decimals are rounded down; the type itself has four.
abbrev round_to : Fixed → ℕ → Fixed
round_to x k = if k == 2 then floor_to 100 x else x

instance abbrev pub fixed_float : Float Fixed
fixed_float = record {
  dec = λ m k. pos (m * 10000 / 10 ^ k);
  neg = sub (pos 0);
  abs = λ x. pos (pos_part x + neg_part x);
  add = add;
  sub = sub;
  mul = mul;
  div = div;
  lt = ltb_ℤ;
  le = leb_ℤ;
  round = round_to;
  floor = floor_to 10000;
  is_finite = λ x. true;
}

pub Fixed-IsOrdered : IsOrdered Fixed
Fixed-IsOrdered = record {
  nought_refl = refl;
  le_of_lt = λ x y h. ground arith;
  refl_of_le = λ x y h. ground arith;
  le_trans = λ x y z h k. ground arith;
  le_total = λ x y h k. ground arith;
  lt-eq-not-le = λ x y h k. ground arith;
}

add_mono : (x y z : Fixed) → leb_ℤ x y ≡ true → leb_ℤ (add z x) (add z y) ≡ true
add_mono x y z h = ground arith

sub_anti : (x y z : Fixed) → leb_ℤ x y ≡ true → leb_ℤ (sub z y) (sub z x) ≡ true
sub_anti x y z h = ground arith

abbrev dec : ℕ → ℕ → Fixed
dec m k = pos (m * 10000 / 10 ^ k)

sub-le : (x y : Fixed) → leb_ℤ (dec 0 0) y ≡ true → leb_ℤ (sub x y) x ≡ true
sub-le x y h = ground arith

le-add : (x y : Fixed) → leb_ℤ (dec 0 0) y ≡ true → leb_ℤ x (add x y) ≡ true
le-add x y h = ground arith

le_of_sub : (x y : Fixed) → leb_ℤ (dec 0 0) (sub x y) ≡ true → leb_ℤ y x ≡ true
le_of_sub x y h = ground arith

mul_mono :
    (x y z : Fixed) → leb_ℤ (dec 0 0) z ≡ true → leb_ℤ x y ≡ true → leb_ℤ (mul z x) (mul z y) ≡ true
mul_mono (pos x) (pos y) (pos z) p h = ground (arith, mul-le-mul_left {m = x} {n = y} z)
mul_mono (pos x) (negsuc y) (pos z) p h = ground arith
mul_mono (negsuc x) (pos y) (pos z) p h = ground arith
mul_mono (negsuc x) (negsuc y) (pos z) p h =
    ground (arith, mul-le-mul_left {m = suc y} {n = suc x} z)
mul_mono x y (negsuc z) p h = ground arith

mul_nonneg :
    (x y : Fixed)
    → leb_ℤ (dec 0 0) x ≡ true
    → leb_ℤ (dec 0 0) y ≡ true
    → leb_ℤ (dec 0 0) (mul x y) ≡ true
mul_nonneg x y h k = ground arith

div_mono : (m n d : ℕ) → m ≤ n → m / d ≤ n / d
div_mono m n d h = grind arith

dec_mono : (m n k : ℕ) → m ≤ n → leb_ℤ (dec m k) (dec n k) ≡ true
dec_mono m n k h = ground (arith, div_mono (m * 10000) (n * 10000) (10 ^ k) (omega arith))

round_to-dec : (m j k : ℕ) → j ≤ k → round_to (dec m j) k ≡ dec m j
round_to-dec m zero k h = ground arith
round_to-dec m (suc zero) k h = ground arith
round_to-dec m (suc (suc zero)) k h = ground arith
round_to-dec m (suc (suc (suc j))) k h = ground arith

round_to_mono :
    (x y : Fixed) (k : ℕ) → leb_ℤ x y ≡ true → leb_ℤ (round_to x k) (round_to y k) ≡ true
round_to_mono x y k h = ground arith

pub Fixed-IsNumber : (x : Fixed) → IsNumber x
Fixed-IsNumber x = ground arith

pub Fixed-IsRounded : IsRounded Fixed
Fixed-IsRounded = record {
  add_mono = λ x y z h p q. add_mono x y z h;
  sub_anti = λ x y z h p q. sub_anti x y z h;
  sub-le = λ x y h p. sub-le x y h;
  le-add = λ x y h p. le-add x y h;
  le_of_sub = le_of_sub;
  mul_mono = λ x y z p h q r. mul_mono x y z p h;
  mul_nonneg = λ x y p q r. mul_nonneg x y p q;
  abs_nonneg = λ x p. ground arith;
  number_of_round = λ x k h. Fixed-IsNumber x;
  numbers_of_add = λ x y h. (Fixed-IsNumber x, Fixed-IsNumber y);
  numbers_of_sub = λ x y h. (Fixed-IsNumber x, Fixed-IsNumber y);
  numbers_of_mul = λ x y h. (Fixed-IsNumber x, Fixed-IsNumber y);
  number_of_abs = λ x h. Fixed-IsNumber x;
  neg-le = λ x h. ground arith;
  dec_mono = dec_mono;
  dec-zero = λ k. ground (arith, zero-div (10 ^ k));
  round_mono = round_to_mono;
  round-dec = round_to-dec;
}
