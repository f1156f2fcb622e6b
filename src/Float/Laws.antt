-- ===== src/Float/Laws.antt =====
-- What the proofs use of floats. Each law holds of IEEE doubles, NaN and the infinities included.
use scalping.Prelude.{◌≤◌, ℕ, true, not, ◌≡◌, ◌⊎◌, arith}
use scalping.Float.{Float, ◌⊕◌, ◌⊖◌, ◌⊗◌, ◌<?◌, ◌≼◌, IsNumber, max_of, min_of}

pub record IsOrdered {ℓ} (W : Type ℓ) ⦃f : Float W⦄ : Type ℓ where
  pub nought_refl : IsNumber (f.dec 0 0)
  pub le_of_lt : (x y : W) → (x <? y) ≡ true → x ≼ y
  pub refl_of_le : (x y : W) → x ≼ y → IsNumber x × IsNumber y
  pub le_trans : (x y z : W) → x ≼ y → y ≼ z → x ≼ z
  pub le_total : (x y : W) → IsNumber x → IsNumber y → (x ≼ y) ⊎ (y ≼ x)
  pub lt-eq-not-le : (x y : W) → IsNumber x → IsNumber y → (x <? y) ≡ not (f.le y x)

-- Every operation rounds its exact result to the nearest value, so order is kept, a result that is not
-- NaN comes from operands that are not, and a literal of at most k decimals is its own `round(x, k)`.
pub record IsRounded {ℓ} (W : Type ℓ) ⦃f : Float W⦄ : Type ℓ where
  pub add_mono : (x y z : W) → x ≼ y → IsNumber (z ⊕ x) → IsNumber (z ⊕ y) → z ⊕ x ≼ z ⊕ y
  pub sub_anti : (x y z : W) → x ≼ y → IsNumber (z ⊖ x) → IsNumber (z ⊖ y) → z ⊖ y ≼ z ⊖ x
  pub sub-le : (x y : W) → f.dec 0 0 ≼ y → IsNumber (x ⊖ y) → x ⊖ y ≼ x
  pub le-add : (x y : W) → f.dec 0 0 ≼ y → IsNumber (x ⊕ y) → x ≼ x ⊕ y
  pub le_of_sub : (x y : W) → f.dec 0 0 ≼ x ⊖ y → y ≼ x
  pub mul_mono :
      (x y z : W) → f.dec 0 0 ≼ z → x ≼ y → IsNumber (z ⊗ x) → IsNumber (z ⊗ y) → z ⊗ x ≼ z ⊗ y
  pub mul_nonneg : (x y : W) → f.dec 0 0 ≼ x → f.dec 0 0 ≼ y → IsNumber (x ⊗ y) → f.dec 0 0 ≼ x ⊗ y
  pub abs_nonneg : (x : W) → IsNumber x → f.dec 0 0 ≼ f.abs x
  pub neg-le : (x : W) → f.dec 0 0 ≼ x → f.neg x ≼ f.dec 0 0
  pub dec_mono : (m n k : ℕ) → m ≤ n → f.dec m k ≼ f.dec n k
  pub dec-zero : (k : ℕ) → f.dec 0 k ≡ f.dec 0 0
  pub round_mono : (x y : W) (k : ℕ) → x ≼ y → f.round x k ≼ f.round y k
  pub number_of_round : (x : W) (k : ℕ) → IsNumber (f.round x k) → IsNumber x
  pub numbers_of_add : (x y : W) → IsNumber (x ⊕ y) → IsNumber x × IsNumber y
  pub numbers_of_sub : (x y : W) → IsNumber (x ⊖ y) → IsNumber x × IsNumber y
  pub numbers_of_mul : (x y : W) → IsNumber (x ⊗ y) → IsNumber x × IsNumber y
  pub number_of_abs : (x : W) → IsNumber (f.abs x) → IsNumber x
  pub round-dec : (m j k : ℕ) → j ≤ k → f.round (f.dec m j) k ≡ f.dec m j

module _ {ℓ} {W : Type ℓ} ⦃f : Float W⦄ (laws : IsOrdered W) where
  open laws use {le_of_lt, refl_of_le, le_trans, le_total, lt-eq-not-le}

  pub max_of_bounds : (x y : W) → IsNumber x → IsNumber y → (x ≼ max_of x y) × (y ≼ max_of x y)
  unfolding max_of
  max_of_bounds x y p q = ground (arith, le_of_lt x y, lt-eq-not-le x y p q)

  pub min_of_bounds : (x y : W) → IsNumber x → IsNumber y → (min_of x y ≼ x) × (min_of x y ≼ y)
  unfolding min_of
  min_of_bounds x y p q = ground (arith, le_of_lt y x, lt-eq-not-le y x q p)

  pub lt_asym : (x y : W) → (x <? y) ≡ true → (y <? x) ≡ true → ⊥
  lt_asym x y h k =
      let (a, b) = refl_of_le x y (le_of_lt x y h) in
      ground (arith, lt-eq-not-le x y a b, le_of_lt y x k)

  -- The larger of two values is one of them.
  pub max_of-either : (x y : W) → (max_of x y ≡ x) ⊎ (max_of x y ≡ y)
  unfolding max_of
  max_of-either x y = ground arith

  pub min_of-either : (x y : W) → (min_of x y ≡ x) ⊎ (min_of x y ≡ y)
  unfolding min_of
  min_of-either x y = ground arith

  pub le-max_of : (lo x : W) → IsNumber (max_of lo x) → lo ≼ max_of lo x
  unfolding max_of
  le-max_of lo x h = ground (arith, le_of_lt lo x)

  -- `max(lo, min(hi, x))` lies between the limits, if these are in order, also for x NaN.
  pub clamp_bounds :
      (lo hi x : W) → lo ≼ hi → (lo ≼ max_of lo (min_of hi x)) × (max_of lo (min_of hi x) ≼ hi)
  unfolding max_of min_of
  clamp_bounds lo hi x h =
      ground (arith, le_of_lt lo x, le_of_lt x hi, le_of_lt lo hi, refl_of_le lo hi h)
