-- ===== src/Float.antt =====
-- Python's `float`: the operations that the program uses, over any type of values.
use scalping.Prelude.{ℕ, Bool, true, ◌≡◌, if◌then◌else◌, List, [], ◌∷◌}
pub mod Laws
pub mod Fixed

pub record Float {ℓ} (W : Type ℓ) : Type ℓ where
  -- `dec m k` is the literal m * 10 ** -k.
  pub dec : ℕ → ℕ → W
  pub neg : W → W
  pub abs : W → W
  pub add : W → W → W
  pub sub : W → W → W
  pub mul : W → W → W
  pub div : W → W → W
  pub lt : W → W → Bool
  pub le : W → W → Bool
  -- `round(x, k)`, and `floor(x)` as the float that the code multiplies it as.
  pub round : W → ℕ → W
  pub floor : W → W
  pub is_finite : W → Bool

module _ {ℓ} {W : Type ℓ} ⦃f : Float W⦄ where
  infixl 65 ◌⊕◌ ◌⊖◌
  infixl 70 ◌⊗◌ ◌⊘◌
  infix 50 ◌<?◌ ◌≤?◌
  infix 4 ◌≼◌
  abbrev pub ◌⊕◌ : W → W → W
  ◌⊕◌ = f.add

  abbrev pub ◌⊖◌ : W → W → W
  ◌⊖◌ = f.sub

  abbrev pub ◌⊗◌ : W → W → W
  ◌⊗◌ = f.mul

  abbrev pub ◌⊘◌ : W → W → W
  ◌⊘◌ = f.div

  -- `x < y` and `x <= y`. Python's `x > y` is `y < x`.
  abbrev pub ◌<?◌ : W → W → Bool
  ◌<?◌ = f.lt

  abbrev pub ◌≤?◌ : W → W → Bool
  ◌≤?◌ = f.le

  abbrev pub ◌≼◌ : W → W → Type 0
  x ≼ y = f.le x y ≡ true

  -- What is `<=` itself is not NaN.
  abbrev pub IsNumber : W → Type 0
  IsNumber x = x ≼ x

  abbrev pub nought : W
  nought = f.dec 0 0

  -- `max(x, y)` and `min(x, y)`: the first argument, unless the second is strictly past it.
  unfoldable pub max_of : W → W → W
  max_of x y = if x <? y then y else x

  unfoldable pub min_of : W → W → W
  min_of x y = if y <? x then y else x

  -- `max(xs)` and `min(xs)` of `x ∷ xs`.
  unfoldable pub max_list : W → List W → W
  max_list x [] = x
  max_list x (y ∷ ys) = max_list (max_of x y) ys

  unfoldable pub min_list : W → List W → W
  min_list x [] = x
  min_list x (y ∷ ys) = min_list (min_of x y) ys

  -- `sum(xs)`, from the left.
  unfoldable pub sum_from : W → List W → W
  sum_from s [] = s
  sum_from s (x ∷ xs) = sum_from (s ⊕ x) xs
