-- ===== src/CpSwap/ConstantProduct/Invariant.antt =====
-- Lemmas on the two swaps of the curve (sega-cp-swap/src/constant_product.rs).
use native.Mathlib.Nat.{
  div-mul-le_self, lt-div-mul-add, mul-le-mul_left, mul-sub, le_of_mul-le-mul_right,
  lt_of_mul-lt-mul_right,
}
use jupiter_amm_implementati.Base.{
  ℕ, ◌+◌, ◌*◌, ◌-◌, ◌/◌, ◌≤◌, ◌<◌, ◌≡◌, ◌↔◌, true, is_ok, is_ok→value, Outcome-cases, Bool-cases,
  leb, leb→le, inl, inr, ok, panic, u128_max, arith,
}
use jupiter_amm_implementati.CpSwap.CeilDiv.{
  checked_ceil_div, checked_ceil_div_pos, checked_ceil_div_small, checked_ceil_div-IsCeilQuotient,
  checked_ceil_div_total,
}
use jupiter_amm_implementati.CpSwap.ConstantProduct.{
  swap_base_input_without_fees, swap_base_output_without_fees,
}

module _ {E : Type 0} (dx x y : ℕ) where
  -- The exact result, wherever nothing overflows and the denominator is not 0.
  pub swap_base_input_without_fees_ok :
      dx * y ≤ u128_max
      → x + dx ≤ u128_max
      → 0 < x + dx
      → swap_base_input_without_fees {E = E} dx x y ≡ ok (dx * y / (x + dx))
  unfolding swap_base_input_without_fees
  swap_base_input_without_fees_ok fits sum pos = ground arith

  swap_base_input_without_fees_value :
      {dy : ℕ}
      → swap_base_input_without_fees {E = E} dx x y ≡ ok dy
      → (0 < x + dx) × (dy ≡ dx * y / (x + dx))
  unfolding swap_base_input_without_fees
  swap_base_input_without_fees_value h = ground arith

  -- The amount paid out is the exact quotient rounded down.
  swap_base_input_without_fees_bounds :
      {dy : ℕ}
      → swap_base_input_without_fees {E = E} dx x y ≡ ok dy
      → (dy * (x + dx) ≤ dx * y) × (dx * y < dy * (x + dx) + (x + dx))
  swap_base_input_without_fees_bounds h =
      let (pos, value) = swap_base_input_without_fees_value h in
      rw value (div-mul-le_self (dx * y) (x + dx), lt-div-mul-add pos)

  pub swap_base_input_without_fees-le :
      {dy : ℕ} → swap_base_input_without_fees {E = E} dx x y ≡ ok dy → dy ≤ y
  swap_base_input_without_fees-le {dy} h =
      let (low, _) = swap_base_input_without_fees_bounds h in
      let (pos, _) = swap_base_input_without_fees_value h in
      le_of_mul-le-mul_right {k = x + dx} (omega arith) pos

  -- A swap pays out at most the destination reserve; the product of the reserves does not fall, and
  -- it grows by less than the new source reserve.
  pub swap_base_input_without_fees_product :
      {dy : ℕ}
      → swap_base_input_without_fees {E = E} dx x y ≡ ok dy
      → (dy ≤ y) × (x * y ≤ (x + dx) * (y - dy)) × ((x + dx) * (y - dy) < x * y + (x + dx))
  swap_base_input_without_fees_product {dy} h =
      let (low, high) = swap_base_input_without_fees_bounds h in
      let below = swap_base_input_without_fees-le h in
      let spread = mul-sub (x + dx) y dy in
      let room = mul-le-mul_left (x + dx) below in (below, omega arith, omega arith)

  -- No larger amount keeps the product.
  pub swap_base_input_without_fees_largest :
      (other : ℕ) {dy : ℕ}
      → swap_base_input_without_fees {E = E} dx x y ≡ ok dy
      → other ≤ y
      → x * y ≤ (x + dx) * (y - other)
      → other ≤ dy
  swap_base_input_without_fees_largest other {dy} h fits keeps =
      let (low, high) = swap_base_input_without_fees_bounds h in
      let scaled : other * (x + dx) < (dy + 1) * (x + dx) =
        omega (arith, mul-sub (x + dx) y other, mul-le-mul_left (x + dx) fits) in
      omega (arith, lt_of_mul-lt-mul_right (x + dx) scaled)

-- The swap succeeds exactly when the product and the sum fit a u128 and the sum is not 0; in all
-- other cases it panics.
pub swap_base_input_without_fees_iff :
    (E : Type 0) (dx x y : ℕ)
    → (is_ok (swap_base_input_without_fees {E = E} dx x y) ≡ true
        ↔ ((dx * y ≤ u128_max) × (x + dx ≤ u128_max) × (0 < x + dx)))
      × (swap_base_input_without_fees {E = E} dx x y ≡ panic
          ↔ ¬ ((dx * y ≤ u128_max) × (x + dx ≤ u128_max) × (0 < x + dx)))
unfolding swap_base_input_without_fees
swap_base_input_without_fees_iff E dx x y =
    ((λ h. ground arith, λ h. ground arith), (λ h. λ c. ground arith, λ h. ground arith))

module _ {E : Type 0} (dy x y : ℕ) where
  swap_base_output_without_fees_value :
      {dx : ℕ}
      → swap_base_output_without_fees {E = E} dy x y ≡ ok dx
      → (dy < y) × (r : ℕ) × (checked_ceil_div (x * dy) (y - dy) ≡ ok (dx, r))
  unfolding swap_base_output_without_fees
  swap_base_output_without_fees_value h =
      elim (Outcome-cases (checked_ceil_div (x * dy) (y - dy))) [
        | inl ((q, r), e) ↦
            (ground (arith, checked_ceil_div_pos (x * dy) (y - dy) e), r, ground arith)
        | inr (inl (n, e)) ↦ absurd (ground arith)
        | inr (inr e) ↦ absurd (ground arith)
      ]

  -- A product below half of the rest of the reserve is charged nothing at all.
  pub swap_base_output_without_fees_free :
      {dx : ℕ} → x * dy * 2 < y - dy → swap_base_output_without_fees {E = E} dy x y ≡ ok dx → dx ≡ 0
  swap_base_output_without_fees_free low h =
      let (below, r, e) = swap_base_output_without_fees_value h in
      ground (arith, checked_ceil_div_small (x * dy) (y - dy) (omega arith) e)

  -- For a demand whose product with the source reserve is at least half of what stays behind, the
  -- demand is below the reserve, the product of the reserves does not fall, and it grows by less
  -- than what stays behind.
  pub swap_base_output_without_fees_product :
      {dx : ℕ}
      → y - dy ≤ x * dy * 2
      → swap_base_output_without_fees {E = E} dy x y ≡ ok dx
      → (dy < y) × (x * y ≤ (x + dx) * (y - dy)) × ((x + dx) * (y - dy) < x * y + (y - dy))
  swap_base_output_without_fees_product {dx} half h =
      let (below, r, e) = swap_base_output_without_fees_value h in
      let (low, high) = checked_ceil_div-IsCeilQuotient (x * dy) (y - dy) half e in
      let spread = mul-sub x y dy in
      let room = mul-le-mul_left x below in (below, omega arith, omega arith)

  -- The charge is at most any bound that covers the exact quotient.
  pub swap_base_output_without_fees-le :
      (bound : ℕ) {dx : ℕ}
      → x * dy ≤ bound * (y - dy)
      → swap_base_output_without_fees {E = E} dy x y ≡ ok dx
      → dx ≤ bound
  swap_base_output_without_fees-le bound {dx} fits h =
      let (below, r, e) = swap_base_output_without_fees_value h in
      elim (Bool-cases (leb (y - dy) (x * dy * 2))) [
        | inl half ↦
            let (_, high) = checked_ceil_div-IsCeilQuotient (x * dy) (y - dy) (leb→le _ _ half) e in
            let scaled : dx * (y - dy) < (bound + 1) * (y - dy) = omega arith in
            omega (arith, lt_of_mul-lt-mul_right (y - dy) scaled)
        | inr low ↦
            let smaller : x * dy * 2 < y - dy = ground arith in
            omega (arith, swap_base_output_without_fees_free smaller h)
      ]

  pub swap_base_output_without_fees_total :
      x * dy ≤ u128_max
      → y * 2 ≤ u128_max
      → dy < y
      → (dx : ℕ) × (swap_base_output_without_fees {E = E} dy x y ≡ ok dx)
  unfolding swap_base_output_without_fees
  swap_base_output_without_fees_total fits small below =
      let ((dx, r), e) =
        is_ok→value (checked_ceil_div (x * dy) (y - dy))
          (checked_ceil_div_total (x * dy) (y - dy) (omega arith) fits (omega arith)) in
      (dx, ground arith)
