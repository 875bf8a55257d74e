-- ===== src/CpSwap/Calculator/RoundTrip.antt =====
-- Lemmas on two runs of the calculator in a row (sega-cp-swap/src/calculator.rs).
use native.Mathlib.Nat.{le_trans, le_of_mul-le-mul_right, mul-le-mul_right}
use jupiter_amm_implementati.Base.{ℕ, ◌+◌, ◌*◌, ◌-◌, ◌≤◌, ◌<◌, ◌≡◌, ok, arith}
use jupiter_amm_implementati.CpSwap.ConstantProduct.Invariant as Curve
use jupiter_amm_implementati.CpSwap.Calculator.{SwapResult, FeeRates, swap_base_input}
use jupiter_amm_implementati.CpSwap.Calculator.Input.{swap_base_input-InputSteps}

-- From a destination side that is not empty, and where both swaps have a result, swapping an
-- amount in and the proceeds straight back never returns more than the amount.
pub swap_base_input_there_and_back :
    (a x y : ℕ) (rates back_rates : FeeRates) {r r' : SwapResult}
    → 0 < y
    → swap_base_input a x y rates ≡ ok r
    → swap_base_input r.destination_amount_swapped r.new_swap_destination_amount
        r.new_swap_source_amount back_rates
      ≡ ok r'
    → r'.destination_amount_swapped ≤ a
swap_base_input_there_and_back a x y rates back_rates {r} {r'} pos there back =
    let s = swap_base_input-InputSteps a x y rates there in
    let y' = r.new_swap_destination_amount in
    let x' = r.new_swap_source_amount in
    let s' = swap_base_input-InputSteps r.destination_amount_swapped y' x' back_rates back in
    let out = r'.destination_amount_swapped in
    let (_, first, _) = Curve.swap_base_input_without_fees_product (a - r.trade_fee) x y s.curve in
    let gross : x * y ≤ x' * y' =
      rw (s.new_source, s.new_destination)
        (le_trans first (mul-le-mul_right (y - r.destination_amount_swapped) (omega arith))) in
    let (_, second, _) =
      Curve.swap_base_input_without_fees_product (r.destination_amount_swapped - r'.trade_fee) y' x'
        s'.curve in
    let whole : y' + (r.destination_amount_swapped - r'.trade_fee) ≤ y = omega arith in
    let kept : x * y ≤ (x' - out) * y = omega (arith, mul-le-mul_right (x' - out) whole) in
    omega (arith, le_of_mul-le-mul_right {k = y} kept pos)
