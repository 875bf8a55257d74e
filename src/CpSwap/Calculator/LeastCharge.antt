-- ===== src/CpSwap/Calculator/LeastCharge.antt =====
-- Lemmas on the charge of `swap_base_output` against the payouts of `swap_base_input`
-- (sega-cp-swap/src/calculator.rs).
use native.Mathlib.Nat.{
  le_trans, mul-le-mul_left, mul-le-mul_right, mul-sub, lt_of_mul-lt-mul_right,
}
use jupiter_amm_implementati.Base.{ℕ, ◌+◌, ◌*◌, ◌-◌, ◌≤◌, ◌<◌, ◌≡◌, ◌↔◌, ok, arith}
use jupiter_amm_implementati.CpSwap.Fees.{fee_rate_denominator_value}
use jupiter_amm_implementati.CpSwap.Fees.Bounds.{IsCeilFee, trading_fee-IsCeilFee}
use jupiter_amm_implementati.CpSwap.Fees.GrossUp.{IsGrossedUp, calculate_pre_fee_amount-IsGrossedUp}
use jupiter_amm_implementati.CpSwap.ConstantProduct.Invariant as Curve
use jupiter_amm_implementati.CpSwap.Calculator.{
  SwapResult, FeeRates, swap_base_input, swap_base_output,
}
use jupiter_amm_implementati.CpSwap.Calculator.Input.{swap_base_input-InputSteps}
use jupiter_amm_implementati.CpSwap.Calculator.Output.{swap_base_output-OutputSteps}

-- What an amount leaves after its fee covers `post` exactly when the amount is at least `pre`.
IsGrossedUp-net :
    (post rate pre amount fee : ℕ)
    → IsGrossedUp post rate pre
    → IsCeilFee amount rate fee
    → (pre ≤ amount → post + fee ≤ amount) × (post + fee ≤ amount → pre ≤ amount)
IsGrossedUp-net post rate pre amount fee (low, high, below) (fee_low, fee_high) =
    let share = fee_rate_denominator_value - rate in
    let whole = mul-sub amount fee_rate_denominator_value rate in
    let room = mul-le-mul_left amount below in
    let whole' = mul-sub pre fee_rate_denominator_value rate in
    let room' = mul-le-mul_left pre below in
    (
      λ h. omega (arith, mul-le-mul_right share h),
      λ h.
          let scaled : pre * share < (amount + 1) * share = omega arith in
          omega (arith, lt_of_mul-lt-mul_right share scaled),
    )

-- For a demand whose product with the source reserve is at least half of what stays behind, and
-- where both swaps have a result, an amount in pays out the demand exactly when it is at least what
-- `swap_base_output` charges for the demand.
pub swap_base_input-pays_iff :
    (a dy x y : ℕ) (rates : FeeRates) {r r' : SwapResult}
    → y - dy ≤ x * dy * 2
    → swap_base_output dy x y rates ≡ ok r
    → swap_base_input a x y rates ≡ ok r'
    → (dy ≤ r'.destination_amount_swapped) ↔ (r.source_amount_swapped ≤ a)
swap_base_input-pays_iff a dy x y rates {r} {r'} half out into =
    let (exact, s) = swap_base_output-OutputSteps dy x y rates out in
    let s' = swap_base_input-InputSteps a x y rates into in
    let t = rates.trade_fee_rate in
    let grossed = calculate_pre_fee_amount-IsGrossedUp exact t s.gross in
    let net = a - r'.trade_fee in
    let d = r'.destination_amount_swapped in
    let (below, keeps, tight) = Curve.swap_base_output_without_fees_product dy x y half s.curve in
    let (paid, keeps', _) = Curve.swap_base_input_without_fees_product net x y s'.curve in
    let fees =
      IsGrossedUp-net exact t r.source_amount_swapped a r'.trade_fee grossed
        (trading_fee-IsCeilFee a t s'.trade) in
    let covered = s'.covered in
    (
      λ enough.
          let kept : (x + net) * (y - d) ≤ (x + net) * (y - dy) =
            mul-le-mul_left (x + net) (omega arith) in
          let scaled : (x + exact) * (y - dy) < (x + net + 1) * (y - dy) = omega arith in
          fees.1 (omega (arith, lt_of_mul-lt-mul_right (y - dy) scaled)),
      λ enough.
          let more : (x + exact) * (y - dy) ≤ (x + net) * (y - dy) =
            mul-le-mul_right (y - dy) (omega (arith, fees.0 enough)) in
          Curve.swap_base_input_without_fees_largest net x y dy s'.curve (omega arith)
            (le_trans keeps more),
    )
