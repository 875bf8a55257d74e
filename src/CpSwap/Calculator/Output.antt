-- ===== src/CpSwap/Calculator/Output.antt =====
-- Lemmas on `CurveCalculator::swap_base_output` (sega-cp-swap/src/calculator.rs).
use native.Mathlib.Nat.{le_trans, mul-le-mul, mul-le-mul_left, mul-le-mul_right}
use jupiter_amm_implementati.Base.{
  ℕ, ◌+◌, ◌*◌, ◌-◌, ◌/◌, ◌≤◌, ◌<◌, ◌≡◌, Nothing, ok, >>=_elim, try, unwrap_partial,
  unwrap_partial-eq-ok, checked_add, checked_sub, u64_max, u128_max, arith,
}
use jupiter_amm_implementati.CpSwap.Fees.{
  fee_rate_denominator_value, trading_fee, protocol_fee, fund_fee, calculate_pre_fee_amount,
}
use jupiter_amm_implementati.CpSwap.Fees.Bounds.{
  IsCeilFee, trading_fee-IsCeilFee, fee_parts-le, trading_fee_ok, trading_fee-le, protocol_fee_ok,
  fund_fee_ok,
}
use jupiter_amm_implementati.CpSwap.Fees.GrossUp.{
  trading_fee-calculate_pre_fee_amount, calculate_pre_fee_amount-IsGrossedUp, IsGrossedUp-zero,
  calculate_pre_fee_amount_total,
}
use jupiter_amm_implementati.CpSwap.ConstantProduct.{swap_base_output_without_fees}
use jupiter_amm_implementati.CpSwap.ConstantProduct.Invariant as Curve
use jupiter_amm_implementati.CpSwap.Calculator.{SwapResult, FeeRates, swap_base_output}

-- Every step of a run that ends in a result; `exact` is the charge before the fee is put on top.
pub record OutputSteps (dy x y : ℕ) (rates : FeeRates) (r : SwapResult) (exact : ℕ) : Type 0 where
  pub curve : swap_base_output_without_fees {E = Nothing} dy x y ≡ ok exact
  pub gross : calculate_pre_fee_amount exact rates.trade_fee_rate ≡ ok r.source_amount_swapped
  pub trade : trading_fee r.source_amount_swapped rates.trade_fee_rate ≡ ok r.trade_fee
  pub protocol : protocol_fee r.trade_fee rates.protocol_fee_rate ≡ ok r.protocol_fee
  pub fund : fund_fee r.trade_fee rates.fund_fee_rate ≡ ok r.fund_fee
  pub destination : r.destination_amount_swapped ≡ dy
  pub new_source : r.new_swap_source_amount ≡ x + r.source_amount_swapped
  pub new_destination : r.new_swap_destination_amount ≡ y - dy
  pub paid : dy ≤ y

module _ (dy x y : ℕ) (rates : FeeRates) {r : SwapResult} where
  pub swap_base_output-OutputSteps :
      swap_base_output dy x y rates ≡ ok r → (exact : ℕ) × OutputSteps dy x y rates r exact
  unfolding swap_base_output
  swap_base_output-OutputSteps h =
      >>=_elim (swap_base_output_without_fees {E = Nothing} dy x y) _ h λ exact e_0 h_0.
        >>=_elim (unwrap_partial (calculate_pre_fee_amount exact rates.trade_fee_rate)) _ h_0
          λ gross e_1 h_1. >>=_elim (trading_fee gross rates.trade_fee_rate) _ h_1 λ fee e_2 h_2.
            >>=_elim (protocol_fee fee rates.protocol_fee_rate) _ h_2 λ protocol e_3 h_3.
              >>=_elim (fund_fee fee rates.fund_fee_rate) _ h_3 λ fund e_4 h_4.
                >>=_elim (try (checked_add u128_max x gross)) _ h_4 λ new_source e_5 h_5.
                  >>=_elim (try (checked_sub y dy)) _ h_5 λ new_destination e_6 h_6.
                    let grossed =
                      unwrap_partial-eq-ok (calculate_pre_fee_amount exact rates.trade_fee_rate)
                        e_1 in
                    (exact, ground arith)

  -- The result pays out what was asked for, and the fee taken off the charge leaves exactly what
  -- the curve asks for.
  pub swap_base_output_moves :
      swap_base_output dy x y rates ≡ ok r
      → (r.destination_amount_swapped ≡ dy)
        × (r.new_swap_source_amount ≡ x + r.source_amount_swapped)
        × (r.new_swap_destination_amount + dy ≡ y)
        × (r.trade_fee ≤ r.source_amount_swapped)
        × IsCeilFee r.source_amount_swapped rates.trade_fee_rate r.trade_fee
        × (swap_base_output_without_fees {E = Nothing} dy x y
            ≡ ok (r.source_amount_swapped - r.trade_fee))
  swap_base_output_moves h =
      let (exact, s) = swap_base_output-OutputSteps h in
      let (covered, less) =
        trading_fee-calculate_pre_fee_amount exact rates.trade_fee_rate s.gross s.trade in
      (
        s.destination,
        s.new_source,
        omega arith,
        covered,
        trading_fee-IsCeilFee r.source_amount_swapped rates.trade_fee_rate s.trade,
        rw less s.curve,
      )

  -- With a protocol rate and a fund rate that together are at most the denominator, and a demand
  -- whose product with the source reserve is at least half of what stays behind, the protocol's and
  -- the fund's parts lie within the trade fee, and what the pool keeps once they are set aside has
  -- at least the product of the reserves.
  pub swap_base_output_net_product :
      rates.protocol_fee_rate + rates.fund_fee_rate ≤ fee_rate_denominator_value
      → y - dy ≤ x * dy * 2
      → swap_base_output dy x y rates ≡ ok r
      → (r.protocol_fee + r.fund_fee ≤ r.trade_fee)
        × (x * y
            ≤ (r.new_swap_source_amount - (r.protocol_fee + r.fund_fee))
              * r.new_swap_destination_amount)
  swap_base_output_net_product parts half h =
      let (exact, s) = swap_base_output-OutputSteps h in
      let inside =
        fee_parts-le r.trade_fee rates.protocol_fee_rate rates.fund_fee_rate parts s.protocol
          s.fund in
      let (covered, less) =
        trading_fee-calculate_pre_fee_amount exact rates.trade_fee_rate s.gross s.trade in
      let (_, keeps, _) = Curve.swap_base_output_without_fees_product dy x y half s.curve in
      let more : (x + exact) * (y - dy)
          ≤ (x + r.source_amount_swapped - (r.protocol_fee + r.fund_fee)) * (y - dy) =
        mul-le-mul_right (y - dy) (omega arith) in
      (inside, rw (s.new_source, s.new_destination) (le_trans keeps more))

  -- A demand whose product with the source reserve is below half of what stays behind costs
  -- nothing: no source token is charged and no fee is taken.
  pub swap_base_output_free :
      x * dy * 2 < y - dy
      → swap_base_output dy x y rates ≡ ok r
      → (r.source_amount_swapped ≡ 0)
        × (r.trade_fee ≡ 0)
        × (r.new_swap_source_amount ≡ x)
        × (r.new_swap_destination_amount + dy ≡ y)
  swap_base_output_free low h =
      let (exact, s) = swap_base_output-OutputSteps h in
      let none_asked = Curve.swap_base_output_without_fees_free dy x y low s.curve in
      let grossed = calculate_pre_fee_amount-IsGrossedUp exact rates.trade_fee_rate s.gross in
      let nothing_charged =
        IsGrossedUp-zero rates.trade_fee_rate r.source_amount_swapped (rw none_asked at grossed) in
      let (covered, _) =
        trading_fee-calculate_pre_fee_amount exact rates.trade_fee_rate s.gross s.trade in
      (nothing_charged, omega arith, omega arith, omega arith)

-- With reserves of 64 bits, a demand below the destination reserve whose charge fits 64 bits has a
-- result, for a trade fee rate below the denominator and part rates up to it.
pub swap_base_output_total :
    (dy x y : ℕ) (rates : FeeRates)
    → x ≤ u64_max
    → y ≤ u64_max
    → dy < y
    → x * dy ≤ u64_max * (y - dy)
    → rates.trade_fee_rate < fee_rate_denominator_value
    → rates.protocol_fee_rate ≤ fee_rate_denominator_value
    → rates.fund_fee_rate ≤ fee_rate_denominator_value
    → (r : SwapResult) × (swap_base_output dy x y rates ≡ ok r)
unfolding swap_base_output
swap_base_output_total dy x y rates hx hy below fits ht hp hf =
    let (exact, e_0) =
      Curve.swap_base_output_without_fees_total {E = Nothing} dy x y
        (omega (arith, mul-le-mul hx hy, mul-le-mul_left x below)) (omega arith) below in
    let small : exact ≤ u64_max = Curve.swap_base_output_without_fees-le dy x y u64_max fits e_0 in
    let (gross, e_1, bound) = calculate_pre_fee_amount_total exact rates.trade_fee_rate small ht in
    let t = rates.trade_fee_rate in
    let fee = (gross * t + 999_999) / fee_rate_denominator_value in
    let e_2 = trading_fee_ok gross t (omega (arith, mul-le-mul_left gross ht)) in
    let covered = trading_fee-le gross t (omega arith) e_2 in
    let e_3 = protocol_fee_ok fee rates.protocol_fee_rate (omega (arith, mul-le-mul_left fee hp)) in
    let e_4 = fund_fee_ok fee rates.fund_fee_rate (omega (arith, mul-le-mul_left fee hf)) in
    (
      record {
        new_swap_source_amount = x + gross;
        new_swap_destination_amount = y - dy;
        source_amount_swapped = gross;
        destination_amount_swapped = dy;
        trade_fee = fee;
        protocol_fee = fee * rates.protocol_fee_rate / fee_rate_denominator_value;
        fund_fee = fee * rates.fund_fee_rate / fee_rate_denominator_value;
      },
      ground arith,
    )
