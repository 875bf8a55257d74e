-- ===== src/CpSwap/Calculator/Input.antt =====
-- Lemmas on `CurveCalculator::swap_base_input` (sega-cp-swap/src/calculator.rs).
use native.Mathlib.Nat.{le_trans, mul-le-mul_right}
use jupiter_amm_implementati.Base.{
  ℕ, ◌+◌, ◌*◌, ◌-◌, ◌/◌, ◌≤◌, ◌<◌, ◌≡◌, Nothing, ok, panic, >>=_elim, try, checked_add, checked_sub,
  u64_max, u128_max, arith,
}
use jupiter_amm_implementati.CpSwap.Fees.{
  fee_rate_denominator_value, trading_fee, protocol_fee, fund_fee,
}
use jupiter_amm_implementati.CpSwap.Fees.Bounds.{
  trading_fee_ok, trading_fee-le, fee_parts-le, protocol_fee_ok, fund_fee_ok, word_product_fits,
}
use jupiter_amm_implementati.CpSwap.ConstantProduct.{swap_base_input_without_fees}
use jupiter_amm_implementati.CpSwap.ConstantProduct.Invariant.{
  swap_base_input_without_fees_product, swap_base_input_without_fees_ok,
}
use jupiter_amm_implementati.CpSwap.ConstantProduct.Invariant as Curve
use jupiter_amm_implementati.CpSwap.Calculator.{SwapResult, FeeRates, swap_base_input}

-- Every step of a run that ends in a result.
pub record InputSteps (a x y : ℕ) (rates : FeeRates) (r : SwapResult) : Type 0 where
  pub trade : trading_fee a rates.trade_fee_rate ≡ ok r.trade_fee
  pub protocol : protocol_fee r.trade_fee rates.protocol_fee_rate ≡ ok r.protocol_fee
  pub fund : fund_fee r.trade_fee rates.fund_fee_rate ≡ ok r.fund_fee
  pub covered : r.trade_fee ≤ a
  pub curve :
      swap_base_input_without_fees {E = Nothing} (a - r.trade_fee) x y
      ≡ ok r.destination_amount_swapped
  pub source : r.source_amount_swapped ≡ a
  pub new_source : r.new_swap_source_amount ≡ x + a
  pub new_destination : r.new_swap_destination_amount ≡ y - r.destination_amount_swapped
  pub paid : r.destination_amount_swapped ≤ y

module _ (a x y : ℕ) (rates : FeeRates) {r : SwapResult} where
  pub swap_base_input-InputSteps : swap_base_input a x y rates ≡ ok r → InputSteps a x y rates r
  unfolding swap_base_input
  swap_base_input-InputSteps h = >>=_elim (trading_fee a rates.trade_fee_rate) _ h λ fee e_0 h_0.
      >>=_elim (protocol_fee fee rates.protocol_fee_rate) _ h_0 λ protocol e_1 h_1.
        >>=_elim (fund_fee fee rates.fund_fee_rate) _ h_1 λ fund e_2 h_2.
          >>=_elim (try (checked_sub a fee)) _ h_2 λ rest e_3 h_3.
            >>=_elim (swap_base_input_without_fees rest x y) _ h_3 λ dy e_4 h_4.
              >>=_elim (try (checked_add u128_max x a)) _ h_4 λ new_source e_5 h_5.
                >>=_elim (try (checked_sub y dy)) _ h_5 λ new_destination e_6 h_6. ground arith

  -- With a protocol rate and a fund rate that together are at most the denominator, the protocol's
  -- and the fund's parts lie within the trade fee, and what the pool keeps once they are set aside
  -- has at least the product of the reserves.
  pub swap_base_input_net_product :
      rates.protocol_fee_rate + rates.fund_fee_rate ≤ fee_rate_denominator_value
      → swap_base_input a x y rates ≡ ok r
      → (r.protocol_fee + r.fund_fee ≤ r.trade_fee)
        × (x * y
            ≤ (r.new_swap_source_amount - (r.protocol_fee + r.fund_fee))
              * r.new_swap_destination_amount)
  swap_base_input_net_product parts h =
      let s = swap_base_input-InputSteps h in
      let inside =
        fee_parts-le r.trade_fee rates.protocol_fee_rate rates.fund_fee_rate parts s.protocol
          s.fund in
      let (_, keeps, _) = swap_base_input_without_fees_product (a - r.trade_fee) x y s.curve in
      let more : (x + (a - r.trade_fee)) * (y - r.destination_amount_swapped)
          ≤ (x + a - (r.protocol_fee + r.fund_fee)) * (y - r.destination_amount_swapped) =
        mul-le-mul_right (y - r.destination_amount_swapped) (omega arith) in
      (inside, rw (s.new_source, s.new_destination) (le_trans keeps more))

-- A source side of 0 and an amount that goes whole to the fee divide by 0, which is a panic.
pub swap_base_input_panic :
    (a y : ℕ) (rates : FeeRates)
    → a ≤ u64_max
    → rates.protocol_fee_rate ≤ u64_max
    → rates.fund_fee_rate ≤ u64_max
    → trading_fee a rates.trade_fee_rate ≡ ok a
    → swap_base_input a 0 y rates ≡ panic
unfolding swap_base_input
swap_base_input_panic a y rates ha hp hf all =
    let e_1 = protocol_fee_ok a rates.protocol_fee_rate (omega (arith, word_product_fits ha hp)) in
    let e_2 = fund_fee_ok a rates.fund_fee_rate (omega (arith, word_product_fits ha hf)) in
    let stuck : swap_base_input_without_fees {E = Nothing} (a - a) 0 y ≡ panic =
      (Curve.swap_base_input_without_fees_iff Nothing (a - a) 0 y).1.1 (λ c. omega arith) in
    ground arith

-- On an amount, reserves and rates of 64 bits a swap against a source side that is not empty ends
-- in a result, if the trade fee rate is at most the denominator.
pub swap_base_input_total :
    (a x y : ℕ) (rates : FeeRates)
    → a ≤ u64_max
    → x ≤ u64_max
    → y ≤ u64_max
    → rates.trade_fee_rate ≤ fee_rate_denominator_value
    → rates.protocol_fee_rate ≤ u64_max
    → rates.fund_fee_rate ≤ u64_max
    → 0 < x
    → (r : SwapResult) × (swap_base_input a x y rates ≡ ok r)
unfolding swap_base_input
swap_base_input_total a x y rates ha hx hy ht hp hf pos =
    let t = rates.trade_fee_rate in
    let fee = (a * t + 999_999) / fee_rate_denominator_value in
    let e_0 = trading_fee_ok a t (word_product_fits ha (omega arith)) in
    let covered = trading_fee-le a t ht e_0 in
    let hfee : fee ≤ u64_max = omega arith in
    let e_1 =
      protocol_fee_ok fee rates.protocol_fee_rate (omega (arith, word_product_fits hfee hp)) in
    let e_2 = fund_fee_ok fee rates.fund_fee_rate (omega (arith, word_product_fits hfee hf)) in
    let rest = a - fee in
    let hrest : rest ≤ u64_max = omega arith in
    let e_3 =
      swap_base_input_without_fees_ok {E = Nothing} rest x y
        (omega (arith, word_product_fits hrest hy)) (omega arith) (omega arith) in
    let paid = Curve.swap_base_input_without_fees-le rest x y e_3 in
    (
      record {
        new_swap_source_amount = x + a;
        new_swap_destination_amount = y - rest * y / (x + rest);
        source_amount_swapped = a;
        destination_amount_swapped = rest * y / (x + rest);
        trade_fee = fee;
        protocol_fee = fee * rates.protocol_fee_rate / fee_rate_denominator_value;
        fund_fee = fee * rates.fund_fee_rate / fee_rate_denominator_value;
      },
      ground arith,
    )
