-- ===== src/CpSwap/Calculator/NoPanic.antt =====
-- That `swap_base_input` (sega-cp-swap/src/calculator.rs) does not panic.
use jupiter_amm_implementati.Base.{
  ℕ, ◌≤◌, ◌<◌, ◌≢◌, Nothing, panic, ok, ◌≡◌, no_panic, try, checked_sub, u64_max, arith,
}
use jupiter_amm_implementati.CpSwap.Fees.{trading_fee, protocol_fee, fund_fee}
use jupiter_amm_implementati.CpSwap.Fees.Bounds.{trading_fee_ok, word_product_fits}
use jupiter_amm_implementati.CpSwap.ConstantProduct.{swap_base_input_without_fees}
use jupiter_amm_implementati.CpSwap.ConstantProduct.Invariant.{swap_base_input_without_fees_ok}
use jupiter_amm_implementati.CpSwap.Calculator.{FeeRates, swap_base_input}

-- The parts of a fee are computed by checked operations alone.
protocol_fee-ne-panic : (fee rate : ℕ) → protocol_fee fee rate ≢ panic
unfolding protocol_fee
protocol_fee-ne-panic fee rate h = ground arith

fund_fee-ne-panic : (fee rate : ℕ) → fund_fee fee rate ≢ panic
unfolding fund_fee
fund_fee-ne-panic fee rate h = ground arith

trading_fee-ne-panic :
    (amount rate : ℕ) → amount ≤ u64_max → rate ≤ u64_max → trading_fee amount rate ≢ panic
trading_fee-ne-panic amount rate small small' h =
    let fee_ok = trading_fee_ok amount rate (word_product_fits small small') in cc (fee_ok, h)

-- The curve swap of what the fee leaves of an amount.
curve-ne-panic :
    (a x y : ℕ)
    → a ≤ u64_max
    → x ≤ u64_max
    → y ≤ u64_max
    → 0 < x
    → (fee rest : ℕ) → try (checked_sub a fee) ≡ ok rest
    → swap_base_input_without_fees {E = Nothing} rest x y ≢ panic
curve-ne-panic a x y ha hx hy pos fee rest left h =
    let below : rest ≤ u64_max = ground arith in
    let swapped =
      swap_base_input_without_fees_ok {E = Nothing} rest x y
        (omega (arith, word_product_fits below hy)) (omega arith) (omega arith) in
    cc (swapped, h)

-- On an amount, reserves and a trade fee rate of 64 bits a swap against a source side that is not
-- empty does not panic.
pub swap_base_input-ne-panic :
    (a x y : ℕ) (rates : FeeRates)
    → a ≤ u64_max
    → x ≤ u64_max
    → y ≤ u64_max
    → rates.trade_fee_rate ≤ u64_max
    → 0 < x
    → swap_base_input a x y rates ≢ panic
unfolding swap_base_input
swap_base_input-ne-panic a x y rates ha hx hy ht pos =
    search
      (
        no_panic,
        trading_fee-ne-panic a rates.trade_fee_rate ha ht,
        protocol_fee-ne-panic,
        fund_fee-ne-panic,
        curve-ne-panic a x y ha hx hy pos,
      )
      depth 14
