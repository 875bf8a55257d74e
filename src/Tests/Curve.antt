-- ===== src/Tests/Curve.antt =====
-- Runs of the fees, the curve and the calculator of sega-cp-swap.
use jupiter_amm_implementati.Base.{
  ℕ, ◌+◌, ◌*◌, ◌^◌, ◌≤◌, ◌<◌, ◌≡◌, ◌↔◌, refl, true, Nothing, ok, panic, is_ok, release, u128_max,
  arith,
}
use jupiter_amm_implementati.CpSwap.Fees.{
  trading_fee, protocol_fee, fund_fee, calculate_pre_fee_amount,
}
use jupiter_amm_implementati.CpSwap.CeilDiv.{checked_ceil_div}
use jupiter_amm_implementati.CpSwap.ConstantProduct.{
  swap_base_input_without_fees, swap_base_output_without_fees, TradingTokenResult, ceiling,
  lp_tokens_to_trading_tokens,
}
use jupiter_amm_implementati.CpSwap.ConstantProduct.Invariant as Invariant
use jupiter_amm_implementati.CpSwap.Calculator.{SwapResult, swap_base_input, swap_base_output}
use jupiter_amm_implementati.CpSwap.Calculator.Output as Output
use jupiter_amm_implementati.CpSwap.Calculator.RoundTrip as RoundTrip
use jupiter_amm_implementati.Tests.World.{rates}

abbrev result : ℕ → ℕ → ℕ → ℕ → ℕ → ℕ → ℕ → SwapResult
result new_source new_destination source destination trade protocol fund = record {
  new_swap_source_amount = new_source;
  new_swap_destination_amount = new_destination;
  source_amount_swapped = source;
  destination_amount_swapped = destination;
  trade_fee = trade;
  protocol_fee = protocol;
  fund_fee = fund;
}

-- The swap in of 10000 and of 12000 against reserves of 1000000 and 2000000.
abbrev swapped : SwapResult
swapped = result 1_010_000 1_980_248 10_000 19_752 25 3 1

abbrev swapped_more : SwapResult
swapped_more = result 1_012_000 1_976_344 12_000 23_656 30 3 1

abbrev swapped_back : SwapResult
swapped_back = result 2_000_000 1_000_051 19_752 9_949 50 6 2

-- Three of a thousand, against a reserve of 1: nothing is charged.
abbrev given_away : SwapResult
given_away = result 1 997 0 3 0 0 0

swap_in : swap_base_input 10_000 1_000_000 2_000_000 rates ≡ ok swapped
unfolding swap_base_input trading_fee protocol_fee fund_fee swap_base_input_without_fees
swap_in = refl

swap_more : swap_base_input 12_000 1_000_000 2_000_000 rates ≡ ok swapped_more
unfolding swap_base_input trading_fee protocol_fee fund_fee swap_base_input_without_fees
swap_more = refl

swap_back : swap_base_input 19_752 1_980_248 1_010_000 rates ≡ ok swapped_back
unfolding swap_base_input trading_fee protocol_fee fund_fee swap_base_input_without_fees
swap_back = refl

swap_out : swap_base_output 19_752 1_000_000 2_000_000 rates ≡ ok swapped
unfolding swap_base_output swap_base_output_without_fees checked_ceil_div calculate_pre_fee_amount
    trading_fee protocol_fee fund_fee
swap_out = refl

swap_free : swap_base_output 3 1 1_000 rates ≡ ok given_away
unfolding swap_base_output swap_base_output_without_fees checked_ceil_div calculate_pre_fee_amount
    trading_fee protocol_fee fund_fee
swap_free = refl

curve_in : swap_base_input_without_fees {E = Nothing} 9_975 1_000_000 2_000_000 ≡ ok 19_752
unfolding swap_base_input_without_fees
curve_in = refl

curve_out : swap_base_output_without_fees {E = Nothing} 19_752 1_000_000 2_000_000 ≡ ok 9_975
unfolding swap_base_output_without_fees checked_ceil_div
curve_out = refl

swap_base_input_there_and_back_example : 9_949 ≤ 10_000
swap_base_input_there_and_back_example =
    RoundTrip.swap_base_input_there_and_back 10_000 1_000_000 2_000_000 rates rates {r = swapped}
      {r' = swapped_back} (omega arith) swap_in swap_back

swap_base_output_free_example :
    (given_away.source_amount_swapped ≡ 0)
    × (given_away.trade_fee ≡ 0)
    × (given_away.new_swap_source_amount ≡ 1)
    × (given_away.new_swap_destination_amount + 3 ≡ 1_000)
swap_base_output_free_example =
    Output.swap_base_output_free 3 1 1_000 rates {r = given_away} (omega arith) swap_free

-- Reserves whose product fits 128 bits and a source of 64 bits.
swap_base_input_without_fees_iff_example :
    (is_ok (swap_base_input_without_fees {E = Nothing} (18_446_744_073_709_551_615) 1 (2 ^ 127))
        ≡ true
      ↔ ((18_446_744_073_709_551_615 * 2 ^ 127 ≤ u128_max)
          × (1 + 18_446_744_073_709_551_615 ≤ u128_max)
          × (0 < 1 + 18_446_744_073_709_551_615)))
    × (swap_base_input_without_fees {E = Nothing} (18_446_744_073_709_551_615) 1 (2 ^ 127) ≡ panic
        ↔ ¬ (
            (18_446_744_073_709_551_615 * 2 ^ 127 ≤ u128_max)
            × (1 + 18_446_744_073_709_551_615 ≤ u128_max)
            × (0 < 1 + 18_446_744_073_709_551_615)))
swap_base_input_without_fees_iff_example =
    Invariant.swap_base_input_without_fees_iff Nothing (18_446_744_073_709_551_615) 1 (2 ^ 127)

grossed : calculate_pre_fee_amount 9_975 2_500 ≡ ok 10_000
unfolding calculate_pre_fee_amount
grossed = refl

fee_of_grossed : trading_fee 10_000 2_500 ≡ ok 25
unfolding trading_fee
fee_of_grossed = refl

fee_of_double : trading_fee 20_000 2_500 ≡ ok 50
unfolding trading_fee
fee_of_double = refl

abbrev shares : TradingTokenResult
shares = record { token_0_amount = 4; token_1_amount = 0 }

shared_up : lp_tokens_to_trading_tokens release 1 3 10 1 ceiling ≡ ok shares
unfolding lp_tokens_to_trading_tokens
shared_up = refl
