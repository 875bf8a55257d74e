-- ===== src/Tests/Session.antt =====
-- Runs of several swaps of the calculator in a row, and of its promise.
use jupiter_amm_implementati.Base.{◌≤◌, ◌≡◌, ◌↔◌, refl, true, List, [], ◌∷◌, map, ok, arith}
use jupiter_amm_implementati.CpSwap.Fees.{
  trading_fee, protocol_fee, fund_fee, calculate_pre_fee_amount,
}
use jupiter_amm_implementati.CpSwap.CeilDiv.{checked_ceil_div}
use jupiter_amm_implementati.CpSwap.ConstantProduct.{
  swap_base_input_without_fees, swap_base_output_without_fees,
}
use jupiter_amm_implementati.CpSwap.Calculator.{SwapResult, swap_base_input, swap_base_output}
use jupiter_amm_implementati.CpSwap.Calculator.Spec.{IsSwapOf, swap_base_input-IsSwapOf_iff}
use jupiter_amm_implementati.CpSwap.Calculator.OutputSpec.{
  IsOutputOf, swap_base_output-IsOutputOf_iff,
}
use jupiter_amm_implementati.CpSwap.Session.Splitting.{run-split}
use jupiter_amm_implementati.CpSwap.Session.Impact.{run_dearer}
use jupiter_amm_implementati.CpSwap.Calculator.LeastCharge.{swap_base_input-pays_iff}
use jupiter_amm_implementati.CpSwap.Session.{Order, exact_in, exact_out, swap, execute, run}
use jupiter_amm_implementati.Tests.World.{rates}

-- The swap in of 10000 against reserves of 1000000 and 2000000.
abbrev swapped : SwapResult
swapped = record {
  new_swap_source_amount = 1_010_000;
  new_swap_destination_amount = 1_980_248;
  source_amount_swapped = 10_000;
  destination_amount_swapped = 19_752;
  trade_fee = 25;
  protocol_fee = 3;
  fund_fee = 1;
}

swap_in : swap_base_input 10_000 1_000_000 2_000_000 rates ≡ ok swapped
unfolding swap_base_input trading_fee protocol_fee fund_fee swap_base_input_without_fees
swap_in = refl

swap_out : swap_base_output 19_752 1_000_000 2_000_000 rates ≡ ok swapped
unfolding swap_base_output swap_base_output_without_fees checked_ceil_div calculate_pre_fee_amount
    trading_fee protocol_fee fund_fee
swap_out = refl

swap_base_input-IsSwapOf_iff_example :
    (swap_base_input 10_000 1_000_000 2_000_000 rates ≡ ok swapped)
    ↔ IsSwapOf 10_000 1_000_000 2_000_000 rates swapped
swap_base_input-IsSwapOf_iff_example =
    swap_base_input-IsSwapOf_iff 10_000 1_000_000 2_000_000 rates swapped (omega arith)
      (omega arith) (omega arith) (omega arith) (omega arith) (omega arith) (omega arith)

swap_base_input-pays_iff_example : (19_752 ≤ 19_752) ↔ (10_000 ≤ 10_000)
swap_base_input-pays_iff_example =
    swap_base_input-pays_iff 10_000 19_752 1_000_000 2_000_000 rates {r = swapped} {r' = swapped}
      (omega arith) swap_out swap_in

-- Two swaps of token 0 for token 1, the second for an exact amount of it, and one after them.
abbrev pub orders : List Order
orders = exact_in true 10_000 ∷ exact_out true 5_000 ∷ []

pub run_ok : run rates orders (1_000_000, 2_000_000) ≡ ok (1_012_560, 1_975_248)
unfolding run execute swap swap_base_input swap_base_output trading_fee protocol_fee fund_fee
    swap_base_input_without_fees swap_base_output_without_fees checked_ceil_div
    calculate_pre_fee_amount
run_ok = refl

abbrev swapped_later : SwapResult
swapped_later = record {
  new_swap_source_amount = 1_021_560;
  new_swap_destination_amount = 1_957_891;
  source_amount_swapped = 9_000;
  destination_amount_swapped = 17_357;
  trade_fee = 23;
  protocol_fee = 2;
  fund_fee = 0;
}

swap_later : swap_base_input 9_000 1_012_560 1_975_248 rates ≡ ok swapped_later
unfolding swap_base_input trading_fee protocol_fee fund_fee swap_base_input_without_fees
swap_later = refl

run_dearer_example : 17_357 ≤ 19_752
run_dearer_example =
    run_dearer rates (omega arith) true orders (1_000_000, 2_000_000) 10_000 9_000 {r = swapped}
      {r' = swapped_later} (omega arith) (refl, (refl, tt)) run_ok (omega arith) swap_in swap_later

-- Half of the amount, and then the other half.
halves_ok :
    run rates (map (exact_in true) (5_000 ∷ 5_000 ∷ [])) (1_000_000, 2_000_000)
    ≡ ok (1_009_998, 1_980_250)
unfolding run execute swap swap_base_input trading_fee protocol_fee fund_fee
    swap_base_input_without_fees
halves_ok = refl

run-split_example : 1_980_248 ≤ 1_980_250
run-split_example =
    run-split rates (omega arith) true (5_000 ∷ 5_000 ∷ []) (1_000_000, 2_000_000) {r = swapped}
      halves_ok swap_in

swap_base_output-IsOutputOf_iff_example :
    (swap_base_output 19_752 1_000_000 2_000_000 rates ≡ ok swapped)
    ↔ IsOutputOf 19_752 1_000_000 2_000_000 rates swapped
swap_base_output-IsOutputOf_iff_example =
    swap_base_output-IsOutputOf_iff 19_752 1_000_000 2_000_000 rates swapped (omega arith)
      (omega arith) (omega arith) (omega arith) (omega arith) (omega arith) (omega arith)
      (omega arith)
