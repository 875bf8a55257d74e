-- ===== src/CpSwap/Fees.antt =====
-- sega-cp-swap/src/fees.rs: the fees of a swap, as integers in hundredths of a bip.
pub mod Bounds
pub mod GrossUp
use jupiter_amm_implementati.Base.{
  ℕ, ◌*◌, ◌-◌, Partial, ok, try, unwrap, ◌>>=◌, checked_add, checked_mul, checked_sub, checked_div,
  u128_max, ltb, ◌==◌, if◌then◌else◌,
}
use jupiter_amm_implementati.Chain.{Decimals}

abbrev pub fee_rate_denominator_value : ℕ
fee_rate_denominator_value = 1_000_000

-- A product that overflows is a panic here, while a sum that overflows is `None`.
ceil_div : ℕ → ℕ → ℕ → Partial ℕ
ceil_div token_amount fee_numerator fee_denominator = do
  product ← unwrap (checked_mul u128_max token_amount fee_numerator)
  raised ← try (checked_add u128_max product fee_denominator)
  lowered ← try (checked_sub raised 1)
  try (checked_div lowered fee_denominator)

floor_div : ℕ → ℕ → ℕ → Partial ℕ
floor_div token_amount fee_numerator fee_denominator = do
  product ← try (checked_mul u128_max token_amount fee_numerator)
  try (checked_div product fee_denominator)

unfoldable pub trading_fee : ℕ → ℕ → Partial ℕ
unfolding ceil_div
trading_fee amount trade_fee_rate = ceil_div amount trade_fee_rate fee_rate_denominator_value

unfoldable pub protocol_fee : ℕ → ℕ → Partial ℕ
unfolding floor_div
protocol_fee amount protocol_fee_rate =
    floor_div amount protocol_fee_rate fee_rate_denominator_value

unfoldable pub fund_fee : ℕ → ℕ → Partial ℕ
unfolding floor_div
fund_fee amount fund_fee_rate = floor_div amount fund_fee_rate fee_rate_denominator_value

-- The branch of `calculate_pre_fee_amount` for a rate that is not 0.
pub gross_up : ℕ → ℕ → Partial ℕ
gross_up post_fee_amount trade_fee_rate = do
  numerator ← try (checked_mul u128_max post_fee_amount fee_rate_denominator_value)
  denominator ← try (checked_sub fee_rate_denominator_value trade_fee_rate)
  raised ← try (checked_add u128_max numerator denominator)
  lowered ← try (checked_sub raised 1)
  try (checked_div lowered denominator)

unfoldable pub calculate_pre_fee_amount : ℕ → ℕ → Partial ℕ
unfolding gross_up
calculate_pre_fee_amount post_fee_amount trade_fee_rate =
    if trade_fee_rate == 0 then ok post_fee_amount else gross_up post_fee_amount trade_fee_rate

unfoldable pub fee_pct : (d : Decimals) → ℕ → Partial d.D
fee_pct d trade_fee_rate =
    if ltb 0 trade_fee_rate
    then (do
      rate ← try (d.from_u64 trade_fee_rate)
      denominator ← try (d.from_u64 fee_rate_denominator_value)
      try (d.checked_div rate denominator))
    else ok d.nought
