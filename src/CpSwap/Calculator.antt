-- ===== src/CpSwap/Calculator.antt =====
-- sega-cp-swap/src/calculator.rs: `CurveCalculator`, the curve with its fees.
pub mod Input
pub mod Output
pub mod RoundTrip
pub mod LeastCharge
pub mod NoPanic
pub mod Spec
pub mod OutputSpec
use jupiter_amm_implementati.Base.{
  ℕ, Partial, Profile, ok, try, unwrap_partial, ◌>>=◌, u128_max, checked_add, checked_sub,
}
use jupiter_amm_implementati.CpSwap.Fees.{
  trading_fee, protocol_fee, fund_fee, calculate_pre_fee_amount,
}
use jupiter_amm_implementati.CpSwap.ConstantProduct
use jupiter_amm_implementati.CpSwap.ConstantProduct.{
  swap_base_input_without_fees, swap_base_output_without_fees, RoundDirection, TradingTokenResult,
}

pub record SwapResult : Type 0 where
  pub new_swap_source_amount : ℕ
  pub new_swap_destination_amount : ℕ
  pub source_amount_swapped : ℕ
  pub destination_amount_swapped : ℕ
  pub trade_fee : ℕ
  pub protocol_fee : ℕ
  pub fund_fee : ℕ

-- The three fee rates that both swaps take.
pub record FeeRates : Type 0 where
  pub trade_fee_rate : ℕ
  pub protocol_fee_rate : ℕ
  pub fund_fee_rate : ℕ

unfoldable pub swap_base_input : ℕ → ℕ → ℕ → FeeRates → Partial SwapResult
swap_base_input source_amount swap_source_amount swap_destination_amount rates = do
  trade ← trading_fee source_amount rates.trade_fee_rate
  protocol ← protocol_fee trade rates.protocol_fee_rate
  fund ← fund_fee trade rates.fund_fee_rate
  source_amount_less_fees ← try (checked_sub source_amount trade)
  destination_amount_swapped ←
      swap_base_input_without_fees source_amount_less_fees swap_source_amount
        swap_destination_amount
  new_source ← try (checked_add u128_max swap_source_amount source_amount)
  new_destination ← try (checked_sub swap_destination_amount destination_amount_swapped)
  ok (record {
    new_swap_source_amount = new_source;
    new_swap_destination_amount = new_destination;
    source_amount_swapped = source_amount;
    destination_amount_swapped = destination_amount_swapped;
    trade_fee = trade;
    protocol_fee = protocol;
    fund_fee = fund;
  })

unfoldable pub swap_base_output : ℕ → ℕ → ℕ → FeeRates → Partial SwapResult
swap_base_output destination_amount swap_source_amount swap_destination_amount rates = do
  source_amount_swapped ←
      swap_base_output_without_fees destination_amount swap_source_amount swap_destination_amount
  source_amount ←
      unwrap_partial (calculate_pre_fee_amount source_amount_swapped rates.trade_fee_rate)
  trade ← trading_fee source_amount rates.trade_fee_rate
  protocol ← protocol_fee trade rates.protocol_fee_rate
  fund ← fund_fee trade rates.fund_fee_rate
  new_source ← try (checked_add u128_max swap_source_amount source_amount)
  new_destination ← try (checked_sub swap_destination_amount destination_amount)
  ok (record {
    new_swap_source_amount = new_source;
    new_swap_destination_amount = new_destination;
    source_amount_swapped = source_amount;
    destination_amount_swapped = destination_amount;
    trade_fee = trade;
    protocol_fee = protocol;
    fund_fee = fund;
  })

unfoldable pub lp_tokens_to_trading_tokens :
    Profile → ℕ → ℕ → ℕ → ℕ → RoundDirection → Partial TradingTokenResult
lp_tokens_to_trading_tokens profile lp_token_amount lp_token_supply amount_0 amount_1 direction =
    ConstantProduct.lp_tokens_to_trading_tokens profile lp_token_amount lp_token_supply amount_0
      amount_1 direction
