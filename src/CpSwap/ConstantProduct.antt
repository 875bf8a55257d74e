-- ===== src/CpSwap/ConstantProduct.antt =====
-- sega-cp-swap/src/constant_product.rs: the curve x * y = constant, with no fees.
pub mod Invariant
pub mod LpTokens
pub mod DepositWithdraw
use jupiter_amm_implementati.Base.{
  ℕ, ◌+◌, ◌&&◌, Outcome, Partial, Profile, ok, unwrap, unwrap_partial, try, plain_add, ◌>>=◌,
  u128_max, checked_add, checked_mul, checked_sub, checked_div, checked_rem, ltb, if◌then◌else◌,
}
use jupiter_amm_implementati.CpSwap.CeilDiv.{checked_ceil_div}

-- sega-cp-swap/src/calculator.rs: the direction to round.
pub data RoundDirection : Type 0 where
  floor ceiling : RoundDirection

pub record TradingTokenResult : Type 0 where
  pub token_0_amount : ℕ
  pub token_1_amount : ℕ

unfoldable pub swap_base_input_without_fees {ε} : {E : Type ε} → ℕ → ℕ → ℕ → Outcome E ℕ
swap_base_input_without_fees source_amount swap_source_amount swap_destination_amount = do
  numerator ← unwrap (checked_mul u128_max source_amount swap_destination_amount)
  denominator ← unwrap (checked_add u128_max swap_source_amount source_amount)
  unwrap (checked_div numerator denominator)

unfoldable pub swap_base_output_without_fees {ε} : {E : Type ε} → ℕ → ℕ → ℕ → Outcome E ℕ
swap_base_output_without_fees destination_amount swap_source_amount swap_destination_amount = do
  numerator ← unwrap (checked_mul u128_max swap_source_amount destination_amount)
  denominator ← unwrap (checked_sub swap_destination_amount destination_amount)
  (source_amount_swapped, _) ← unwrap_partial (checked_ceil_div numerator denominator)
  ok source_amount_swapped

-- One side of `lp_tokens_to_trading_tokens`, rounded down.
pub floor_share : ℕ → ℕ → ℕ → Partial ℕ
floor_share lp_token_amount lp_token_supply swap_token_amount = do
  product ← try (checked_mul u128_max lp_token_amount swap_token_amount)
  try (checked_div product lp_token_supply)

-- The `+= 1` on one side: only where there is a remainder and the amount is not 0.
pub ceiling_share : Profile → ℕ → ℕ → ℕ → ℕ → Partial ℕ
ceiling_share profile lp_token_amount lp_token_supply swap_token_amount token_amount = do
  product ← try (checked_mul u128_max lp_token_amount swap_token_amount)
  remainder ← try (checked_rem product lp_token_supply)
  if ltb 0 remainder && ltb 0 token_amount
      then plain_add profile u128_max token_amount 1
      else ok token_amount

unfoldable pub lp_tokens_to_trading_tokens :
    Profile → ℕ → ℕ → ℕ → ℕ → RoundDirection → Partial TradingTokenResult
unfolding floor_share ceiling_share
lp_tokens_to_trading_tokens profile lp_amount lp_supply swap_token_0 swap_token_1 floor = do
  token_0_amount ← floor_share lp_amount lp_supply swap_token_0
  token_1_amount ← floor_share lp_amount lp_supply swap_token_1
  ok (record { token_0_amount = token_0_amount; token_1_amount = token_1_amount })
lp_tokens_to_trading_tokens profile lp_amount lp_supply swap_token_0 swap_token_1 ceiling = do
  token_0_amount ← floor_share lp_amount lp_supply swap_token_0
  token_1_amount ← floor_share lp_amount lp_supply swap_token_1
  token_0_raised ← ceiling_share profile lp_amount lp_supply swap_token_0 token_0_amount
  token_1_raised ← ceiling_share profile lp_amount lp_supply swap_token_1 token_1_amount
  ok (record { token_0_amount = token_0_raised; token_1_amount = token_1_raised })
