-- ===== src/Amms/SegaAmm/Quote.antt =====
-- `SegaAmm::quote` (jupiter-core/src/amms/sega_amm.rs): the guards, the transfer fees of both
-- mints, and the swap on the pool's reserves.
pub mod Guards
pub mod Outcomes
pub mod Bounds
pub mod Direction
pub mod Stale
pub mod TransferFee
pub mod Spec
pub mod Charged
use jupiter_amm_implementati.Base.{
  ℕ, ◌-◌, Bool, true, false, not, ◌||◌, Option, none, some, Outcome, ok, err, Profile, context,
  context_partial, unwrap, ◌>>=◌, ◌>>◌, plain_add, checked_sub, try_into_u64, u64_max, ltb, ◌==◌,
  if◌then◌else◌,
}
use jupiter_amm_implementati.Chain
use jupiter_amm_implementati.Chain.{ClockRef, QuoteParams, as_u64}
use jupiter_amm_implementati.CpSwap.AmmConfig.{AmmConfig}
use jupiter_amm_implementati.CpSwap.Pool.{PoolState, PoolStatusBitIndex, get_status_by_bit}
use jupiter_amm_implementati.CpSwap.Calculator.{SwapResult, FeeRates, swap_base_input}
use jupiter_amm_implementati.Amms.Error.{
  Error, pool_is_not_trading, missing_amm_config, missing_token_mints, fee_calculation_failure,
  amount_too_low, vault_0_missing_or_frozen, vault_1_missing_or_frozen, vault_amount_underflow,
  swap_failed, int_out_of_range,
}
use jupiter_amm_implementati.Amms.External.{External}
use jupiter_amm_implementati.Amms.SegaAmm.{SegaAmm, TokenMints}

-- The free function `vault_amount_without_fee` of sega_amm.rs, which does not panic on an underflow.
unfoldable pub vault_amount_without_fee :
    Profile → PoolState → ℕ → ℕ → Outcome Error (Option ℕ × Option ℕ)
vault_amount_without_fee profile pool vault_0 vault_1 = do
  fees_0 ← plain_add profile u64_max pool.protocol_fees_token_0 pool.fund_fees_token_0
  fees_1 ← plain_add profile u64_max pool.protocol_fees_token_1 pool.fund_fees_token_1
  ok (checked_sub vault_0 fees_0, checked_sub vault_1 fees_1)

abbrev pub reject_if : Bool → Error → Outcome Error (Unit {0})
reject_if test e = if test then err e else ok tt

-- Both amounts of `vault_amount_without_fee`, or an error.
abbrev both : Option ℕ × Option ℕ → Outcome Error (ℕ × ℕ)
both (some vault_0, some vault_1) = ok (vault_0, vault_1)
both (some vault_0, none) = err vault_amount_underflow
both (none, other) = err vault_amount_underflow

-- The guard at the top of `quote`.
unfoldable pub is_closed : PoolState → ClockRef → Bool
is_closed pool clock =
    not (get_status_by_bit pool PoolStatusBitIndex.swap)
    || ltb (as_u64 clock.unix_timestamp) pool.open_time

abbrev pub rates_of : AmmConfig → FeeRates
rates_of amm_config = record {
  trade_fee_rate = amm_config.trade_fee_rate;
  protocol_fee_rate = amm_config.protocol_fee_rate;
  fund_fee_rate = amm_config.fund_fee_rate;
}

module _ (ext : External) where
  open ext use {
    TransferFeeConfig,
    get_transfer_fee_config,
    calculate_epoch_fee,
    decimals.{D, from_int, div},
  }

  -- What is left of an amount after a mint's transfer fee; `saturating_sub` stops at 0.
  unfoldable pub after_transfer_fee : Option TransferFeeConfig → ℕ → ℕ → Outcome Error ℕ
  after_transfer_fee none epoch amount = ok amount
  after_transfer_fee (some transfer_fee_config) epoch amount = do
    fee ← context (calculate_epoch_fee transfer_fee_config epoch amount) fee_calculation_failure
    ok (amount - fee)

  -- The fee configs of the source mint and the destination mint.
  unfoldable pub mint_transfer_fee_configs :
      Bool → TokenMints ext → Option TransferFeeConfig × Option TransferFeeConfig
  mint_transfer_fee_configs zero_for_one mints =
      if zero_for_one
      then (get_transfer_fee_config mints.token0_mint, get_transfer_fee_config mints.token1_mint)
      else (get_transfer_fee_config mints.token1_mint, get_transfer_fee_config mints.token0_mint)

  -- `Decimal::from(fee_amount) / Decimal::from(100)`
  unfoldable pub fee_pct : ℕ → Outcome Error D
  fee_pct fee_amount = do
    fee ← unwrap (from_int fee_amount)
    hundred ← unwrap (from_int 100)
    unwrap (div fee hundred)

  -- The reserves of token 0 and token 1 without the fees that the pool owes.
  unfoldable pub reserves : Profile → SegaAmm ext → Outcome Error (ℕ × ℕ)
  reserves profile self = do
    vault_0 ← context self.vault_0_amount vault_0_missing_or_frozen
    vault_1 ← context self.vault_1_amount vault_1_missing_or_frozen
    amounts ← vault_amount_without_fee profile self.pool_state vault_0 vault_1
    both amounts

  -- The end of `quote`: the swap's result becomes the quote.
  unfoldable pub finish :
      Option TransferFeeConfig → ℕ → QuoteParams → SwapResult → Outcome Error (Chain.Quote D)
  finish destination_config epoch quote_params swap_result = do
    amount_out ← context (try_into_u64 swap_result.destination_amount_swapped) int_out_of_range
    actual_amount_out ← after_transfer_fee destination_config epoch amount_out
    in_amount ← context (try_into_u64 swap_result.source_amount_swapped) int_out_of_range
    fee_amount ← context (try_into_u64 swap_result.trade_fee) int_out_of_range
    pct ← fee_pct swap_result.trade_fee
    ok (record {
      in_amount = in_amount;
      out_amount = actual_amount_out;
      fee_amount = fee_amount;
      fee_mint = quote_params.input_mint;
      fee_pct = pct;
    })

  -- `quote` once the config and the mints are at hand.
  unfoldable pub quote_swap :
      Profile
      → ClockRef
      → SegaAmm ext
      → QuoteParams
      → AmmConfig
      → TokenMints ext
      → Outcome Error (Chain.Quote D)
  quote_swap profile clock self quote_params amm_config mints = do
    let zero_for_one = quote_params.input_mint == self.pool_state.token_0_mint
    let configs = mint_transfer_fee_configs zero_for_one mints
    actual_amount_in ← after_transfer_fee configs.0 clock.epoch quote_params.amount
    reject_if (actual_amount_in == 0) amount_too_low
    (total_token_0_amount, total_token_1_amount) ← reserves profile self
    swap_result ←
        context_partial
          (swap_base_input actual_amount_in total_token_0_amount total_token_1_amount
            (rates_of amm_config))
          swap_failed
    finish configs.1 clock.epoch quote_params swap_result

  unfoldable pub quote :
      Profile → ClockRef → SegaAmm ext → QuoteParams → Outcome Error (Chain.Quote D)
  quote profile clock self quote_params = do
    reject_if (is_closed self.pool_state clock) pool_is_not_trading
    amm_config ← context self.amm_config missing_amm_config
    mints ← context self.token_mints_and_token_programs missing_token_mints
    quote_swap profile clock self quote_params amm_config mints
