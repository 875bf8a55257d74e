-- ===== src/Amms/SegaAmm/Quote/TransferFee.antt =====
-- Lemmas on the transfer fees of `SegaAmm::quote` and on its first guard
-- (jupiter-core/src/amms/sega_amm.rs).
use jupiter_amm_implementati.Base.{
  ℕ, ◌-◌, ◌/◌, ◌%◌, ◌≤◌, ◌<◌, ◌≡◌, ◌↔◌, refl, Bool, true, false, not, Option, none, some, ok,
  context, context-eq-ok, >>=_elim, if◌then◌else◌, arith,
}
use jupiter_amm_implementati.Chain.{ClockRef, as_u64}
use jupiter_amm_implementati.CpSwap.Pool.{PoolState, PoolStatusBitIndex}
use jupiter_amm_implementati.CpSwap.Pool.Status.{get_status_by_bit_iff}
use jupiter_amm_implementati.Amms.Error.{fee_calculation_failure}
use jupiter_amm_implementati.Amms.External.{External}
use jupiter_amm_implementati.Amms.SegaAmm.{TokenMints}
use jupiter_amm_implementati.Amms.SegaAmm.Quote.{
  is_closed, after_transfer_fee, mint_transfer_fee_configs,
}

pub is_open_iff :
    (pool : PoolState) (clock : ClockRef)
    → pool.status < 256
    → (is_closed pool clock ≡ false)
      ↔ ((pool.status / 4 % 2 ≡ 0) × (pool.open_time ≤ as_u64 clock.unix_timestamp))
unfolding is_closed
is_open_iff pool clock h =
    let digit = get_status_by_bit_iff pool PoolStatusBitIndex.swap h in
    (λ c. ground arith, λ c. ground arith)

module _ (ext : External) where
  open ext use {TransferFeeConfig, Mint, get_transfer_fee_config, calculate_epoch_fee}

  -- The fee that a mint takes off a transfer, in an epoch.
  abbrev pub IsTransferFee : Option TransferFeeConfig → ℕ → ℕ → ℕ → Type 0
  IsTransferFee none epoch amount fee = fee ≡ 0
  IsTransferFee (some config) epoch amount fee = calculate_epoch_fee config epoch amount ≡ some fee

  -- An amount less its transfer fee.
  pub after_transfer_fee-IsTransferFee :
      (config : Option TransferFeeConfig) (epoch amount : ℕ) {rest : ℕ}
      → after_transfer_fee ext config epoch amount ≡ ok rest
      → (fee : ℕ) × IsTransferFee config epoch amount fee × (rest ≡ amount - fee)
  unfolding after_transfer_fee
  after_transfer_fee-IsTransferFee none epoch amount h = (0, refl, ground arith)
  after_transfer_fee-IsTransferFee (some config) epoch amount h =
      >>=_elim (context (calculate_epoch_fee config epoch amount) fee_calculation_failure) _ h
        λ fee e h_0. (fee, context-eq-ok _ _ e, ground arith)

  pub IsTransferFee-after :
      (config : Option TransferFeeConfig) (epoch amount fee : ℕ)
      → IsTransferFee config epoch amount fee
      → after_transfer_fee ext config epoch amount ≡ ok (amount - fee)
  unfolding after_transfer_fee
  IsTransferFee-after none epoch amount fee h = rw h (ground arith)
  IsTransferFee-after (some config) epoch amount fee h = rw h

  -- The mint that an input mint stands for is token 0's, or else token 1's.
  abbrev pub source_mint : Bool → TokenMints ext → Mint
  source_mint zero_for_one mints = if zero_for_one then mints.token0_mint else mints.token1_mint

  pub configs_of_mints :
      (zero_for_one : Bool) (mints : TokenMints ext)
      → mint_transfer_fee_configs ext zero_for_one mints ≡ (
        get_transfer_fee_config (source_mint zero_for_one mints),
        get_transfer_fee_config (source_mint (not zero_for_one) mints),
      )
  unfolding mint_transfer_fee_configs
  configs_of_mints true mints = refl
  configs_of_mints false mints = refl
