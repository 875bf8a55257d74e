-- ===== src/Amms/Error.antt =====
-- The errors that the AMMs return, one for each message or failed conversion.

pub data Error : Type 0 where
  account_not_found bad_account_data : Error
  token_0_mint_not_found token_1_mint_not_found : Error
  pool_is_not_trading missing_amm_config missing_token_mints : Error
  fee_calculation_failure amount_too_low : Error
  vault_0_missing_or_frozen vault_1_missing_or_frozen vault_amount_underflow : Error
  swap_failed int_out_of_range : Error
  quote_failed fee_pct_failed unsupported_pool : Error
