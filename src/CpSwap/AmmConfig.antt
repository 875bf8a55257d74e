-- ===== src/CpSwap/AmmConfig.antt =====
-- sega-cp-swap/src/amm_config.rs: the account that holds a pool's fee rates.
use jupiter_amm_implementati.Base.{ℕ, ◌+◌, ◌*◌, Bool, List}
use jupiter_amm_implementati.Chain.{Pubkey}

pub record AmmConfig : Type 0 where
  pub bump : ℕ
  pub disable_create_pool : Bool
  pub index : ℕ
  pub trade_fee_rate : ℕ
  pub protocol_fee_rate : ℕ
  pub fund_fee_rate : ℕ
  pub create_pool_fee : ℕ
  pub protocol_owner : Pubkey
  pub fund_owner : Pubkey
  pub padding : List ℕ

abbrev pub len : ℕ
len = 8 + 1 + 1 + 2 + 4 * 8 + 32 * 2 + 8 * 16
