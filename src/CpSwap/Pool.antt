-- ===== src/CpSwap/Pool.antt =====
-- sega-cp-swap/src/pool.rs: the pool's account, its status bits and the reserves without fees.
pub mod Status
pub mod Observation
use Prim.Native.Nat.{bit_and}
use jupiter_amm_implementati.Base.{
  ℕ, ◌+◌, ◌*◌, ◌^◌, Bool, List, Outcome, Profile, ok, unwrap, plain_add, ◌>>=◌, checked_sub,
  u64_max, ◌==◌,
}
use jupiter_amm_implementati.Chain.{Pubkey}

pub data PoolStatusBitIndex : Type 0 where
  deposit withdraw swap : PoolStatusBitIndex

pub data PoolStatusBitFlag : Type 0 where
  enable disable : PoolStatusBitFlag

pub record PoolState : Type 0 where
  pub amm_config : Pubkey
  pub pool_creator : Pubkey
  pub token_0_vault : Pubkey
  pub token_1_vault : Pubkey
  pub lp_mint : Pubkey
  pub token_0_mint : Pubkey
  pub token_1_mint : Pubkey
  pub token_0_program : Pubkey
  pub token_1_program : Pubkey
  pub observation_key : Pubkey
  pub auth_bump : ℕ
  pub status : ℕ
  pub lp_mint_decimals : ℕ
  pub mint_0_decimals : ℕ
  pub mint_1_decimals : ℕ
  pub lp_supply : ℕ
  pub protocol_fees_token_0 : ℕ
  pub protocol_fees_token_1 : ℕ
  pub fund_fees_token_0 : ℕ
  pub fund_fees_token_1 : ℕ
  pub open_time : ℕ
  pub recent_epoch : ℕ
  pub padding : List ℕ

abbrev pub len : ℕ
len = 8 + 10 * 32 + 1 * 5 + 8 * 7 + 8 * 31

-- `bit as u8`
abbrev pub index : PoolStatusBitIndex → ℕ
index deposit = 0
index withdraw = 1
index swap = 2

-- Whether the operation of a bit is allowed: the bit is 0.
unfoldable pub get_status_by_bit : PoolState → PoolStatusBitIndex → Bool
get_status_by_bit self bit = bit_and self.status (1 * 2 ^ index bit) == 0

unfoldable pub vault_amount_without_fee {ε} :
    {E : Type ε} → Profile → PoolState → ℕ → ℕ → Outcome E (ℕ × ℕ)
vault_amount_without_fee profile self vault_0 vault_1 = do
  fees_0 ← plain_add profile u64_max self.protocol_fees_token_0 self.fund_fees_token_0
  rest_0 ← unwrap (checked_sub vault_0 fees_0)
  fees_1 ← plain_add profile u64_max self.protocol_fees_token_1 self.fund_fees_token_1
  rest_1 ← unwrap (checked_sub vault_1 fees_1)
  ok (rest_0, rest_1)
