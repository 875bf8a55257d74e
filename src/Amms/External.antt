-- ===== src/Amms/External.antt =====
-- The calls into other crates that the AMMs make, and the laws that are relied on.
use jupiter_amm_implementati.Base.{ℕ, Bool, ◌≡◌, Option, List}
use jupiter_amm_implementati.Chain.{Pubkey, Bytes, TokenAccount, Decimals}
use jupiter_amm_implementati.CpSwap.AmmConfig.{AmmConfig}
use jupiter_amm_implementati.CpSwap.Pool.{PoolState}

pub record External : Type 1 where
  -- `solana_sdk::account::Account`, its owner, the bytes that it holds, and whether it is a program.
  pub Account : Type 0
  pub owner : Account → Pubkey
  pub executable : Account → Bool
  pub account_data : Account → Bytes
  -- `jupiter_amm_interface::try_get_account_data`, over what a map holds at a key.
  pub try_get_account_data : (Pubkey → Option Account) → Pubkey → Option Bytes
  -- spl_token_2022: mints with extensions, their transfer fees, and token accounts.
  pub Mint : Type 0
  pub TransferFeeConfig : Type 0
  pub unpack_mint : Bytes → Option Mint
  pub get_transfer_fee_config : Mint → Option TransferFeeConfig
  pub calculate_epoch_fee : TransferFeeConfig → ℕ → ℕ → Option ℕ
  pub unpack_token_account : Bytes → Option TokenAccount
  -- What the `#[account]` macro derives.
  pub deserialize_pool_state : Bytes → Option PoolState
  pub deserialize_amm_config : Bytes → Option AmmConfig
  -- Addresses derived from seeds and a program.
  pub create_program_address : List (List ℕ) → Pubkey → Option Pubkey
  pub find_program_address : List (List ℕ) → Pubkey → Pubkey
  pub decimals : Decimals

-- A map of accounts, by what it holds at each key.
abbrev pub AccountMap : External → Type 0
AccountMap ext = Pubkey → Option ext.Account

pub record KeyedAccount (ext : External) : Type 0 where
  pub key : Pubkey
  pub account : ext.Account

-- `try_get_account_data` reads the map at its key alone.
abbrev pub ReadsOneKey : External → Type 0
ReadsOneKey ext =
    (m m' : AccountMap ext) (key : Pubkey)
    → m key ≡ m' key
    → ext.try_get_account_data m key ≡ ext.try_get_account_data m' key
