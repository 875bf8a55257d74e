-- ===== src/Amms/SegaAmm.antt =====
-- jupiter-core/src/amms/sega_amm.rs: the AMM of the Sega program, its state and its set-up.
pub mod Update
pub mod Quote
pub mod Metas
use jupiter_amm_implementati.Base.{
  ℕ, Option, none, some, List, [], ◌∷◌, Outcome, ok, context, ◌>>=◌, unwrap,
}
use jupiter_amm_implementati.Chain.{Pubkey, as_bytes}
use jupiter_amm_implementati.CpSwap.Seeds.{auth_seed}
use jupiter_amm_implementati.CpSwap.AmmConfig.{AmmConfig}
use jupiter_amm_implementati.CpSwap.Pool.{PoolState}
use jupiter_amm_implementati.Amms.Error.{Error, bad_account_data}
use jupiter_amm_implementati.Amms.External.{External, KeyedAccount}

-- sega_swap_programs::SEGA
abbrev pub sega : Pubkey
sega = 0x69220b9_651d9a28_41053e3c_bc5d8ab2_dcc78a1a_51a147cc_9b6b233c_d9a05678

module _ (ext : External) where
  open ext use {Mint, owner, account_data, deserialize_pool_state, create_program_address}

  pub record TokenMints : Type 0 where
    pub token0 : Pubkey
    pub token1 : Pubkey
    pub token0_mint : Mint
    pub token1_mint : Mint
    pub token0_program : Pubkey
    pub token1_program : Pubkey

  -- The two atomics of the clock are shared with the host, and are arguments where they are read.
  pub record SegaAmm : Type 0 where
    pub key : Pubkey
    pub pool_state : PoolState
    pub amm_config : Option AmmConfig
    pub vault_0_amount : Option ℕ
    pub vault_1_amount : Option ℕ
    pub token_mints_and_token_programs : Option TokenMints
    pub program_id : Pubkey

  unfoldable pub from_keyed_account : KeyedAccount ext → Outcome Error SegaAmm
  from_keyed_account keyed_account = do
    pool_state ←
        context (deserialize_pool_state (account_data keyed_account.account)) bad_account_data
    ok (record {
      key = keyed_account.key;
      pool_state = pool_state;
      amm_config = none;
      vault_0_amount = none;
      vault_1_amount = none;
      token_mints_and_token_programs = none;
      program_id = owner keyed_account.account;
    })

  unfoldable pub get_authority : SegaAmm → Outcome Error Pubkey
  get_authority self = unwrap (
      create_program_address (as_bytes auth_seed ∷ (self.pool_state.auth_bump ∷ []) ∷ [])
        self.program_id)

  unfoldable pub get_reserve_mints : SegaAmm → List Pubkey
  get_reserve_mints self = self.pool_state.token_0_mint ∷ self.pool_state.token_1_mint ∷ []

  unfoldable pub get_accounts_to_update : SegaAmm → List Pubkey
  get_accounts_to_update self =
      self.key ∷ self.pool_state.token_0_vault ∷ self.pool_state.token_1_vault
      ∷ self.pool_state.amm_config ∷ self.pool_state.token_0_mint ∷ self.pool_state.token_1_mint
      ∷ []
