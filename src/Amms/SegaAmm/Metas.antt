-- ===== src/Amms/SegaAmm/Metas.antt =====
-- `SegaAmm::get_swap_and_account_metas` (jupiter-core/src/amms/sega_amm.rs): the accounts of a swap.
pub mod Order
use jupiter_amm_implementati.Base.{
  ℕ, Bool, true, false, Option, none, some, Outcome, ok, err, context, ◌>>=◌, ◌>>◌, ◌==◌,
  if◌then◌else◌,
}
use jupiter_amm_implementati.Chain.{Pubkey, SwapParams, Swap, raydium_cp, SwapAndAccountMetas}
use jupiter_amm_implementati.CpSwap.Pool.{PoolState}
use jupiter_amm_implementati.CpSwap.Swap.{SegaSwap, to_account_metas}
use jupiter_amm_implementati.Amms.Error.{Error, missing_token_mints}
use jupiter_amm_implementati.Amms.External.{External}
use jupiter_amm_implementati.Amms.SegaAmm.{SegaAmm, TokenMints, get_authority}

-- What a swap needs of one side of the pool.
pub record Side : Type 0 where
  pub token_program : Pubkey
  pub vault : Pubkey
  pub token_mint : Pubkey

abbrev pub get_accounts_len : ℕ
get_accounts_len = 14

module _ (ext : External) where
  -- The input side and the output side, chosen by the source mint.
  pub sides : SegaAmm ext → TokenMints ext → Pubkey → Side × Side
  sides self mints source_mint =
      let pool = self.pool_state in
      let side_0 : Side = record {
        token_program = mints.token0_program;
        vault = pool.token_0_vault;
        token_mint = pool.token_0_mint;
      } in
      let side_1 : Side = record {
        token_program = mints.token1_program;
        vault = pool.token_1_vault;
        token_mint = pool.token_1_mint;
      } in
      if source_mint == pool.token_0_mint then (side_0, side_1) else (side_1, side_0)

  unfoldable pub sega_swap : SegaAmm ext → SwapParams → Pubkey → Side × Side → SegaSwap
  sega_swap self swap_params authority (input, output) = record {
    program = self.program_id;
    payer = swap_params.token_transfer_authority;
    authority = authority;
    amm_config = self.pool_state.amm_config;
    pool_state = self.key;
    input_token_account = swap_params.source_token_account;
    output_token_account = swap_params.destination_token_account;
    input_vault = input.vault;
    output_vault = output.vault;
    input_token_program = input.token_program;
    output_token_program = output.token_program;
    input_token_mint = input.token_mint;
    output_token_mint = output.token_mint;
    observation_state = self.pool_state.observation_key;
  }

  unfoldable pub get_swap_and_account_metas :
      SegaAmm ext → SwapParams → Outcome Error SwapAndAccountMetas
  unfolding sides sega_swap
  get_swap_and_account_metas self swap_params = do
    mints ← context self.token_mints_and_token_programs missing_token_mints
    authority ← get_authority ext self
    let both = sides self mints swap_params.source_mint
    ok (record {
      swap = raydium_cp;
      account_metas = to_account_metas (sega_swap self swap_params authority both) none;
    })
