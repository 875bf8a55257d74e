-- ===== src/Amms/SplTokenSwapAmm/Metas.antt =====
-- `SplTokenSwapAmm::get_swap_and_account_metas` (jupiter-core/src/amms/spl_token_swap_amm.rs) and
-- the account list of jupiter-core/src/amms/account_meta_from_token_swap.rs.
pub mod Order
use jupiter_amm_implementati.Base.{
  ℕ, Bool, true, false, List, [], ◌∷◌, Outcome, ok, ◌==◌, if◌then◌else◌,
}
use jupiter_amm_implementati.Chain.{
  Pubkey, AccountMeta, writable, readonly, SwapParams, token_swap, SwapAndAccountMetas,
}
use jupiter_amm_implementati.Amms.Error.{Error}
use jupiter_amm_implementati.Amms.External.{External}
use jupiter_amm_implementati.Amms.SplTokenSwapAmm.{SplTokenSwapAmm, get_authority}
use jupiter_amm_implementati.Amms.SplTokenSwapAmm.Curve.{TokenSwapLib}

pub record TokenSwap : Type 0 where
  pub token_swap_program : Pubkey
  pub token_program : Pubkey
  pub swap : Pubkey
  pub authority : Pubkey
  pub user_transfer_authority : Pubkey
  pub source : Pubkey
  pub swap_source : Pubkey
  pub swap_destination : Pubkey
  pub destination : Pubkey
  pub pool_mint : Pubkey
  pub pool_fee : Pubkey

-- `impl From<TokenSwap> for Vec<AccountMeta>`
unfoldable pub account_metas_from : TokenSwap → List AccountMeta
account_metas_from accounts =
    readonly accounts.token_swap_program false
    ∷ readonly accounts.token_program false
    ∷ readonly accounts.swap false
    ∷ readonly accounts.authority false
    ∷ readonly accounts.user_transfer_authority false
    ∷ writable accounts.source false
    ∷ writable accounts.swap_source false
    ∷ writable accounts.swap_destination false
    ∷ writable accounts.destination false
    ∷ writable accounts.pool_mint false
    ∷ writable accounts.pool_fee false
    ∷ []

module _ (ext : External) (lib : TokenSwapLib) where
  -- The pool's account of the source mint and the one of the other mint.
  pub vaults : SplTokenSwapAmm ext lib → Pubkey → Pubkey × Pubkey
  vaults self source_mint =
      if source_mint == self.state.token_a_mint
      then (self.state.token_a, self.state.token_b)
      else (self.state.token_b, self.state.token_a)

  unfoldable pub token_swap_accounts : SplTokenSwapAmm ext lib → SwapParams → TokenSwap
  unfolding vaults
  token_swap_accounts self swap_params =
      let both = vaults self swap_params.source_mint in
      record {
        token_swap_program = self.program_id;
        token_program = lib.token_program_id;
        swap = self.key;
        authority = get_authority ext lib self;
        user_transfer_authority = swap_params.token_transfer_authority;
        source = swap_params.source_token_account;
        swap_source = both.0;
        swap_destination = both.1;
        destination = swap_params.destination_token_account;
        pool_mint = self.state.pool_mint;
        pool_fee = self.state.pool_fee_account;
      }

  unfoldable pub get_swap_and_account_metas :
      SplTokenSwapAmm ext lib → SwapParams → Outcome Error SwapAndAccountMetas
  unfolding token_swap_accounts
  get_swap_and_account_metas self swap_params = ok (record {
    swap = token_swap;
    account_metas = account_metas_from (token_swap_accounts self swap_params);
  })
