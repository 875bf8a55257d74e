-- ===== src/CpSwap/Swap.antt =====
-- sega-cp-swap/src/swap.rs: the accounts of the program's swap instruction, in order.
use jupiter_amm_implementati.Base.{Bool, false, List, [], ◌∷◌, Option}
use jupiter_amm_implementati.Chain.{Pubkey, AccountMeta, writable, readonly}

pub record SegaSwap : Type 0 where
  pub program : Pubkey
  pub payer : Pubkey
  pub authority : Pubkey
  pub amm_config : Pubkey
  pub pool_state : Pubkey
  pub input_token_account : Pubkey
  pub output_token_account : Pubkey
  pub input_vault : Pubkey
  pub output_vault : Pubkey
  pub input_token_program : Pubkey
  pub output_token_program : Pubkey
  pub input_token_mint : Pubkey
  pub output_token_mint : Pubkey
  pub observation_state : Pubkey

unfoldable pub to_account_metas : SegaSwap → Option Bool → List AccountMeta
to_account_metas self _ =
    writable self.program false
    ∷ writable self.payer false
    ∷ readonly self.authority false
    ∷ readonly self.amm_config false
    ∷ writable self.pool_state false
    ∷ writable self.input_token_account false
    ∷ writable self.output_token_account false
    ∷ writable self.input_vault false
    ∷ writable self.output_vault false
    ∷ readonly self.input_token_program false
    ∷ readonly self.output_token_program false
    ∷ readonly self.input_token_mint false
    ∷ readonly self.output_token_mint false
    ∷ writable self.observation_state false
    ∷ []
