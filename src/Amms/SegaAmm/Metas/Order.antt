-- ===== src/Amms/SegaAmm/Metas/Order.antt =====
-- Lemmas on the account list of a Sega swap and its direction
-- (jupiter-core/src/amms/sega_amm.rs).
use jupiter_amm_implementati.Base.{
  ◌≡◌, ◌≢◌, false, none, List, [], ◌∷◌, ok, length, >>=_elim, context, arith,
}
use jupiter_amm_implementati.Chain.{AccountMeta, SwapParams, SwapAndAccountMetas}
use jupiter_amm_implementati.CpSwap.Swap.{SegaSwap, to_account_metas}
use jupiter_amm_implementati.Amms.Error.{missing_token_mints}
use jupiter_amm_implementati.Amms.External.{External}
use jupiter_amm_implementati.Amms.SegaAmm.{SegaAmm, get_authority}
use jupiter_amm_implementati.Amms.SegaAmm.Metas.{
  get_accounts_len, sides, sega_swap, get_swap_and_account_metas,
}

-- No account has to sign.
abbrev pub NoneSigns : List AccountMeta → Type 0
NoneSigns [] = Unit
NoneSigns (m ∷ ms) = (m.is_signer ≡ false) × NoneSigns ms

-- The same accounts with the input and the output exchanged.
abbrev pub reversed : SegaSwap → SegaSwap
reversed s = record s {
  input_token_account = s.output_token_account;
  output_token_account = s.input_token_account;
  input_vault = s.output_vault;
  output_vault = s.input_vault;
  input_token_program = s.output_token_program;
  output_token_program = s.input_token_program;
  input_token_mint = s.output_token_mint;
  output_token_mint = s.input_token_mint;
}

-- The two sets of parameters ask for opposite directions between the same accounts.
pub record IsReverse (params params' : SwapParams) : Type 0 where
  pub source_mint : params'.source_mint ≡ params.destination_mint
  pub source_account : params'.source_token_account ≡ params.destination_token_account
  pub destination_account : params'.destination_token_account ≡ params.source_token_account
  pub authority : params'.token_transfer_authority ≡ params.token_transfer_authority

module _ (ext : External) (self : SegaAmm ext) where
  -- The list has the announced number of accounts, and asks for no signature.
  pub length-get_swap_and_account_metas :
      (params : SwapParams) {metas : SwapAndAccountMetas}
      → get_swap_and_account_metas ext self params ≡ ok metas
      → (length metas.account_metas ≡ get_accounts_len) × NoneSigns metas.account_metas
  unfolding get_swap_and_account_metas to_account_metas
  length-get_swap_and_account_metas params h = ground arith

  -- The accounts of the two directions between the pool's two mints differ exactly in that input
  -- and output are exchanged.
  pub get_swap_and_account_metas_reverse :
      (params params' : SwapParams) (metas : SwapAndAccountMetas)
      → self.pool_state.token_0_mint ≢ self.pool_state.token_1_mint
      → params.source_mint ≡ self.pool_state.token_0_mint
      → params.destination_mint ≡ self.pool_state.token_1_mint
      → IsReverse params params'
      → get_swap_and_account_metas ext self params ≡ ok metas
      → (s : SegaSwap) × (metas.account_metas ≡ to_account_metas s none)
        × (get_swap_and_account_metas ext self params'
            ≡ ok (record metas { account_metas = to_account_metas (reversed s) none }))
  unfolding get_swap_and_account_metas
  get_swap_and_account_metas_reverse params params' metas distinct hs hd r h =
      >>=_elim (context self.token_mints_and_token_programs missing_token_mints) _ h
        λ mints e_0 h_0. >>=_elim (get_authority ext self) _ h_0 λ authority e_1 h_1.
          let s = sega_swap ext self params authority (sides ext self mints params.source_mint) in
          (s, ground arith, ground arith)
