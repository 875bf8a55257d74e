-- ===== src/Amms/SplTokenSwapAmm/Metas/Order.antt =====
-- Lemmas on the account list of a token swap and its direction
-- (jupiter-core/src/amms/spl_token_swap_amm.rs).
use jupiter_amm_implementati.Base.{false, ◌≡◌, ok, ◌==◌, ==_refl}
use jupiter_amm_implementati.Chain.{SwapParams, token_swap}
use jupiter_amm_implementati.Amms.External.{External}
use jupiter_amm_implementati.Amms.SplTokenSwapAmm.{SplTokenSwapAmm}
use jupiter_amm_implementati.Amms.SplTokenSwapAmm.Curve.{TokenSwapLib}
use jupiter_amm_implementati.Amms.SplTokenSwapAmm.Metas.{
  TokenSwap, token_swap_accounts, account_metas_from, get_swap_and_account_metas,
}

-- The same swap with the user's and the pool's source and destination exchanged.
abbrev pub turned : TokenSwap → TokenSwap
turned t = record t {
  source = t.destination;
  swap_source = t.swap_destination;
  swap_destination = t.swap_source;
  destination = t.source;
}

module _ (ext : External) (lib : TokenSwapLib) where
  -- For a pool of two different mints, a swap of the second mint for the first, with the user's
  -- accounts exchanged, has the accounts of the swap of the first for the second, turned.
  pub get_swap_and_account_metas-turned :
      (self : SplTokenSwapAmm ext lib) (there back : SwapParams)
      → there.source_mint ≡ self.state.token_a_mint
      → back.source_mint ≡ self.state.token_b_mint
      → (self.state.token_b_mint == self.state.token_a_mint) ≡ false
      → back.source_token_account ≡ there.destination_token_account
      → back.destination_token_account ≡ there.source_token_account
      → back.token_transfer_authority ≡ there.token_transfer_authority
      → get_swap_and_account_metas ext lib self back
        ≡ ok (record {
          swap = token_swap;
          account_metas = account_metas_from (turned (token_swap_accounts ext lib self there));
        })
  unfolding get_swap_and_account_metas account_metas_from token_swap_accounts
  get_swap_and_account_metas-turned self there back first second differ s d auth =
      let same = ==_refl self.state.token_a_mint in rw (first, second, differ, same, s, d, auth)
