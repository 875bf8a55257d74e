-- ===== src/Amms/Interface/SwapInstruction/Owners.antt =====
-- Who owns the token accounts of a test swap (`assert_quote_matches_simulated_swap` in
-- jupiter-core/src/amms/test_harness.rs).
use jupiter_amm_implementati.Base.{
  ◌≡◌, ◌⊎◌, inl, inr, refl, Bool, true, false, not, ◌||◌, List, ◌++◌, ok, some, >>=_elim, unwrap,
  Profile, if◌then◌else◌, ◌∙◌, ap,
}
use jupiter_amm_implementati.Chain.{
  Bytes, Pubkey, AccountMeta, SwapParams, SwapAndAccountMetas, ClockRef,
}
use jupiter_amm_implementati.Amms.External.{External}
use jupiter_amm_implementati.Amms.Interface.{Amm}
use jupiter_amm_implementati.BuildSwapTransaction.Accounts.{JupiterAccounts}
use jupiter_amm_implementati.BuildSwapTransaction.InstructionData.{JupiterInstruction}
use jupiter_amm_implementati.Amms.Interface.SwapInstruction.{
  TestSetUp, TestSwap, SwapAccounts, swap_accounts, swap_params, test_swap,
}
use jupiter_amm_implementati.Amms.Interface.SwapInstruction.Steps.{test_swap-TestSwapSteps}
use jupiter_amm_implementati.Amms.Interface.SwapInstruction.Balances.{unwrap-eq-ok}

module _ (owner mint_of : Pubkey → Pubkey) where
  -- The token account belongs to this key and is for this mint.
  pub record IsAccountOf (account key mint : Pubkey) : Type 0 where
    pub owned : owner account ≡ key
    pub minted : mint_of account ≡ mint

  -- The accounts that the user and the program's authority have are theirs.
  pub record HaveAccounts (set_up : TestSetUp) : Type 0 where
    pub of_user :
        (mint account : Pubkey)
        → set_up.user.mint_to_ata mint ≡ some account
        → IsAccountOf account set_up.user.pubkey mint
    pub of_authority :
        (mint account : Pubkey)
        → set_up.authority.mint_to_ata mint ≡ some account
        → IsAccountOf account set_up.authority.pubkey mint

  module _ (set_up : TestSetUp) where
    open set_up use {user, authority, test}

    pub record AreAccountsOf (a : SwapAccounts) : Type 0 where
      pub user_source : IsAccountOf a.user_source_token_account user.pubkey test.source_mint
      pub user_destination :
          IsAccountOf a.user_destination_token_account user.pubkey test.destination_mint
      pub program_source :
          IsAccountOf a.program_source_token_account authority.pubkey test.source_mint
      pub program_destination :
          IsAccountOf a.program_destination_token_account authority.pubkey test.destination_mint

    -- The swap that the AMM is asked for takes from an account of its authority.
    pub record IsAuthorized (p : SwapParams) : Type 0 where
      pub takes : IsAccountOf p.source_token_account p.token_transfer_authority test.source_mint
      pub gives :
          IsAccountOf p.destination_token_account user.pubkey test.destination_mint
          ⊎ IsAccountOf p.destination_token_account authority.pubkey test.destination_mint

  module _ (set_up : TestSetUp) (theirs : HaveAccounts set_up) where
    open set_up use {user, authority, test}

    swap_accounts-AreAccountsOf :
        {a : SwapAccounts} → swap_accounts set_up ≡ ok a → AreAccountsOf set_up a
    unfolding swap_accounts
    swap_accounts-AreAccountsOf h =
        >>=_elim (unwrap (user.mint_to_ata test.source_mint)) _ h λ _ e_1 h_1.
          >>=_elim (unwrap (user.mint_to_ata test.destination_mint)) _ h_1 λ _ e_2 h_2.
            >>=_elim (unwrap (authority.mint_to_ata test.source_mint)) _ h_2 λ _ e_3 h_3.
              >>=_elim (unwrap (authority.mint_to_ata test.destination_mint)) _ h_3 λ _ e_4 h_4.
                record {
                  user_source = theirs.of_user _ _ (unwrap-eq-ok _ e_1 ∙ ap some (cc (h_4)));
                  user_destination = theirs.of_user _ _ (unwrap-eq-ok _ e_2 ∙ ap some (cc (h_4)));
                  program_source =
                      theirs.of_authority _ _ (unwrap-eq-ok _ e_3 ∙ ap some (cc (h_4)));
                  program_destination =
                      theirs.of_authority _ _ (unwrap-eq-ok _ e_4 ∙ ap some (cc (h_4)));
                }

    chosen :
        (users : Bool) (u p mint : Pubkey)
        → IsAccountOf u user.pubkey mint
        → IsAccountOf p authority.pubkey mint
        → IsAccountOf
            (if users then u else p)
            (if users then user.pubkey else authority.pubkey)
            mint
    chosen true u p mint h h' = h
    chosen false u p mint h h' = h'

    one_of :
        (users : Bool) (u p mint : Pubkey)
        → IsAccountOf u user.pubkey mint
        → IsAccountOf p authority.pubkey mint
        → IsAccountOf (if users then u else p) user.pubkey mint
          ⊎ IsAccountOf (if users then u else p) authority.pubkey mint
    one_of true u p mint h h' = inl h
    one_of false u p mint h h' = inr h'

    -- If the token accounts that the user and the program's authority have for a mint are theirs and of
    -- that mint: the instruction of a test swap ends with the AMM's accounts for a swap of the amount
    -- that was found, from an account of the source mint that belongs to the swap's own authority, to an
    -- account of the destination mint that belongs to the user or to the program's authority.
    pub test_swap-IsAuthorized :
        (to_account_metas : JupiterAccounts → List AccountMeta)
        (data_of : JupiterInstruction → Bytes) (ext : External) (amm : Amm ext) (profile : Profile)
        (clock : ClockRef) (self : amm.State) {swap : TestSwap ext.decimals.D}
        → test_swap set_up to_account_metas data_of ext amm profile clock self ≡ ok swap
        → (p : SwapParams) × (first : List AccountMeta) × (metas : SwapAndAccountMetas)
          × (amm.get_swap_and_account_metas self p ≡ ok metas)
          × (swap.instruction.accounts ≡ first ++ metas.account_metas)
          × (p.in_amount ≡ swap.found.amount)
          × IsAuthorized set_up p
    test_swap-IsAuthorized to_account_metas data_of ext amm profile clock self {swap = swap} h =
        let s =
          test_swap-TestSwapSteps set_up to_account_metas data_of ext amm profile clock self h in
        let a = swap.accounts in
        let own = swap_accounts-AreAccountsOf s.accounted in
        let all = test.use_shared_accounts in
        (
          swap_params set_up a swap.found.amount,
          s.listed,
          s.metas,
          s.swapped,
          s.joined,
          refl,
          record {
            takes =
                chosen (not all || set_up.tables.is_token2022 test.source_mint) _ _ test.source_mint
                  own.user_source own.program_source;
            gives =
                one_of (not all || set_up.tables.is_token2022 test.destination_mint) _ _
                  test.destination_mint own.user_destination own.program_destination;
          },
        )
