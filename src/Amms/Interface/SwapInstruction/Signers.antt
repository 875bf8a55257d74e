-- ===== src/Amms/Interface/SwapInstruction/Signers.antt =====
-- Lemmas on the instruction of a test swap (`assert_quote_matches_simulated_swap` in
-- jupiter-core/src/amms/test_harness.rs): who signs it, and that its parts fit together.
use jupiter_amm_implementati.Base.{
  ℕ, ◌≡◌, refl, true, List, [], ◌∷◌, ◌++◌, ok, >>=_elim, Profile, arith,
}
use jupiter_amm_implementati.Chain.{Bytes, Pubkey, AccountMeta, ClockRef, SwapAndAccountMetas}
use jupiter_amm_implementati.Amms.External.{External}
use jupiter_amm_implementati.Amms.Interface.{Amm, IsAmm}
use jupiter_amm_implementati.Amms.SegaAmm.Metas.Order.{NoneSigns}
use jupiter_amm_implementati.BuildSwapTransaction.Accounts
use jupiter_amm_implementati.BuildSwapTransaction.Accounts.{
  BuildError, BuildSwapAccountsParams, JupiterAccounts, JupiterKeys, jupiter_accounts,
  build_swap_accounts,
}
use jupiter_amm_implementati.BuildSwapTransaction.InstructionData.{JupiterInstruction, instruction}
use jupiter_amm_implementati.BuildSwapTransaction.Agreement.{
  kind_of_accounts, kind_of_data, kind_of_accounts-kind_of_data,
}
use jupiter_amm_implementati.Amms.Interface.SwapInstruction.Steps.{test_swap-TestSwapSteps}
use jupiter_amm_implementati.Amms.Interface.SwapInstruction.{
  TestSetUp, Instruction, SwapAccounts, accounts_params, swap_params, data_params, test_swap,
  swap_instruction,
}

-- Only this key has to sign.
abbrev pub SignedBy : Pubkey → List AccountMeta → Type 0
SignedBy key [] = Unit
SignedBy key (m ∷ ms) = (m.is_signer ≡ true → m.pubkey ≡ key) × SignedBy key ms

SignedBy-++ :
    (key : Pubkey) (xs ys : List AccountMeta)
    → SignedBy key xs
    → SignedBy key ys
    → SignedBy key (xs ++ ys)
SignedBy-++ key [] ys s t = t
SignedBy-++ key (x ∷ xs) ys (first, s) t = (first, SignedBy-++ key xs ys s t)

NoneSigns-SignedBy : (key : Pubkey) (ms : List AccountMeta) → NoneSigns ms → SignedBy key ms
NoneSigns-SignedBy key [] none_ = tt
NoneSigns-SignedBy key (m ∷ ms) (first, rest) =
    (λ signs. absurd (cc (first, signs)), NoneSigns-SignedBy key ms rest)

-- The account of a structure that the program takes the swap's authority from.
abbrev pub transfer_authority : JupiterAccounts → Pubkey
transfer_authority (Accounts.shared_accounts_route_with_token_ledger a _) =
    a.user_transfer_authority
transfer_authority (Accounts.shared_accounts_route a) = a.user_transfer_authority
transfer_authority (Accounts.shared_accounts_exact_out_route a) = a.user_transfer_authority
transfer_authority (Accounts.route_with_token_ledger a _) = a.user_transfer_authority
transfer_authority (Accounts.route a) = a.user_transfer_authority
transfer_authority (Accounts.exact_out_route a) = a.user_transfer_authority

module _ (keys : JupiterKeys) (p : BuildSwapAccountsParams) where
  authority_is_user :
      {accounts : JupiterAccounts}
      → jupiter_accounts keys p ≡ ok accounts
      → transfer_authority accounts ≡ p.user
  unfolding jupiter_accounts
  authority_is_user h = ground arith

  accounts_from :
      (to_account_metas : JupiterAccounts → List AccountMeta) {metas : List AccountMeta}
      → build_swap_accounts keys p to_account_metas ≡ ok metas
      → (accounts : JupiterAccounts) × (jupiter_accounts keys p ≡ ok accounts)
        × (to_account_metas accounts ≡ metas)
  unfolding build_swap_accounts
  accounts_from to_account_metas h =
      >>=_elim (jupiter_accounts keys p) _ h λ accounts e h_0. (accounts, e, cc (h_0))

module _ (set_up : TestSetUp) (to_account_metas : JupiterAccounts → List AccountMeta)
    (data_of : JupiterInstruction → Bytes) (ext : External) (amm : Amm ext) (profile : Profile)
    (clock : ClockRef) (self : amm.State) where
  -- The parts of a swap instruction: the structure of the Jupiter program and the AMM's accounts,
  -- behind which stand the same token accounts and the same amount, and the data.
  pub record IsSwapInstruction (ix : Instruction) : Type 0 where
    pub accounts : SwapAccounts
    pub amount : ℕ
    pub listed : JupiterAccounts
    pub metas : SwapAndAccountMetas
    pub filled : jupiter_accounts set_up.keys (accounts_params set_up accounts) ≡ ok listed
    pub swapped :
        amm.get_swap_and_account_metas self (swap_params set_up accounts amount) ≡ ok metas
    pub runs : ix.program_id ≡ set_up.keys.jupiter_id
    pub joined : ix.accounts ≡ to_account_metas listed ++ metas.account_metas
    pub written : ix.data_ ≡ data_of (instruction (data_params set_up metas amount))
    pub agrees :
        kind_of_accounts listed ≡ kind_of_data (instruction (data_params set_up metas amount))

  swap_instruction-IsSwapInstruction :
      {ix : Instruction}
      → swap_instruction set_up to_account_metas data_of ext amm profile clock self ≡ ok ix
      → IsSwapInstruction ix
  unfolding swap_instruction
  swap_instruction-IsSwapInstruction h =
      >>=_elim (test_swap set_up to_account_metas data_of ext amm profile clock self) _ h
        λ swap e h'.
          let s =
            test_swap-TestSwapSteps set_up to_account_metas data_of ext amm profile clock self e in
          let params = accounts_params set_up swap.accounts in
          let (listed, filled, same) = accounts_from set_up.keys params to_account_metas s.built in
          record {
            accounts = swap.accounts;
            amount = swap.found.amount;
            listed = listed;
            metas = s.metas;
            filled = filled;
            swapped = s.swapped;
            runs = cc (s.runs, h');
            joined = cc (s.joined, h', same);
            written = cc (s.written, h');
            agrees =
                kind_of_accounts-kind_of_data set_up.keys params
                  (data_params set_up s.metas swap.found.amount) filled refl refl refl;
          }

  -- For an AMM that keeps the laws of the trait, and structures that list no signer but the transfer
  -- authority: nobody but the user signs the instruction of a test swap, with shared accounts too.
  pub swap_instruction-SignedBy :
      {ix : Instruction}
      → IsAmm ext amm
      → ((accounts : JupiterAccounts)
          → SignedBy (transfer_authority accounts) (to_account_metas accounts))
      → swap_instruction set_up to_account_metas data_of ext amm profile clock self ≡ ok ix
      → SignedBy set_up.user.pubkey ix.accounts
  swap_instruction-SignedBy {ix} laws lists h =
      let s = swap_instruction-IsSwapInstruction h in
      let from_user = authority_is_user set_up.keys (accounts_params set_up s.accounts) s.filled in
      let listed_own = lists s.listed in
      let own = rw from_user at listed_own in
      let none_ = laws.none_signs self _ s.metas s.swapped in
      rw s.joined (
        SignedBy-++ set_up.user.pubkey (to_account_metas s.listed) s.metas.account_metas own
          (NoneSigns-SignedBy set_up.user.pubkey s.metas.account_metas none_))
