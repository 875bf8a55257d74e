-- ===== src/BuildSwapTransaction/Agreement.antt =====
-- Lemmas on the accounts and the data of one swap instruction
-- (jupiter-core/src/build_swap_transaction.rs).
use jupiter_amm_implementati.Base.{
  Bool, true, false, ◌≡◌, ◌↔◌, Option, none, some, List, ok, err, arith,
}
use jupiter_amm_implementati.Chain.{AccountMeta, exact_out}
use jupiter_amm_implementati.BuildSwapTransaction.Accounts
use jupiter_amm_implementati.BuildSwapTransaction.Accounts.{
  BuildSwapAccountsParams, JupiterAccounts, JupiterKeys, BuildError,
  exact_out_is_only_supported_with_shared_accounts_and_without_token_ledger, jupiter_accounts,
  build_swap_accounts,
}
use jupiter_amm_implementati.BuildSwapTransaction.InstructionData
use jupiter_amm_implementati.BuildSwapTransaction.InstructionData.{
  BuildSwapInstructionDataParams, JupiterInstruction, instruction,
}

-- The instructions of the Jupiter program that swap.
pub data Kind : Type 0 where
  shared_with_ledger shared_in shared_out with_ledger plain_in plain_out : Kind

abbrev pub kind_of_accounts : JupiterAccounts → Kind
kind_of_accounts (Accounts.shared_accounts_route_with_token_ledger _ _) = shared_with_ledger
kind_of_accounts (Accounts.shared_accounts_route _) = shared_in
kind_of_accounts (Accounts.shared_accounts_exact_out_route _) = shared_out
kind_of_accounts (Accounts.route_with_token_ledger _ _) = with_ledger
kind_of_accounts (Accounts.route _) = plain_in
kind_of_accounts (Accounts.exact_out_route _) = plain_out

abbrev pub kind_of_data : JupiterInstruction → Kind
kind_of_data (InstructionData.shared_accounts_route_with_token_ledger _) = shared_with_ledger
kind_of_data (InstructionData.shared_accounts_route _) = shared_in
kind_of_data (InstructionData.shared_accounts_exact_out_route _) = shared_out
kind_of_data (InstructionData.route_with_token_ledger _) = with_ledger
kind_of_data (InstructionData.route _) = plain_in
kind_of_data (InstructionData.exact_out_route _) = plain_out

abbrev is_some {ℓ} : {A : Type ℓ} → Option A → Bool
is_some none = false
is_some (some _) = true

module _ (keys : JupiterKeys) where
  -- The accounts are refused exactly for an exact-out swap with a token ledger.
  pub build_swap_accounts_fails_iff :
      (to_account_metas : JupiterAccounts → List AccountMeta) (p : BuildSwapAccountsParams)
      → (build_swap_accounts keys p to_account_metas
          ≡ err exact_out_is_only_supported_with_shared_accounts_and_without_token_ledger)
        ↔ ((p.swap_mode ≡ exact_out) × (is_some p.token_ledger ≡ true))
  unfolding build_swap_accounts
  build_swap_accounts_fails_iff to_account_metas p = ground arith

  -- When the data are built with the same flags as the accounts, and the token ledger flag says
  -- whether the accounts have a token ledger, both are of the same instruction.
  pub kind_of_accounts-kind_of_data :
      (p : BuildSwapAccountsParams) (q : BuildSwapInstructionDataParams)
      {accounts : JupiterAccounts}
      → jupiter_accounts keys p ≡ ok accounts
      → q.swap_mode ≡ p.swap_mode
      → q.use_shared_accounts ≡ p.use_shared_accounts
      → q.use_token_ledger ≡ is_some p.token_ledger
      → kind_of_accounts accounts ≡ kind_of_data (instruction q)
  unfolding jupiter_accounts instruction
  kind_of_accounts-kind_of_data p q built mode_eq shared_eq ledger_eq = ground arith
