-- ===== src/Amms/Interface/SwapInstruction/Steps.antt =====
-- The steps that a test swap takes before it is simulated (`assert_quote_matches_simulated_swap` in
-- jupiter-core/src/amms/test_harness.rs), read off its result.
use jupiter_amm_implementati.Base.{
  ℕ, ◌≡◌, List, ◌++◌, Outcome, ok, err, panic, >>=_elim, some, Profile,
}
use jupiter_amm_implementati.Chain
use jupiter_amm_implementati.Chain.{Bytes, AccountMeta, ClockRef, SwapAndAccountMetas}
use jupiter_amm_implementati.Amms.External.{External}
use jupiter_amm_implementati.Amms.Interface.{Amm}
use jupiter_amm_implementati.Amms.Interface.QuoteSearch.{find_quote, find_quote-quotes}
use jupiter_amm_implementati.BuildSwapTransaction.Accounts.{JupiterAccounts, build_swap_accounts}
use jupiter_amm_implementati.BuildSwapTransaction.InstructionData.{
  JupiterInstruction, instruction, build_swap_instruction_data,
}
use jupiter_amm_implementati.Amms.Interface.SwapInstruction.{
  TestSetUp, TestSwap, unwrap_result, swap_accounts, amount_of, accounts_params, swap_params,
  data_params, quote_params, test_swap,
}

unwrap_result-eq-ok {ε δ ℓ} :
    {E : Type ε} {D : Type δ} {A : Type ℓ} (m : Outcome E A) {a : A}
    → unwrap_result {D = D} m ≡ ok a
    → m ≡ ok a
unwrap_result-eq-ok (ok a) h = cc
unwrap_result-eq-ok (err e) h = cc
unwrap_result-eq-ok panic h = cc

module _ (set_up : TestSetUp) (to_account_metas : JupiterAccounts → List AccountMeta)
    (data_of : JupiterInstruction → Bytes) (ext : External) (amm : Amm ext) (profile : Profile)
    (clock : ClockRef) (self : amm.State) where
  pub record TestSwapSteps (swap : TestSwap ext.decimals.D) : Type 0 where
    pub amount : ℕ
    pub listed : List AccountMeta
    pub metas : SwapAndAccountMetas
    pub accounted : swap_accounts set_up ≡ ok swap.accounts
    pub amounted : amount_of set_up set_up.test.swap_mode ≡ ok amount
    pub built :
        build_swap_accounts set_up.keys (accounts_params set_up swap.accounts) to_account_metas
        ≡ ok listed
    pub searched :
        find_quote ext amm profile clock (quote_params set_up) self amount ≡ ok swap.found
    pub swapped :
        amm.get_swap_and_account_metas self (swap_params set_up swap.accounts swap.found.amount)
        ≡ ok metas
    pub runs : swap.instruction.program_id ≡ set_up.keys.jupiter_id
    pub joined : swap.instruction.accounts ≡ listed ++ metas.account_metas
    pub written :
        swap.instruction.data_ ≡ data_of (instruction (data_params set_up metas swap.found.amount))

  pub test_swap-TestSwapSteps :
      {swap : TestSwap ext.decimals.D}
      → test_swap set_up to_account_metas data_of ext amm profile clock self ≡ ok swap
      → TestSwapSteps swap
  unfolding test_swap build_swap_instruction_data
  test_swap-TestSwapSteps {swap} h = >>=_elim (swap_accounts set_up) _ h λ a e_0 h_0.
      >>=_elim (amount_of set_up set_up.test.swap_mode) _ h_0 λ amount e_1 h_1.
        >>=_elim
          (unwrap_result
            (build_swap_accounts set_up.keys (accounts_params set_up a) to_account_metas))
          _ h_1
          λ listed e_2 h_2.
            >>=_elim (find_quote ext amm profile clock (quote_params set_up) self amount) _ h_2
              λ found e_3 h_3.
                >>=_elim
                  (unwrap_result
                    (amm.get_swap_and_account_metas self (swap_params set_up a found.amount)))
                  _ h_3
                  λ metas e_4 h_4.
                    let same_accounts : a ≡ swap.accounts = cc (h_4) in
                    let same_found : found ≡ swap.found = cc (h_4) in
                    let built = unwrap_result-eq-ok _ e_2 in
                    let swapped = unwrap_result-eq-ok _ e_4 in
                    record {
                      amount = amount;
                      listed = listed;
                      metas = metas;
                      accounted = cc (e_0, same_accounts);
                      amounted = e_1;
                      built = rw same_accounts at built;
                      searched = cc (e_3, same_found);
                      swapped = rw (same_accounts, same_found) at swapped;
                      runs = cc (h_4);
                      joined = cc (h_4);
                      written = rw (← same_found) cc (h_4);
                    }

  -- A quote that a test swap keeps is the AMM's for the amount that is swapped.
  pub test_swap-quotes :
      {swap : TestSwap ext.decimals.D} {q : Chain.Quote ext.decimals.D}
      → test_swap set_up to_account_metas data_of ext amm profile clock self ≡ ok swap
      → swap.found.quote_result ≡ some q
      → amm.quote profile clock self (quote_params set_up swap.found.amount) ≡ ok q
  test_swap-quotes h some_ =
      let s = test_swap-TestSwapSteps h in
      find_quote-quotes ext amm profile clock (quote_params set_up) self s.amount s.searched some_
