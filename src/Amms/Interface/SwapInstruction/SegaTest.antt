-- ===== src/Amms/Interface/SwapInstruction/SegaTest.antt =====
-- What a test of a Sega pool says of the simulated swap (`assert_quote_matches_simulated_swap` in
-- jupiter-core/src/amms/test_harness.rs on jupiter-core/src/amms/sega_amm.rs).
use jupiter_amm_implementati.Base.{ℕ, ◌≤◌, ◌≡◌, Bool, none, some, List, ok, Profile}
use jupiter_amm_implementati.Chain.{Bytes, AccountMeta, exact_in, ClockRef}
use jupiter_amm_implementati.CpSwap.AmmConfig.{AmmConfig}
use jupiter_amm_implementati.CpSwap.Calculator.{SwapResult, swap_base_input}
use jupiter_amm_implementati.Amms.External.{External}
use jupiter_amm_implementati.Amms.SegaAmm.{SegaAmm, TokenMints}
use jupiter_amm_implementati.Amms.SegaAmm.Quote.{rates_of, reserves}
use jupiter_amm_implementati.Amms.SegaAmm.Quote.Direction.{
  HasNoTransferFee, quote_source_is_token_0,
}
use jupiter_amm_implementati.Amms.Interface.Impls.{for_sega_amm}
use jupiter_amm_implementati.BuildSwapTransaction.Accounts.{JupiterAccounts}
use jupiter_amm_implementati.BuildSwapTransaction.InstructionData.{JupiterInstruction}
use jupiter_amm_implementati.Amms.Interface.SwapInstruction.{
  TestSetUp, TestSwap, quote_params, test_swap,
}
use jupiter_amm_implementati.Amms.Interface.SwapInstruction.Simulation.{
  ProgramTest, AnyhowErrors, Simulation, abs_diff, simulate, assert_quote_matches_simulated_swap,
}
use jupiter_amm_implementati.Amms.Interface.SwapInstruction.Verdict.{
  assert_quote_matches_simulated_swap-Accepts_iff,
}

-- A test that gives an exact input and expects no error.
pub record IsExactIn (set_up : TestSetUp) : Type 0 where
  pub mode : set_up.test.swap_mode ≡ exact_in
  pub no_error : set_up.test.expected_error ≡ none

module _ (errors : AnyhowErrors) (to_account_metas : JupiterAccounts → List AccountMeta)
    (data_of : JupiterInstruction → Bytes) (ext : External) (unidirectional : Bool)
    (profile : Profile) (clock : ClockRef) (self : SegaAmm ext) where
  -- The test of a swap passes, with this swap and this simulation.
  pub record Passes (context : ProgramTest) (set_up : TestSetUp) (swap : TestSwap ext.decimals.D)
      (s : Simulation) : Type 0 where
    pub made :
        test_swap set_up to_account_metas data_of ext
          (for_sega_amm ext unidirectional)
          profile
          clock
          self
        ≡ ok swap
    pub simulated :
        simulate context set_up.user.pubkey swap.accounts.user_source_token_account
          swap.accounts.user_destination_token_account swap.instruction
        ≡ ok s
    pub passed :
        assert_quote_matches_simulated_swap errors context set_up to_account_metas data_of ext
          (for_sega_amm ext unidirectional)
          profile
          clock
          self
        ≡ ok tt

  -- If a test of an exact input passes on a Sega pool without transfer fees and expects no error, the
  -- user has received from the simulation, within the tolerance, what the curve pays for that amount
  -- of token 0 against token 1, whichever mint the test sells.
  pub test-pays :
      (context : ProgramTest) (set_up : TestSetUp) (swap : TestSwap ext.decimals.D) (s : Simulation)
      (mints : TokenMints ext) (config : AmmConfig) (token_0 token_1 : ℕ)
      → IsExactIn set_up
      → self.token_mints_and_token_programs ≡ some mints
      → HasNoTransferFee ext mints
      → self.amm_config ≡ some config
      → reserves ext profile self ≡ ok (token_0, token_1)
      → Passes context set_up swap s
      → (r : SwapResult) × (swap_base_input swap.found.amount token_0 token_1 (rates_of config)
          ≡ ok r)
        × (abs_diff r.destination_amount_swapped s.destination_token_account_diff
            ≤ set_up.test.tolerance)
  test-pays context set_up swap s mints config token_0 token_1 exact hm free hc hr p =
      let (swap', s', made, simulated, accepted) =
        (assert_quote_matches_simulated_swap-Accepts_iff errors context set_up to_account_metas
            data_of ext (for_sega_amm ext unidirectional) profile clock self).0
          p.passed in
      let accepts = rw exact.no_error at accepted in
      let (q, _, quoted, near) = accepts.1 in
      let same_swap : swap' ≡ swap = cc (made, p.made) in
      let simulation = rw same_swap at simulated in
      let same : s' ≡ s = cc (simulation, p.simulated) in
      let as_quoted = rw same_swap at quoted in
      let (r, swapped, _, out, _) =
        quote_source_is_token_0 ext profile clock self mints config token_0 token_1
          (quote_params set_up swap.found.amount) hm free hc hr as_quoted in
      let near' = rw (exact.mode, same, out) at near in (r, swapped, near')
