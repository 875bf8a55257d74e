-- ===== src/Amms/Interface/SwapInstruction/Passing.antt =====
-- When the test of a swap passes (`assert_quote_matches_simulated_swap` in
-- jupiter-core/src/amms/test_harness.rs).
use jupiter_amm_implementati.Base.{◌≡◌, Bool, true, false, Option, none, some, List, ok, Profile}
use jupiter_amm_implementati.Chain
use jupiter_amm_implementati.Chain.{Bytes, AccountMeta, SwapMode, exact_in, exact_out, ClockRef}
use jupiter_amm_implementati.Amms.Error.{Error}
use jupiter_amm_implementati.Amms.External.{External}
use jupiter_amm_implementati.Amms.Interface.{Amm}
use jupiter_amm_implementati.BuildSwapTransaction.Accounts.{JupiterAccounts}
use jupiter_amm_implementati.BuildSwapTransaction.InstructionData.{JupiterInstruction}
use jupiter_amm_implementati.Amms.Interface.SwapInstruction.{TestSetUp, TestSwap, quote_params}
use jupiter_amm_implementati.Amms.Interface.SwapInstruction.Simulation.{ProgramTest, AnyhowErrors}
use jupiter_amm_implementati.Amms.Interface.SwapInstruction.Verdict.{SameError}
use jupiter_amm_implementati.Amms.Interface.SwapInstruction.Balances.{Balances, IsNear}

module _ (errors : AnyhowErrors) (context : ProgramTest) (set_up : TestSetUp)
    (to_account_metas : JupiterAccounts → List AccountMeta) (data_of : JupiterInstruction → Bytes)
    (ext : External) (amm : Amm ext) (profile : Profile) (clock : ClockRef) (self : amm.State) where
  open set_up use {user, test}

  -- What a test accepts of a transaction that has succeeded or not.
  abbrev pub IsAccepted : Option Error → TestSwap ext.decimals.D → Bool → Balances → Type 0
  IsAccepted none swap succeeded b =
      (succeeded ≡ true)
      × ((q : Chain.Quote ext.decimals.D) × (amm.quote profile clock self
              (quote_params set_up swap.found.amount)
            ≡ ok q)
          × (swap.found.quote_result ≡ some q)
          × IsNear test.swap_mode test.tolerance swap.found.amount q b)
  IsAccepted (some expected) swap succeeded b =
      (succeeded ≡ false)
      × ((e : Error) × (swap.found.quote_err ≡ some e) × SameError errors expected e)
