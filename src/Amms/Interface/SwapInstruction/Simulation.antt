-- ===== src/Amms/Interface/SwapInstruction/Simulation.antt =====
-- The simulation of a test swap, and what it is compared with
-- (`assert_quote_matches_simulated_swap`, `assert_out_amount_matches_simulated_swap` and
-- `process_transaction` in jupiter-core/src/amms/test_harness.rs). The bank that runs a transaction
-- and the errors of anyhow are arguments; an assertion that fails is a panic.
use jupiter_amm_implementati.Base.{
  ℕ, zero, suc, ◌-◌, Bool, true, false, not, Option, none, some, List, [], ◌∷◌, Outcome, ok, panic,
  ◌>>=◌, ◌>>◌, unwrap, unwrap_or, checked_sub, leb, ◌==◌, Profile, if◌then◌else◌,
}
use jupiter_amm_implementati.Chain
use jupiter_amm_implementati.Chain.{
  Bytes, Pubkey, AccountMeta, SwapMode, exact_in, exact_out, ClockRef,
}
use jupiter_amm_implementati.Amms.Error.{Error}
use jupiter_amm_implementati.Amms.External.{External}
use jupiter_amm_implementati.Amms.Interface.{Amm}
use jupiter_amm_implementati.BuildSwapTransaction.Accounts.{JupiterAccounts}
use jupiter_amm_implementati.BuildSwapTransaction.InstructionData.{JupiterInstruction}
use jupiter_amm_implementati.Amms.Interface.SwapInstruction.{
  TestSetUp, TestSwap, Instruction, quote_params, unwrap_result, test_swap,
}

-- The amounts of the token accounts; where there is none, reading it panics.
abbrev pub TokenAmounts : Type 0
TokenAmounts = Pubkey → Option ℕ

-- The bank of a program test: its latest blockhash (`none` for an error), its token accounts, and the
-- run of a signed transaction, which succeeds or not and leaves the token accounts.
pub record BanksClient : Type 0 where
  pub latest_blockhash : Option ℕ
  pub token_amounts : TokenAmounts
  pub process_transaction_with_preflight :
      List Instruction → Pubkey → List Pubkey → ℕ → Bool × TokenAmounts

-- What the harness asks of `anyhow::Error`: the anchor error in it, their equality, and whether the
-- texts of two errors are equal.
pub record AnyhowErrors : Type 1 where
  pub AnchorError : Type 0
  pub downcast_ref : Error → Option AnchorError
  pub eq : AnchorError → AnchorError → Bool
  pub same_text : Error → Error → Bool

pub record ProgramTest : Type 0 where
  pub banks_client : BanksClient
  pub payer : Pubkey
  pub set_compute_unit_limit : ℕ → Instruction

-- The result of a simulated swap, and what it took from the source and gave to the destination.
pub record Simulation : Type 0 where
  pub succeeded : Bool
  pub source_token_account_diff : ℕ
  pub destination_token_account_diff : ℕ

-- `assert!`
abbrev pub assert_ : Bool → Outcome Error (Unit {0})
assert_ true = ok tt
assert_ false = panic

-- `(a as i128 - b as i128).abs()`
abbrev pub abs_diff : ℕ → ℕ → ℕ
abs_diff a b = if leb b a then a - b else b - a

module _ (context : ProgramTest) where
  open context use {banks_client, payer, set_compute_unit_limit}

  abbrev pub process_transaction : List Instruction → List Pubkey → Bool × TokenAmounts
  process_transaction instructions signers = elim banks_client.latest_blockhash [
    | none ↦ (false, banks_client.token_amounts)
    | some recent_blockhash ↦
        banks_client.process_transaction_with_preflight instructions payer (payer ∷ signers)
          recent_blockhash
  ]

  abbrev pub instructions_of : Instruction → List Instruction
  instructions_of swap_ix = set_compute_unit_limit 1_400_000 ∷ swap_ix ∷ []

  -- The swap of a test, with the token accounts of the user read before it and after it.
  unfoldable pub simulate : Pubkey → Pubkey → Pubkey → Instruction → Outcome Error Simulation
  simulate user source destination swap_ix =
      let (succeeded, after) = process_transaction (instructions_of swap_ix) (user ∷ []) in
      do
        source_before ← unwrap (banks_client.token_amounts source)
        destination_before ← unwrap (banks_client.token_amounts destination)
        source_after ← unwrap (after source)
        destination_after ← unwrap (after destination)
        source_diff ← unwrap (checked_sub source_before source_after)
        destination_diff ← unwrap (checked_sub destination_after destination_before)
        ok (record {
          succeeded = succeeded;
          source_token_account_diff = source_diff;
          destination_token_account_diff = destination_diff;
        })

  -- `assert_out_amount_matches_simulated_swap`, for the user with this token account of the output
  -- mint; no tolerance is a tolerance of 0.
  unfoldable pub assert_out_amount_matches_simulated_swap :
      Pubkey → Pubkey → Instruction → ℕ → Option ℕ → Outcome Error (Unit {0})
  assert_out_amount_matches_simulated_swap user output swap_ix out_amount tolerance =
      let (succeeded, after) = process_transaction (instructions_of swap_ix) (user ∷ []) in
      do
        before ← unwrap (banks_client.token_amounts output)
        assert_ succeeded
        left ← unwrap (after output)
        simulation_amount ← unwrap (checked_sub left before)
        assert_ (leb (abs_diff out_amount simulation_amount) (unwrap_or tolerance 0))

-- The quote of a test against the simulation.
abbrev pub check_quote :
    {D : Type 0} → SwapMode → ℕ → ℕ → Chain.Quote D → Simulation → Outcome Error (Unit {0})
check_quote exact_in tolerance amount quote s =
    assert_ (leb (abs_diff quote.out_amount s.destination_token_account_diff) tolerance)
check_quote exact_out tolerance amount quote s =
    assert_ (leb (abs_diff quote.in_amount s.source_token_account_diff) tolerance)
    >> assert_ (amount == s.destination_token_account_diff)

module _ (errors : AnyhowErrors) where
  open errors use {downcast_ref, eq, same_text}

  -- An anchor error is compared as such, any other by its text.
  abbrev pub check_error : Error → Error → Outcome Error (Unit {0})
  check_error expected quote_err = elim (downcast_ref expected) [
    | some error ↦ unwrap (downcast_ref quote_err) >>= λ quote_error. assert_ (eq error quote_error)
    | none ↦ assert_ (same_text expected quote_err)
  ]

  module _ (context : ProgramTest) (set_up : TestSetUp)
      (to_account_metas : JupiterAccounts → List AccountMeta) (data_of : JupiterInstruction → Bytes)
      (ext : External) (amm : Amm ext) (profile : Profile) (clock : ClockRef)
      (self : amm.State) where
    open set_up use {user, test}

    -- The quotes whose time is taken.
    abbrev pub benchmark : ℕ → ℕ → Outcome Error (Unit {0})
    benchmark zero amount = ok tt
    benchmark (suc n) amount =
        unwrap_result {D = Error} (amm.quote profile clock self (quote_params set_up amount))
        >>= λ quote. benchmark n amount

    -- What is asserted of a simulated test swap.
    abbrev pub check_simulation :
        Option Error → TestSwap ext.decimals.D → Simulation → Outcome Error (Unit {0})
    check_simulation (some expected) swap s = do
      quote_err ← unwrap swap.found.quote_err
      check_error expected quote_err
      assert_ (not s.succeeded)
    check_simulation none swap s = do
      assert_ s.succeeded
      quote ← unwrap swap.found.quote_result
      check_quote test.swap_mode test.tolerance swap.found.amount quote s
      benchmark 100 swap.found.amount

    unfoldable pub assert_quote_matches_simulated_swap : Outcome Error (Unit {0})
    assert_quote_matches_simulated_swap = do
      swap ← test_swap set_up to_account_metas data_of ext amm profile clock self
      s ←
          simulate context user.pubkey swap.accounts.user_source_token_account
            swap.accounts.user_destination_token_account swap.instruction
      check_simulation test.expected_error swap s
