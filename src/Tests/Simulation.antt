-- ===== src/Tests/Simulation.antt =====
-- The tests of swaps in both directions of the concrete Sega pool.
use jupiter_amm_implementati.Base.{
  ℕ, ◌-◌, ◌≤◌, ◌≡◌, refl, true, false, none, some, [], ◌∷◌, ok, ◌==◌, if◌then◌else◌, debug,
}
use jupiter_amm_implementati.Chain
use jupiter_amm_implementati.Chain.{Pubkey, exact_in, readonly}
use jupiter_amm_implementati.CpSwap.Swap.{to_account_metas}
use jupiter_amm_implementati.CpSwap.Pool.{get_status_by_bit}
use jupiter_amm_implementati.CpSwap.Fees.{trading_fee, protocol_fee, fund_fee}
use jupiter_amm_implementati.CpSwap.ConstantProduct.{swap_base_input_without_fees}
use jupiter_amm_implementati.CpSwap.Calculator.{SwapResult, swap_base_input}
use jupiter_amm_implementati.Amms.SegaAmm.{get_authority}
use jupiter_amm_implementati.Amms.SegaAmm.Metas as Metas
use jupiter_amm_implementati.Amms.SegaAmm.Quote.{
  rates_of, vault_amount_without_fee, is_closed, reserves, fee_pct, after_transfer_fee,
  mint_transfer_fee_configs, finish, quote, quote_swap,
}
use jupiter_amm_implementati.Amms.Interface.QuoteSearch.{Found, find_quote}
use jupiter_amm_implementati.Amms.Interface.SwapInstruction.{
  TestSetUp, TestSwap, test_swap, swap_accounts,
}
use jupiter_amm_implementati.Amms.Interface.SwapInstruction.Simulation.{
  TokenAmounts, ProgramTest, AnyhowErrors, Simulation, abs_diff, simulate,
  assert_quote_matches_simulated_swap,
}
use jupiter_amm_implementati.Amms.Interface.SwapInstruction.Balances.{Balances}
use jupiter_amm_implementati.Amms.Interface.SwapInstruction.SegaTest.{Passes, IsExactIn, test-pays}
use jupiter_amm_implementati.BuildSwapTransaction.Accounts.{build_swap_accounts}
use jupiter_amm_implementati.BuildSwapTransaction.InstructionData.{build_swap_instruction_data}
use jupiter_amm_implementati.Tests.World.{ext, amm, clock, mints, config}
use jupiter_amm_implementati.Tests.Instruction.{
  test_set_up, test_accounts, to_metas, data_of, sega_accounts, swap_ix,
}

-- No error is an anchor error, and their texts are not told apart.
abbrev errors : AnyhowErrors
errors = record { AnchorError = ℕ; downcast_ref = λ e. none; eq = ◌==◌; same_text = λ e e'. true }

abbrev amounts : Pubkey → ℕ → ℕ → TokenAmounts
amounts source left received account =
    if account == source
    then some left
    else if account == 80
    then some received
    else if account == 81
    then some received
    else none

-- A bank whose swaps take 10,000 from this account and give `paid` to the other.
abbrev bank : Pubkey → ℕ → ProgramTest
bank source paid = record {
  banks_client = record {
    latest_blockhash = some 1;
    token_amounts = amounts source 50_000 0;
    process_transaction_with_preflight =
        λ ixs payer signers blockhash. (true, amounts source 40_000 paid);
  };
  payer = 90;
  set_compute_unit_limit = λ n. record { program_id = 91; accounts = []; data_ = n ∷ [] };
}

-- Both directions, with 19,752 quoted.
abbrev selling : Pubkey → TestSetUp
selling mint = record test_set_up {
  test = record {
    source_mint = mint;
    destination_mint = 11 - mint;
    swap_mode = exact_in;
    tolerance = 5;
    use_shared_accounts = true;
    expected_error = none;
  };
}

abbrev quoted : Pubkey → Chain.Quote ℕ
quoted mint = record {
  in_amount = 10_000;
  out_amount = 19_752;
  fee_amount = 25;
  fee_mint = mint;
  fee_pct = 25;
}

abbrev found : Pubkey → Found ℕ
found mint = record { amount = 10_000; quote_result = some (quoted mint); quote_err = none }

abbrev pub swap_0 : TestSwap ℕ
swap_0 = record { accounts = test_accounts; found = found 5; instruction = swap_ix }

-- The same pool from its other side.
abbrev swap_1 : TestSwap ℕ
swap_1 = record {
  accounts = record {
    user_source_token_account = 81;
    user_destination_token_account = 80;
    program_source_token_account = 83;
    program_destination_token_account = 82;
  };
  found = found 6;
  instruction = record swap_ix {
    accounts =
        readonly 70 true
        ∷ readonly 71 false
        ∷ to_account_metas
            (record sega_accounts {
              input_token_account = 83;
              output_token_account = 82;
              input_vault = 4;
              output_vault = 3;
              input_token_mint = 6;
              output_token_mint = 5;
            })
            none;
  };
}

abbrev received : ℕ → Simulation
received paid = record {
  succeeded = true;
  source_token_account_diff = 10_000;
  destination_token_account_diff = paid;
}

pass_1 :
    Passes errors to_metas data_of ext false debug clock amm
      (bank 81 19_755)
      (selling 6)
      swap_1
      (received 19_755)
unfolding assert_quote_matches_simulated_swap simulate test_swap swap_accounts build_swap_accounts
    find_quote build_swap_instruction_data Metas.get_swap_and_account_metas get_authority quote
    quote_swap swap_base_input trading_fee protocol_fee fund_fee swap_base_input_without_fees
    vault_amount_without_fee get_status_by_bit is_closed after_transfer_fee
    mint_transfer_fee_configs fee_pct reserves finish
pass_1 = record { made = refl; simulated = refl; passed = refl }

exact : (mint : Pubkey) → IsExactIn (selling mint)
exact mint = record { mode = refl; no_error = refl }

reserves_ok : reserves ext debug amm ≡ ok (1_000_000, 2_000_000)
unfolding reserves vault_amount_without_fee
reserves_ok = refl

test-pays_example :
    (r : SwapResult) × (swap_base_input 10_000 1_000_000 2_000_000 (rates_of config) ≡ ok r)
    × (abs_diff r.destination_amount_swapped 19_755 ≤ 5)
test-pays_example =
    test-pays errors to_metas data_of ext false debug clock amm (bank 81 19_755) (selling 6) swap_1
      (received 19_755) mints config 1_000_000 2_000_000 (exact 6) refl (refl, refl) refl
      reserves_ok pass_1
