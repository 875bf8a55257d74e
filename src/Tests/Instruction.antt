-- ===== src/Tests/Instruction.antt =====
-- The instruction of a test swap on the concrete Sega pool.
use jupiter_amm_implementati.Base.{
  ◌≡◌, refl, true, false, none, some, List, [], ◌∷◌, ok, ◌==◌, if◌then◌else◌, debug,
}
use jupiter_amm_implementati.Chain.{Bytes, AccountMeta, readonly, exact_in}
use jupiter_amm_implementati.CpSwap.Swap.{SegaSwap, to_account_metas}
use jupiter_amm_implementati.CpSwap.Pool.{get_status_by_bit}
use jupiter_amm_implementati.CpSwap.Fees.{trading_fee, protocol_fee, fund_fee}
use jupiter_amm_implementati.CpSwap.ConstantProduct.{swap_base_input_without_fees}
use jupiter_amm_implementati.CpSwap.Calculator.{swap_base_input}
use jupiter_amm_implementati.Amms.SegaAmm.{get_authority}
use jupiter_amm_implementati.Amms.SegaAmm.Metas as Metas
use jupiter_amm_implementati.Amms.SegaAmm.Quote.{
  vault_amount_without_fee, is_closed, reserves, fee_pct, after_transfer_fee,
  mint_transfer_fee_configs, finish, quote, quote_swap,
}
use jupiter_amm_implementati.Amms.Interface.QuoteSearch.{find_quote}
use jupiter_amm_implementati.Amms.Interface.{Amm}
use jupiter_amm_implementati.Amms.Interface.Impls.{for_sega_amm}
use jupiter_amm_implementati.Amms.Interface.Laws.{for_sega_amm-IsAmm}
use jupiter_amm_implementati.Amms.Interface.MintTables.{harness_tables}
use jupiter_amm_implementati.Amms.Interface.SwapInstruction.{
  TestSetUp, Instruction, SwapAccounts, swap_accounts, test_swap, swap_instruction,
}
use jupiter_amm_implementati.Amms.Interface.SwapInstruction.Signers.{
  SignedBy, transfer_authority, swap_instruction-SignedBy,
}
use jupiter_amm_implementati.BuildSwapTransaction.Accounts.{JupiterAccounts, build_swap_accounts}
use jupiter_amm_implementati.BuildSwapTransaction.InstructionData.{
  JupiterInstruction, build_swap_instruction_data,
}
use jupiter_amm_implementati.Tests.World.{ext, amm, clock}

-- The user 70 and the program's authority 60, with their accounts of the mints 5 and 6.
abbrev pub test_set_up : TestSetUp
test_set_up = record {
  user = record { pubkey = 70; mint_to_ata = λ mint. if mint == 5 then some 80 else some 81 };
  authority = record {
    id = 3;
    pubkey = 60;
    mint_to_ata = λ mint. if mint == 5 then some 82 else some 83;
  };
  tables = record harness_tables { in_amounts = λ mint. some 20_000 };
  keys = record { jupiter_id = 71; event_authority = 72; spl_token_id = 7 };
  spl_token_2022_id = 9;
  test = record {
    source_mint = 5;
    destination_mint = 6;
    swap_mode = exact_in;
    tolerance = 0;
    use_shared_accounts = true;
    expected_error = none;
  };
}

abbrev pub test_accounts : SwapAccounts
test_accounts = record {
  user_source_token_account = 80;
  user_destination_token_account = 81;
  program_source_token_account = 82;
  program_destination_token_account = 83;
}

-- The authority signs, and stands before the Jupiter program.
abbrev pub to_metas : JupiterAccounts → List AccountMeta
to_metas accounts = readonly (transfer_authority accounts) true ∷ readonly 71 false ∷ []

abbrev pub data_of : JupiterInstruction → Bytes
data_of i = 1 ∷ []

abbrev pub sega_ops : Amm ext
sega_ops = for_sega_amm ext false

lists_one :
    (accounts : JupiterAccounts) → SignedBy (transfer_authority accounts) (to_metas accounts)
lists_one accounts = (λ _. refl, (λ signs. cc (signs), tt))

-- The AMM takes the program's accounts from the user's authority.
abbrev pub sega_accounts : SegaSwap
sega_accounts = record {
  program = amm.program_id;
  payer = 60;
  authority = 99;
  amm_config = 2;
  pool_state = 1;
  input_token_account = 82;
  output_token_account = 83;
  input_vault = 3;
  output_vault = 4;
  input_token_program = 7;
  output_token_program = 7;
  input_token_mint = 5;
  output_token_mint = 6;
  observation_state = 8;
}

abbrev pub swap_ix : Instruction
swap_ix = record {
  program_id = 71;
  accounts = readonly 70 true ∷ readonly 71 false ∷ to_account_metas sega_accounts none;
  data_ = 1 ∷ [];
}

built : swap_instruction test_set_up to_metas data_of ext sega_ops debug clock amm ≡ ok swap_ix
unfolding swap_instruction test_swap swap_accounts build_swap_accounts find_quote
    build_swap_instruction_data Metas.get_swap_and_account_metas get_authority quote quote_swap
    swap_base_input trading_fee protocol_fee fund_fee swap_base_input_without_fees
    vault_amount_without_fee get_status_by_bit is_closed after_transfer_fee
    mint_transfer_fee_configs fee_pct reserves finish
built = refl

swap_instruction-SignedBy_example : SignedBy 70 swap_ix.accounts
swap_instruction-SignedBy_example =
    swap_instruction-SignedBy test_set_up to_metas data_of ext sega_ops debug clock amm
      {ix = swap_ix} (for_sega_amm-IsAmm ext false) lists_one built
