-- ===== src/Tests/Owners.antt =====
-- The owners of the token accounts of a test swap on the concrete Sega pool.
use jupiter_amm_implementati.Base.{
  ◌≡◌, refl, none, some, List, ◌++◌, ok, ◌==◌, ltb, if◌then◌else◌, debug, arith,
}
use jupiter_amm_implementati.Chain.{Pubkey, AccountMeta, SwapParams, SwapAndAccountMetas}
use jupiter_amm_implementati.CpSwap.Pool.{get_status_by_bit}
use jupiter_amm_implementati.CpSwap.Fees.{trading_fee, protocol_fee, fund_fee}
use jupiter_amm_implementati.CpSwap.ConstantProduct.{swap_base_input_without_fees}
use jupiter_amm_implementati.CpSwap.Calculator.{swap_base_input}
use jupiter_amm_implementati.Amms.SegaAmm.{get_authority}
use jupiter_amm_implementati.Amms.SegaAmm.Metas as Metas
use jupiter_amm_implementati.Amms.SegaAmm.Quote.{
  vault_amount_without_fee, is_closed, reserves, fee_pct, after_transfer_fee,
  mint_transfer_fee_configs, finish, quote, quote_swap,
}
use jupiter_amm_implementati.Amms.Interface.QuoteSearch.{find_quote}
use jupiter_amm_implementati.Amms.Interface.SwapInstruction.{TestSetUp, swap_accounts, test_swap}
use jupiter_amm_implementati.Amms.Interface.SwapInstruction.Owners.{
  HaveAccounts, IsAuthorized, test_swap-IsAuthorized,
}
use jupiter_amm_implementati.BuildSwapTransaction.Accounts.{build_swap_accounts}
use jupiter_amm_implementati.BuildSwapTransaction.InstructionData.{build_swap_instruction_data}
use jupiter_amm_implementati.Tests.World.{ext, amm, clock}
use jupiter_amm_implementati.Tests.Instruction.{test_set_up, to_metas, data_of, sega_ops}
use jupiter_amm_implementati.Tests.Simulation.{swap_0}

abbrev set_up : TestSetUp
set_up = record test_set_up {
  user = record {
    pubkey = 70;
    mint_to_ata = λ mint. if mint == 5 then some 80 else if mint == 6 then some 81 else none;
  };
  authority = record {
    id = 3;
    pubkey = 60;
    mint_to_ata = λ mint. if mint == 5 then some 82 else if mint == 6 then some 83 else none;
  };
}

abbrev owner : Pubkey → Pubkey
owner account = if ltb account 82 then 70 else 60

abbrev mint_of : Pubkey → Pubkey
mint_of account = if account == 80 then 5 else if account == 82 then 5 else 6

theirs : HaveAccounts owner mint_of set_up
theirs = record {
  of_user = λ mint account h. record { owned = ground arith; minted = ground arith };
  of_authority = λ mint account h. record { owned = ground arith; minted = ground arith };
}

made : test_swap set_up to_metas data_of ext sega_ops debug clock amm ≡ ok swap_0
unfolding test_swap swap_accounts build_swap_accounts find_quote build_swap_instruction_data
    Metas.get_swap_and_account_metas get_authority quote quote_swap swap_base_input trading_fee
    protocol_fee fund_fee swap_base_input_without_fees vault_amount_without_fee get_status_by_bit
    is_closed after_transfer_fee mint_transfer_fee_configs fee_pct reserves finish
made = refl

test_swap-IsAuthorized_example :
    (p : SwapParams) × (first : List AccountMeta) × (metas : SwapAndAccountMetas)
    × (sega_ops.get_swap_and_account_metas amm p ≡ ok metas)
    × (swap_0.instruction.accounts ≡ first ++ metas.account_metas)
    × (p.in_amount ≡ 10_000)
    × IsAuthorized owner mint_of set_up p
test_swap-IsAuthorized_example =
    test_swap-IsAuthorized owner mint_of set_up theirs to_metas data_of ext sega_ops debug clock amm
      {swap = swap_0} made
