-- ===== src/Tests/Other.antt =====
-- Runs of the loader and of the Jupiter instructions.
use jupiter_amm_implementati.Base.{ℕ, ◌≡◌, ◌≢◌, refl, true, false, Option, none, some, [], ◌∷◌, ok}
use jupiter_amm_implementati.Chain.{SwapMode, exact_in, raydium_cp}
use jupiter_amm_implementati.Amms.External.{KeyedAccount}
use jupiter_amm_implementati.Amms.SegaAmm
use jupiter_amm_implementati.Amms.SegaAmm.{sega}
use jupiter_amm_implementati.Amms.SplTokenSwapAmm.{spl_token_swap_programs}
use jupiter_amm_implementati.Amms.Loader.{AnyAmm, sega_amm, amm_factory, sega_swap_programs}
use jupiter_amm_implementati.BuildSwapTransaction.Accounts.{
  BuildSwapAccountsParams, JupiterAccounts, JupiterKeys, jupiter_accounts, build_swap_accounts,
  exact_out_is_only_supported_with_shared_accounts_and_without_token_ledger,
}
use jupiter_amm_implementati.BuildSwapTransaction.Accounts as Accounts
use jupiter_amm_implementati.BuildSwapTransaction.InstructionData.{BuildSwapInstructionDataParams}
use jupiter_amm_implementati.Tests.World.{ext, keyed, set_up}
use jupiter_amm_implementati.Tests.Spl.{lib}

-- An account of a program that no table names.
abbrev stranger : KeyedAccount ext
stranger = record { key = 30; account = (31, 1 ∷ []) }

has_data : keyed.account.1 ≢ []
has_data h = cc

abbrev amm_of : SegaAmm.SegaAmm ext → AnyAmm ext lib
amm_of self = sega_amm self

loaded : amm_factory ext lib keyed ≡ ok (amm_of set_up)
unfolding amm_factory spl_token_swap_programs sega_swap_programs SegaAmm.from_keyed_account
loaded = refl

abbrev keys : JupiterKeys
keys = record { jupiter_id = 40; event_authority = 41; spl_token_id = 7 }

abbrev params : SwapMode → Option ℕ → BuildSwapAccountsParams
params mode ledger = record {
  use_shared_accounts = false;
  swap_mode = mode;
  user = 50;
  program_authority = 51;
  user_source_token_account = 52;
  source_token_account = 53;
  user_destination_token_account = 54;
  destination_token_account = 55;
  destination_token_program = 7;
  input_mint = 5;
  output_mint = 6;
  token_ledger = ledger;
  platform_fee_account = none;
  optional_destination_token_account = none;
  token2022_program = none;
}

abbrev data_params : BuildSwapInstructionDataParams
data_params = record {
  use_shared_accounts = false;
  use_token_ledger = true;
  program_authority_id = 3;
  route_plan =
      (record { swap = raydium_cp; percent = 100; input_index = 0; output_index = 1 }) ∷ [];
  amount = 10_000;
  quoted_amount = 19_752;
  swap_mode = exact_in;
  slippage_bps = 50;
  platform_fee_bps = 0;
}

abbrev route_accounts : JupiterAccounts
route_accounts =
    Accounts.route_with_token_ledger
      (record {
        token_program = 7;
        user_transfer_authority = 50;
        user_source_token_account = 52;
        user_destination_token_account = 54;
        destination_mint = 6;
        platform_fee_account = 40;
        destination_token_account = 54;
        event_authority = 41;
        program = 40;
      })
      60

accounts_built : jupiter_accounts keys (params exact_in (some 60)) ≡ ok route_accounts
unfolding jupiter_accounts
accounts_built = refl
