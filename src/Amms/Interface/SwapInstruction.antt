-- ===== src/Amms/Interface/SwapInstruction.antt =====
-- The instruction of a test swap, from an AMM's accounts and the structures of the Jupiter program
-- (`assert_quote_matches_simulated_swap` in jupiter-core/src/amms/test_harness.rs, up to the
-- simulation, which Simulation has). The token accounts, the list of an account structure and the bytes of an instruction
-- are arguments; so are the tables of mints, of which MintTables has the harness's.
pub mod Signers
pub mod Steps
pub mod Simulation
pub mod Verdict
pub mod Balances
pub mod Passing
pub mod Owners
pub mod SegaTest
use jupiter_amm_implementati.Base.{
  ℕ, ◌≡◌, Bool, true, false, not, ◌||◌, Option, none, some, List, [], ◌∷◌, ◌++◌, Outcome, ok, err,
  panic, ◌>>=◌, unwrap, ◌==◌, Profile, u64_max, if◌then◌else◌,
}
use jupiter_amm_implementati.Chain.{
  Bytes, Pubkey, AccountMeta, SwapMode, exact_in, exact_out, QuoteParams, SwapParams, ClockRef,
  SwapAndAccountMetas,
}
use jupiter_amm_implementati.Constants.{usdc_mint, usdt_mint}
use jupiter_amm_implementati.Amms.Error.{Error}
use jupiter_amm_implementati.Amms.External.{External}
use jupiter_amm_implementati.Amms.Interface.{Amm}
use jupiter_amm_implementati.Amms.Interface.QuoteSearch.{Found, find_quote}
use jupiter_amm_implementati.Amms.Interface.MintTables.{MintTables}
use jupiter_amm_implementati.BuildSwapTransaction.Accounts.{
  BuildSwapAccountsParams, JupiterAccounts, JupiterKeys, build_swap_accounts,
}
use jupiter_amm_implementati.BuildSwapTransaction.InstructionData.{
  RoutePlanStep, JupiterInstruction, BuildSwapInstructionDataParams, build_swap_instruction_data,
}

-- `ProgramTestUser` and `ProgramTestAuthority`, with the token account of a mint.
pub record ProgramTestUser : Type 0 where
  pub pubkey : Pubkey
  pub mint_to_ata : Pubkey → Option Pubkey

pub record ProgramTestAuthority : Type 0 where
  pub id : ℕ
  pub pubkey : Pubkey
  pub mint_to_ata : Pubkey → Option Pubkey

-- `AmmTestSwapParams` without the AMM.
pub record AmmTestSwapParams : Type 0 where
  pub source_mint : Pubkey
  pub destination_mint : Pubkey
  pub swap_mode : SwapMode
  pub tolerance : ℕ
  pub use_shared_accounts : Bool
  pub expected_error : Option Error

pub record Instruction : Type 0 where
  pub program_id : Pubkey
  pub accounts : List AccountMeta
  pub data_ : Bytes

-- `.unwrap()` of a `Result`.
abbrev pub unwrap_result {ε δ ℓ} :
    {E : Type ε} {D : Type δ} {A : Type ℓ} → Outcome E A → Outcome D A
unwrap_result (ok a) = ok a
unwrap_result (err e) = panic
unwrap_result panic = panic

-- The token accounts of a swap.
pub record SwapAccounts : Type 0 where
  pub user_source_token_account : Pubkey
  pub user_destination_token_account : Pubkey
  pub program_source_token_account : Pubkey
  pub program_destination_token_account : Pubkey

-- What is known of a test swap when it is simulated.
pub record TestSwap (D : Type 0) : Type 0 where
  pub accounts : SwapAccounts
  pub found : Found D
  pub instruction : Instruction

-- A test with what it runs on.
pub record TestSetUp : Type 0 where
  pub user : ProgramTestUser
  pub authority : ProgramTestAuthority
  pub tables : MintTables
  pub keys : JupiterKeys
  pub spl_token_2022_id : Pubkey
  pub test : AmmTestSwapParams

module _ (set_up : TestSetUp) where
  open set_up use {user, authority, tables, keys, spl_token_2022_id, test}

  unfoldable pub swap_accounts : Outcome Error SwapAccounts
  swap_accounts = do
    user_source ← unwrap (user.mint_to_ata test.source_mint)
    user_destination ← unwrap (user.mint_to_ata test.destination_mint)
    program_source ← unwrap (authority.mint_to_ata test.source_mint)
    program_destination ← unwrap (authority.mint_to_ata test.destination_mint)
    ok (record {
      user_source_token_account = user_source;
      user_destination_token_account = user_destination;
      program_source_token_account = program_source;
      program_destination_token_account = program_destination;
    })

  abbrev pub amount_of : SwapMode → Outcome Error ℕ
  amount_of exact_in = unwrap (tables.in_amounts test.source_mint)
  amount_of exact_out = unwrap (tables.out_amounts test.destination_mint)

  -- With shared accounts the swap runs on the program's accounts, but for a mint of Token-2022.
  abbrev pub source_token_account : SwapAccounts → Pubkey
  source_token_account a =
      if not test.use_shared_accounts || tables.is_token2022 test.source_mint
      then a.user_source_token_account
      else a.program_source_token_account

  abbrev pub destination_token_account : SwapAccounts → Pubkey
  destination_token_account a =
      if not test.use_shared_accounts || tables.is_token2022 test.destination_mint
      then a.user_destination_token_account
      else a.program_destination_token_account

  abbrev pub token_authority : Pubkey
  token_authority =
      if not test.use_shared_accounts || tables.is_token2022 test.source_mint
      then user.pubkey
      else authority.pubkey

  abbrev pub accounts_params : SwapAccounts → BuildSwapAccountsParams
  accounts_params a = record {
    use_shared_accounts = test.use_shared_accounts;
    swap_mode = test.swap_mode;
    user = user.pubkey;
    program_authority = authority.pubkey;
    user_source_token_account = a.user_source_token_account;
    source_token_account = source_token_account a;
    user_destination_token_account = a.user_destination_token_account;
    destination_token_account = destination_token_account a;
    destination_token_program = keys.spl_token_id;
    input_mint = test.source_mint;
    output_mint = test.destination_mint;
    token_ledger = none;
    platform_fee_account = none;
    optional_destination_token_account = none;
    token2022_program = some spl_token_2022_id;
  }

  abbrev pub swap_params : SwapAccounts → ℕ → SwapParams
  swap_params a amount = record {
    swap_mode = test.swap_mode;
    in_amount = amount;
    out_amount = amount;
    source_mint = test.source_mint;
    destination_mint = test.destination_mint;
    source_token_account = source_token_account a;
    destination_token_account = destination_token_account a;
    token_transfer_authority = token_authority;
    quote_mint_to_referrer = none;
    jupiter_program_id = keys.jupiter_id;
    missing_dynamic_accounts_as_default = false;
  }

  abbrev pub quoted_amount : SwapMode → ℕ
  quoted_amount exact_in = 0
  quoted_amount exact_out = u64_max

  -- The AMM's swap is the one step of the route.
  abbrev pub data_params : SwapAndAccountMetas → ℕ → BuildSwapInstructionDataParams
  data_params metas amount = record {
    use_shared_accounts = test.use_shared_accounts;
    use_token_ledger = false;
    program_authority_id = authority.id;
    route_plan =
        (record { swap = metas.swap; percent = 100; input_index = 0; output_index = 1 }) ∷ [];
    amount = amount;
    quoted_amount = quoted_amount test.swap_mode;
    swap_mode = test.swap_mode;
    slippage_bps = 0;
    platform_fee_bps = 0;
  }

  abbrev pub quote_params : ℕ → QuoteParams
  quote_params amount = record {
    amount = amount;
    input_mint = test.source_mint;
    output_mint = test.destination_mint;
    swap_mode = test.swap_mode;
  }

  module _ (to_account_metas : JupiterAccounts → List AccountMeta)
      (data_of : JupiterInstruction → Bytes) (ext : External) (amm : Amm ext) (profile : Profile)
      (clock : ClockRef) (self : amm.State) where
    unfoldable pub test_swap : Outcome Error (TestSwap ext.decimals.D)
    test_swap = do
      a ← swap_accounts
      amount ← amount_of test.swap_mode
      accounts ← unwrap_result (build_swap_accounts keys (accounts_params a) to_account_metas)
      found ← find_quote ext amm profile clock quote_params self amount
      metas ← unwrap_result (amm.get_swap_and_account_metas self (swap_params a found.amount))
      data_ ← unwrap_result (build_swap_instruction_data data_of (data_params metas found.amount))
      ok (record {
        accounts = a;
        found = found;
        instruction = record {
          program_id = keys.jupiter_id;
          accounts = accounts ++ metas.account_metas;
          data_ = data_;
        };
      })

    unfoldable pub swap_instruction : Outcome Error Instruction
    swap_instruction = do swap ← test_swap; ok swap.instruction
