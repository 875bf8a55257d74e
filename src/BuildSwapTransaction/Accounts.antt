-- ===== src/BuildSwapTransaction/Accounts.antt =====
-- `build_swap_accounts` (jupiter-core/src/build_swap_transaction.rs). The account structures of the
-- Jupiter program are generated from its IDL: here they are the structures as the function fills
-- them in, and how one is listed (`to_account_metas`) is a parameter.
use jupiter_amm_implementati.Base.{
  Bool, true, false, Option, none, some, List, Outcome, ok, err, ◌>>=◌, unwrap_or,
}
use jupiter_amm_implementati.Chain.{Pubkey, AccountMeta, SwapMode, exact_in, exact_out}

pub record BuildSwapAccountsParams : Type 0 where
  pub use_shared_accounts : Bool
  pub swap_mode : SwapMode
  pub user : Pubkey
  pub program_authority : Pubkey
  pub user_source_token_account : Pubkey
  pub source_token_account : Pubkey
  pub user_destination_token_account : Pubkey
  pub destination_token_account : Pubkey
  pub destination_token_program : Pubkey
  pub input_mint : Pubkey
  pub output_mint : Pubkey
  pub token_ledger : Option Pubkey
  pub platform_fee_account : Option Pubkey
  pub optional_destination_token_account : Option Pubkey
  pub token2022_program : Option Pubkey

-- `jupiter::accounts::SharedAccountsRoute`, and `SharedAccountsExactOutRoute` with the same fields.
pub record SharedAccounts : Type 0 where
  pub token_program : Pubkey
  pub program_authority : Pubkey
  pub user_transfer_authority : Pubkey
  pub source_token_account : Pubkey
  pub program_source_token_account : Pubkey
  pub program_destination_token_account : Pubkey
  pub destination_token_account : Pubkey
  pub source_mint : Pubkey
  pub destination_mint : Pubkey
  pub platform_fee_account : Pubkey
  pub token_2022_program : Pubkey
  pub event_authority : Pubkey
  pub program : Pubkey

-- `jupiter::accounts::Route`
pub record RouteAccounts : Type 0 where
  pub token_program : Pubkey
  pub user_transfer_authority : Pubkey
  pub user_source_token_account : Pubkey
  pub user_destination_token_account : Pubkey
  pub destination_mint : Pubkey
  pub platform_fee_account : Pubkey
  pub destination_token_account : Pubkey
  pub event_authority : Pubkey
  pub program : Pubkey

-- `jupiter::accounts::ExactOutRoute`
pub record ExactOutRouteAccounts : Type 0 where
  pub token_program : Pubkey
  pub user_transfer_authority : Pubkey
  pub user_source_token_account : Pubkey
  pub user_destination_token_account : Pubkey
  pub source_mint : Pubkey
  pub destination_mint : Pubkey
  pub platform_fee_account : Pubkey
  pub destination_token_account : Pubkey
  pub token_2022_program : Pubkey
  pub event_authority : Pubkey
  pub program : Pubkey

-- The structures that are filled in; those with a token ledger hold it beside the others' fields.
pub data JupiterAccounts : Type 0 where
  shared_accounts_route_with_token_ledger : SharedAccounts → Pubkey → JupiterAccounts
  shared_accounts_route : SharedAccounts → JupiterAccounts
  shared_accounts_exact_out_route : SharedAccounts → JupiterAccounts
  route_with_token_ledger : RouteAccounts → Pubkey → JupiterAccounts
  route : RouteAccounts → JupiterAccounts
  exact_out_route : ExactOutRouteAccounts → JupiterAccounts

pub data BuildError : Type 0 where
  exact_out_is_only_supported_with_shared_accounts_and_without_token_ledger : BuildError

-- The keys of other crates: the Jupiter program, its event authority, and the token program.
pub record JupiterKeys : Type 0 where
  pub jupiter_id : Pubkey
  pub event_authority : Pubkey
  pub spl_token_id : Pubkey

module _ (keys : JupiterKeys) (p : BuildSwapAccountsParams) where
  destination : Pubkey
  destination = unwrap_or p.optional_destination_token_account p.user_destination_token_account

  shared : SharedAccounts
  unfolding destination
  shared = record {
    token_program = keys.spl_token_id;
    program_authority = p.program_authority;
    user_transfer_authority = p.user;
    source_token_account = p.user_source_token_account;
    program_source_token_account = p.source_token_account;
    program_destination_token_account = p.destination_token_account;
    destination_token_account = destination;
    source_mint = p.input_mint;
    destination_mint = p.output_mint;
    platform_fee_account = unwrap_or p.platform_fee_account keys.jupiter_id;
    token_2022_program = unwrap_or p.token2022_program keys.jupiter_id;
    event_authority = keys.event_authority;
    program = keys.jupiter_id;
  }

  plain : RouteAccounts
  unfolding destination
  plain = record {
    token_program = p.destination_token_program;
    user_transfer_authority = p.user;
    user_source_token_account = p.user_source_token_account;
    user_destination_token_account = p.user_destination_token_account;
    destination_mint = p.output_mint;
    platform_fee_account = unwrap_or p.platform_fee_account keys.jupiter_id;
    destination_token_account = destination;
    event_authority = keys.event_authority;
    program = keys.jupiter_id;
  }

  exact_out_accounts : ExactOutRouteAccounts
  unfolding destination
  exact_out_accounts = record {
    token_program = keys.spl_token_id;
    user_transfer_authority = p.user;
    user_source_token_account = p.user_source_token_account;
    user_destination_token_account = p.user_destination_token_account;
    source_mint = p.input_mint;
    destination_mint = p.output_mint;
    platform_fee_account = unwrap_or p.platform_fee_account keys.jupiter_id;
    destination_token_account = destination;
    token_2022_program = unwrap_or p.token2022_program keys.jupiter_id;
    event_authority = keys.event_authority;
    program = keys.jupiter_id;
  }

  -- The match on `(use_shared_accounts, swap_mode, token_ledger)`.
  select : Bool → SwapMode → Option Pubkey → Outcome BuildError JupiterAccounts
  unfolding shared plain exact_out_accounts
  select true exact_in (some ledger) = ok (shared_accounts_route_with_token_ledger shared ledger)
  select true exact_in none = ok (shared_accounts_route shared)
  select true exact_out none = ok (shared_accounts_exact_out_route shared)
  select false exact_in (some ledger) = ok (route_with_token_ledger plain ledger)
  select false exact_in none = ok (route plain)
  select false exact_out none = ok (exact_out_route exact_out_accounts)
  select _ exact_out (some _) =
      err exact_out_is_only_supported_with_shared_accounts_and_without_token_ledger

  unfoldable pub jupiter_accounts : Outcome BuildError JupiterAccounts
  unfolding select
  jupiter_accounts = select p.use_shared_accounts p.swap_mode p.token_ledger

  unfoldable pub build_swap_accounts :
      (JupiterAccounts → List AccountMeta) → Outcome BuildError (List AccountMeta)
  unfolding jupiter_accounts
  build_swap_accounts to_account_metas = do
    accounts ← jupiter_accounts
    ok (to_account_metas accounts)
