-- ===== src/BuildSwapTransaction/InstructionData.antt =====
-- `build_swap_instruction_data` (jupiter-core/src/build_swap_transaction.rs) and the instruction
-- structures of `jupiter_override` (jupiter/src/lib.rs). How anchor writes a structure out as bytes,
-- behind its discriminator, is a parameter.
use jupiter_amm_implementati.Base.{ℕ, Bool, true, false, List, Outcome, ok}
use jupiter_amm_implementati.Chain.{Bytes, Swap, SwapMode, exact_in, exact_out}
use jupiter_amm_implementati.BuildSwapTransaction.Accounts.{BuildError}

pub record RoutePlanStep : Type 0 where
  pub swap : Swap
  pub percent : ℕ
  pub input_index : ℕ
  pub output_index : ℕ

pub record Route : Type 0 where
  pub route_plan : List RoutePlanStep
  pub in_amount : ℕ
  pub quoted_out_amount : ℕ
  pub slippage_bps : ℕ
  pub platform_fee_bps : ℕ

pub record ExactOutRoute : Type 0 where
  pub route_plan : List RoutePlanStep
  pub out_amount : ℕ
  pub quoted_in_amount : ℕ
  pub slippage_bps : ℕ
  pub platform_fee_bps : ℕ

pub record RouteWithTokenLedger : Type 0 where
  pub route_plan : List RoutePlanStep
  pub quoted_out_amount : ℕ
  pub slippage_bps : ℕ
  pub platform_fee_bps : ℕ

pub record SharedAccountsRoute : Type 0 where
  pub id : ℕ
  pub route_plan : List RoutePlanStep
  pub in_amount : ℕ
  pub quoted_out_amount : ℕ
  pub slippage_bps : ℕ
  pub platform_fee_bps : ℕ

pub record SharedAccountsExactOutRoute : Type 0 where
  pub id : ℕ
  pub route_plan : List RoutePlanStep
  pub out_amount : ℕ
  pub quoted_in_amount : ℕ
  pub slippage_bps : ℕ
  pub platform_fee_bps : ℕ

pub record SharedAccountsRouteWithTokenLedger : Type 0 where
  pub id : ℕ
  pub route_plan : List RoutePlanStep
  pub quoted_out_amount : ℕ
  pub slippage_bps : ℕ
  pub platform_fee_bps : ℕ

-- The types that implement `InstructionData`.
pub data JupiterInstruction : Type 0 where
  route : Route → JupiterInstruction
  exact_out_route : ExactOutRoute → JupiterInstruction
  route_with_token_ledger : RouteWithTokenLedger → JupiterInstruction
  shared_accounts_route : SharedAccountsRoute → JupiterInstruction
  shared_accounts_exact_out_route : SharedAccountsExactOutRoute → JupiterInstruction
  shared_accounts_route_with_token_ledger : SharedAccountsRouteWithTokenLedger → JupiterInstruction

pub record BuildSwapInstructionDataParams : Type 0 where
  pub use_shared_accounts : Bool
  pub use_token_ledger : Bool
  pub program_authority_id : ℕ
  pub route_plan : List RoutePlanStep
  pub amount : ℕ
  pub quoted_amount : ℕ
  pub swap_mode : SwapMode
  pub slippage_bps : ℕ
  pub platform_fee_bps : ℕ

module _ (p : BuildSwapInstructionDataParams) where
  -- The two matches, on `swap_mode` and on the pair of the flags.
  select : SwapMode → Bool → Bool → JupiterInstruction
  select exact_in true true = shared_accounts_route_with_token_ledger (record {
    id = p.program_authority_id;
    route_plan = p.route_plan;
    quoted_out_amount = p.quoted_amount;
    slippage_bps = p.slippage_bps;
    platform_fee_bps = p.platform_fee_bps;
  })
  select exact_in true false = shared_accounts_route (record {
    id = p.program_authority_id;
    route_plan = p.route_plan;
    in_amount = p.amount;
    quoted_out_amount = p.quoted_amount;
    slippage_bps = p.slippage_bps;
    platform_fee_bps = p.platform_fee_bps;
  })
  select exact_in false true = route_with_token_ledger (record {
    route_plan = p.route_plan;
    quoted_out_amount = p.quoted_amount;
    slippage_bps = p.slippage_bps;
    platform_fee_bps = p.platform_fee_bps;
  })
  select exact_in false false = route (record {
    route_plan = p.route_plan;
    in_amount = p.amount;
    quoted_out_amount = p.quoted_amount;
    slippage_bps = p.slippage_bps;
    platform_fee_bps = p.platform_fee_bps;
  })
  select exact_out true _ = shared_accounts_exact_out_route (record {
    id = p.program_authority_id;
    route_plan = p.route_plan;
    out_amount = p.amount;
    quoted_in_amount = p.quoted_amount;
    slippage_bps = p.slippage_bps;
    platform_fee_bps = p.platform_fee_bps;
  })
  select exact_out false _ = exact_out_route (record {
    route_plan = p.route_plan;
    out_amount = p.amount;
    quoted_in_amount = p.quoted_amount;
    slippage_bps = p.slippage_bps;
    platform_fee_bps = p.platform_fee_bps;
  })

  unfoldable pub instruction : JupiterInstruction
  unfolding select
  instruction = select p.swap_mode p.use_shared_accounts p.use_token_ledger

unfoldable pub build_swap_instruction_data :
    (JupiterInstruction → Bytes) → BuildSwapInstructionDataParams → Outcome BuildError Bytes
unfolding instruction
build_swap_instruction_data data_of p = ok (data_of (instruction p))
