-- ===== src/BuildSwapTransaction.antt =====
-- jupiter-core/src/build_swap_transaction.rs: the accounts, the data and the order of the
-- instructions of a swap through the Jupiter program.
pub mod Accounts
pub mod InstructionData
pub mod Agreement
pub mod Wire
use jupiter_amm_implementati.Base.{ℕ, Option, none, some, List, [], ◌∷◌, ◌++◌}
use jupiter_amm_implementati.Chain.{Pubkey}

pub record SwapInstructions (I : Type 0) : Type 0 where
  pub compute_budget_instructions : List I
  pub setup_instructions : List I
  pub token_ledger_instruction : Option I
  pub swap_instruction : I
  pub cleanup_instruction : Option I
  pub address_lookup_table_addresses : List Pubkey

-- An option as an iterator.
abbrev pub to_list {ℓ} : {A : Type ℓ} → Option A → List A
to_list none = []
to_list (some a) = a ∷ []

-- `impl From<SwapInstructions> for Vec<Instruction>`: the token ledger instruction is left out.
unfoldable pub instructions_from : {I : Type 0} → SwapInstructions I → List I
instructions_from s =
    s.compute_budget_instructions
    ++ (s.setup_instructions ++ (s.swap_instruction ∷ to_list s.cleanup_instruction))

-- Over the type of `AddressLookupTableAccount`.
pub record SwapInstructionsWithMetadata (I T : Type 0) : Type 0 where
  pub swap_instructions : SwapInstructions I
  pub address_lookup_table_accounts : List T
  pub prioritization_fee_lamports : ℕ
