-- ===== src/Chain.antt =====
-- What the program takes from other crates: the data of solana_sdk and jupiter_amm_interface that
-- it builds and reads, and the calls that it makes, which are parameters.
use Prim.Native.Char.{code}
use Prim.Native.String.{String}
use jupiter_amm_implementati.Base.{ℕ, suc, ◌-◌, ◌^◌, Bool, true, false, List, [], ◌∷◌, Option}

-- A key of 32 bytes, read as a number: keys are only compared and passed on.
abbrev pub Pubkey : Type 0
Pubkey = ℕ

-- A `Vec<u8>` or `&[u8]`.
abbrev pub Bytes : Type 0
Bytes = List ℕ

-- `negsuc n` is -(n + 1).
pub data ℤ : Type 0 where
  pos : ℕ → ℤ
  negsuc : ℕ → ℤ

-- `x as u64` for an i64.
abbrev pub as_u64 : ℤ → ℕ
as_u64 (pos n) = n
as_u64 (negsuc n) = 2 ^ 64 - suc n

pub record AccountMeta : Type 0 where
  pub pubkey : Pubkey
  pub is_signer : Bool
  pub is_writable : Bool

-- `AccountMeta::new(pubkey, is_signer)`
abbrev pub writable : Pubkey → Bool → AccountMeta
writable pubkey is_signer = record { pubkey = pubkey; is_signer = is_signer; is_writable = true }

-- `AccountMeta::new_readonly(pubkey, is_signer)`
abbrev pub readonly : Pubkey → Bool → AccountMeta
readonly pubkey is_signer = record { pubkey = pubkey; is_signer = is_signer; is_writable = false }

pub data SwapMode : Type 0 where
  exact_in exact_out : SwapMode

-- The variants of jupiter_amm_interface's `Swap` that the program builds.
pub data Swap : Type 0 where
  raydium_cp token_swap : Swap

pub record QuoteParams : Type 0 where
  pub amount : ℕ
  pub input_mint : Pubkey
  pub output_mint : Pubkey
  pub swap_mode : SwapMode

-- The fields of a `Quote` that the program sets, over the type of decimals.
pub record Quote (D : Type 0) : Type 0 where
  pub in_amount : ℕ
  pub out_amount : ℕ
  pub fee_amount : ℕ
  pub fee_mint : Pubkey
  pub fee_pct : D

pub record SwapParams : Type 0 where
  pub swap_mode : SwapMode
  pub in_amount : ℕ
  pub out_amount : ℕ
  pub source_mint : Pubkey
  pub destination_mint : Pubkey
  pub source_token_account : Pubkey
  pub destination_token_account : Pubkey
  pub token_transfer_authority : Pubkey
  pub quote_mint_to_referrer : Option Pubkey
  pub jupiter_program_id : Pubkey
  pub missing_dynamic_accounts_as_default : Bool

pub record SwapAndAccountMetas : Type 0 where
  pub swap : Swap
  pub account_metas : List AccountMeta

-- The clock that the host shares with an AMM, as its two atomics read at the time of a call.
pub record ClockRef : Type 0 where
  pub epoch : ℕ
  pub unix_timestamp : ℤ

-- `spl_token_2022::state::Account`, as far as it is read.
pub record TokenAccount : Type 0 where
  pub is_frozen : Bool
  pub amount : ℕ

-- rust_decimal. A `none` of `from_int` or `div` is a panic of `Decimal::from` or of `/`.
pub record Decimals : Type 1 where
  pub D : Type 0
  pub nought : D
  pub from_u64 : ℕ → Option D
  pub from_int : ℕ → Option D
  pub checked_add : D → D → Option D
  pub checked_div : D → D → Option D
  pub div : D → D → Option D

-- The bytes of an ASCII text.
abbrev pub as_bytes : String → List ℕ
as_bytes String.[] = []
as_bytes (String.◌∷◌ c s) = code c ∷ as_bytes s
