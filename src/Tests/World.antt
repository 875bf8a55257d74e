-- ===== src/Tests/World.antt =====
-- A concrete pool, and concrete versions of the calls into other crates. Keys are small numbers;
-- the map holds the pool at 1, its config at 2, its vaults at 3 and 4 and its mints at 5 and 6.
use jupiter_amm_implementati.Base.{
  ◌≤◌, ◌≡◌, refl, true, is_ok, ℕ, ◌+◌, ◌-◌, ap, false, Option, none, some, [], ◌∷◌, ◌==◌,
  if◌then◌else◌, and_then, leb, u64_max,
}
use jupiter_amm_implementati.Chain.{
  Bytes, Pubkey, Decimals, ClockRef, pos, QuoteParams, exact_in, SwapParams,
}
use jupiter_amm_implementati.CpSwap.AmmConfig.{AmmConfig}
use jupiter_amm_implementati.CpSwap.Pool.{PoolState}
use jupiter_amm_implementati.CpSwap.Calculator.{FeeRates}
use jupiter_amm_implementati.Amms.External.{External, AccountMap, KeyedAccount, ReadsOneKey}
use jupiter_amm_implementati.Amms.SegaAmm.Quote.{fee_pct}
use jupiter_amm_implementati.Amms.SegaAmm.{SegaAmm, TokenMints, sega}

abbrev pub rates : FeeRates
rates = record { trade_fee_rate = 2_500; protocol_fee_rate = 120_000; fund_fee_rate = 40_000 }

abbrev pub config : AmmConfig
config = record {
  bump = 1;
  disable_create_pool = false;
  index = 0;
  trade_fee_rate = 2_500;
  protocol_fee_rate = 120_000;
  fund_fee_rate = 40_000;
  create_pool_fee = 0;
  protocol_owner = 11;
  fund_owner = 12;
  padding = [];
}

abbrev pub pool : PoolState
pool = record {
  amm_config = 2;
  pool_creator = 13;
  token_0_vault = 3;
  token_1_vault = 4;
  lp_mint = 14;
  token_0_mint = 5;
  token_1_mint = 6;
  token_0_program = 7;
  token_1_program = 7;
  observation_key = 8;
  auth_bump = 254;
  status = 0;
  lp_mint_decimals = 9;
  mint_0_decimals = 9;
  mint_1_decimals = 6;
  lp_supply = 1_000;
  protocol_fees_token_0 = 30;
  protocol_fees_token_1 = 40;
  fund_fees_token_0 = 10;
  fund_fees_token_1 = 20;
  open_time = 100;
  recent_epoch = 0;
  padding = [];
}

abbrev first_of : Bytes → Option ℕ
first_of [] = none
first_of (b ∷ bs) = some b

-- Numbers as decimals, with the quotient rounded down.
abbrev decimals : Decimals
decimals = record {
  D = ℕ;
  nought = 0;
  from_u64 = λ n. some n;
  from_int = λ n. some n;
  checked_add = λ a b. some (a + b);
  checked_div = λ a b. if b == 0 then none else some 0;
  div = λ a b. if b == 0 then none else some a;
}

-- An account is its owner and its bytes; a pool, a config and a mint are one byte.
abbrev pub ext : External
ext = record {
  Account = Pubkey × Bytes;
  owner = λ a. a.0;
  executable = λ a. false;
  account_data = λ a. a.1;
  try_get_account_data = λ m key. and_then (m key) (λ a. some a.1);
  Mint = ℕ;
  TransferFeeConfig = ℕ;
  unpack_mint = first_of;
  get_transfer_fee_config = λ m. if m == 0 then none else some m;
  calculate_epoch_fee = λ c epoch amount. some c;
  unpack_token_account = λ bytes.
      and_then (first_of bytes)
        (λ n. if leb n u64_max then some (record { is_frozen = false; amount = n }) else none);
  deserialize_pool_state = λ bytes. and_then (first_of bytes) (λ _. some pool);
  deserialize_amm_config = λ bytes. and_then (first_of bytes) (λ _. some config);
  create_program_address = λ seeds program. some 99;
  find_program_address = λ seeds program. 98;
  decimals = decimals;
}

pub reads : ReadsOneKey ext
reads m m' key same = ap (λ (o : Option (Pubkey × Bytes)). and_then o (λ a. some a.1)) same

abbrev pub keyed : KeyedAccount ext
keyed = record { key = 1; account = (sega, 1 ∷ []) }

abbrev pub accounts : AccountMap ext
accounts key =
    if key == 1
    then some (sega, 1 ∷ [])
    else if key == 2
    then some (sega, 1 ∷ [])
    else if key == 3
    then some (7, 1_000_040 ∷ [])
    else if key == 4
    then some (7, 2_000_060 ∷ [])
    else if key == 5
    then some (7, 0 ∷ [])
    else if key == 6
    then some (7, 0 ∷ [])
    else none

-- The same accounts, and one more that the pool does not know.
abbrev pub more_accounts : AccountMap ext
more_accounts key = if key == 77 then some (7, []) else accounts key

-- No account but the pool's own.
abbrev pub lone_account : AccountMap ext
lone_account key = if key == 1 then some (sega, 1 ∷ []) else none

abbrev pub set_up : SegaAmm ext
set_up = record {
  key = 1;
  pool_state = pool;
  amm_config = none;
  vault_0_amount = none;
  vault_1_amount = none;
  token_mints_and_token_programs = none;
  program_id = sega;
}

abbrev pub mints : TokenMints ext
mints = record {
  token0 = 5;
  token1 = 6;
  token0_mint = 0;
  token1_mint = 0;
  token0_program = 7;
  token1_program = 7;
}

-- The AMM after an update from `accounts`.
abbrev pub amm : SegaAmm ext
amm = record {
  key = 1;
  pool_state = pool;
  amm_config = some config;
  vault_0_amount = some 1_000_040;
  vault_1_amount = some 2_000_060;
  token_mints_and_token_programs = some mints;
  program_id = sega;
}

abbrev pub clock : ClockRef
clock = record { epoch = 500; unix_timestamp = pos 1_000 }

abbrev pub asked : Pubkey → ℕ → QuoteParams
asked mint amount = record {
  amount = amount;
  input_mint = mint;
  output_mint = 11 - mint;
  swap_mode = exact_in;
}

abbrev pub swap_of : Pubkey → Pubkey → Pubkey → Pubkey → SwapParams
swap_of source destination source_account destination_account = record {
  swap_mode = exact_in;
  in_amount = 10_000;
  out_amount = 0;
  source_mint = source;
  destination_mint = destination;
  source_token_account = source_account;
  destination_token_account = destination_account;
  token_transfer_authority = 70;
  quote_mint_to_referrer = none;
  jupiter_program_id = 71;
  missing_dynamic_accounts_as_default = false;
}

pub pct_ok : (n : ℕ) → n ≤ u64_max → is_ok (fee_pct ext n) ≡ true
unfolding fee_pct
pct_ok n h = refl
