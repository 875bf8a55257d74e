-- ===== src/Amms/SplTokenSwapAmm.antt =====
-- jupiter-core/src/amms/spl_token_swap_amm.rs: the AMM of the SPL token swap programs, its state
-- and its set-up.
pub mod Curve
pub mod Quote
pub mod Metas
use Prim.Native.String.{String}
use jupiter_amm_implementati.Base.{
  ℕ, Bool, Option, none, some, List, [], ◌∷◌, Outcome, ok, err, panic, context, unwrap, ◌>>=◌, ◌==◌,
  if◌then◌else◌,
}
use jupiter_amm_implementati.Base.Method
use jupiter_amm_implementati.Base.Method.{Method, lift, gets, modify}
use jupiter_amm_implementati.Chain.{Pubkey, Bytes, TokenAccount}
use jupiter_amm_implementati.Amms.Error.{Error, account_not_found, bad_account_data}
use jupiter_amm_implementati.Amms.External.{External, AccountMap, KeyedAccount}
use jupiter_amm_implementati.Amms.SplTokenSwapAmm.Curve.{TokenSwapFees, SwapV1, TokenSwapLib}

-- spl_token_swap_programs
abbrev orca_v1 : Pubkey
orca_v1 = 0xbd2e8d50_bc09278e_5e14bf65_629a4896_f5819eca_c40f50c8_4b757847_ba9464dc

abbrev pub orca_v2 : Pubkey
orca_v2 = 0x7e54771a_57a6f14c_a9e402d5_4aee45f7_378aca36_5c7b169a_7ec83f51_82b298f0

abbrev stepn : Pubkey
stepn = 0xbe49a1ee_b81bf889_c158fd8b_7496ff91_41d4aa43_3eae3948_d0d8488f_78951b78

abbrev saros : Pubkey
saros = 0x684da16_a689c2c3_896a8411_715be943_2eec1ca7_1a1ce208_7286c676_77cf65bd

abbrev penguin : Pubkey
penguin = 0x5c01c06_e46f4190_c7755e2c_25ed0cd6_b204441e_1d128b79_df611829_2787613c

-- A key's value in a map that is filled once, from distinct keys.
abbrev pub get {ℓ} : {A : Type ℓ} → Pubkey → List (Pubkey × A) → Option A
get key [] = none
get key ((k, v) ∷ rest) = if key == k then some v else get key rest

-- SPL_TOKEN_SWAP_PROGRAMS
unfoldable pub spl_token_swap_programs : List (Pubkey × String)
spl_token_swap_programs =
    (orca_v1, "Orca v1")
    ∷ (orca_v2, "Orca v2")
    ∷ (stepn, "StepN")
    ∷ (saros, "Saros")
    ∷ (penguin, "Penguin")
    ∷ []

-- `&data[1..]`, which panics on no data: the version byte is skipped.
abbrev skip_version {ε} : {E : Type ε} → Bytes → Outcome E Bytes
skip_version [] = panic
skip_version (_ ∷ rest) = ok rest

module _ (ext : External) (lib : TokenSwapLib) where
  open ext use {owner, account_data, try_get_account_data, find_program_address}
  open lib use {unpack_swap, unpack_token_account, key_bytes}

  -- `reserve_mints` and `reserves` are arrays of two.
  pub record SplTokenSwapAmm : Type 0 where
    pub key : Pubkey
    pub label : String
    pub state : SwapV1 lib
    pub reserve_mints : Pubkey × Pubkey
    pub reserves : ℕ × ℕ
    pub program_id : Pubkey

  unfoldable pub from_keyed_account : KeyedAccount ext → Outcome Error SplTokenSwapAmm
  from_keyed_account keyed_account = do
    bytes ← skip_version (account_data keyed_account.account)
    state ← context (unpack_swap bytes) bad_account_data
    label ← unwrap (get (owner keyed_account.account) spl_token_swap_programs)
    ok (record {
      key = keyed_account.key;
      label = label;
      state = state;
      reserve_mints = (state.token_a_mint, state.token_b_mint);
      reserves = (0, 0);
      program_id = owner keyed_account.account;
    })

  unfoldable pub get_authority : SplTokenSwapAmm → Pubkey
  get_authority self = find_program_address (key_bytes self.key ∷ []) self.program_id

  -- `impl Clone for SplTokenSwapAmm`
  unfoldable pub clone : SplTokenSwapAmm → SplTokenSwapAmm
  clone self = record {
    key = self.key;
    label = self.label;
    state = record {
      is_initialized = self.state.is_initialized;
      bump_seed = self.state.bump_seed;
      token_program_id = self.state.token_program_id;
      token_a = self.state.token_a;
      token_b = self.state.token_b;
      pool_mint = self.state.pool_mint;
      token_a_mint = self.state.token_a_mint;
      token_b_mint = self.state.token_b_mint;
      pool_fee_account = self.state.pool_fee_account;
      fees = lib.clone_fees self.state.fees;
      swap_curve = record {
        curve_type = self.state.swap_curve.curve_type;
        calculator = lib.clone_calculator self.state.swap_curve.calculator;
      };
    };
    reserve_mints = self.reserve_mints;
    program_id = self.program_id;
    reserves = self.reserves;
  }

  unfoldable pub get_reserve_mints : SplTokenSwapAmm → List Pubkey
  get_reserve_mints self = self.reserve_mints.0 ∷ self.reserve_mints.1 ∷ []

  unfoldable pub get_accounts_to_update : SplTokenSwapAmm → List Pubkey
  get_accounts_to_update self = self.state.token_a ∷ self.state.token_b ∷ []

  -- `try_get_account_data(account_map, key)?` and `TokenAccount::unpack` after it.
  unfoldable pub get_amount : AccountMap ext → Pubkey → Outcome Error ℕ
  get_amount account_map key = do
    bytes ← context (try_get_account_data account_map key) account_not_found
    token_account ← context (unpack_token_account bytes) bad_account_data
    ok token_account.amount

  -- Both accounts are read before the reserves are written, so a failed update writes nothing.
  unfoldable pub update : AccountMap ext → Method Error SplTokenSwapAmm (Unit {0})
  unfolding get_amount
  update account_map self =
      let read = get_amount account_map self.state.token_a >>= λ amount_a.
      get_amount account_map self.state.token_b >>= λ amount_b. ok (amount_a, amount_b) in
      elim read [
        | ok reserves ↦ (ok tt, record self { reserves = reserves })
        | err e ↦ (err e, self)
        | panic ↦ (panic, self)
      ]
