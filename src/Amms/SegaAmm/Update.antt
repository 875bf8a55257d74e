-- ===== src/Amms/SegaAmm/Update.antt =====
-- `SegaAmm::update` (jupiter-core/src/amms/sega_amm.rs): the pool's accounts are read anew. The
-- writes before an error stay, so the method returns its state on every path.
pub mod Effect
pub mod Reached
pub mod Precise
pub mod Typed
use jupiter_amm_implementati.Base.{Option, none, some, ℕ, Outcome, context, and_then, if◌then◌else◌}
use jupiter_amm_implementati.Base.Method.{Method, ◌>>=◌, ◌>>◌, lift, gets, modify}
use jupiter_amm_implementati.Chain.{Pubkey, TokenAccount}
use jupiter_amm_implementati.Amms.Error.{
  Error, account_not_found, bad_account_data, token_0_mint_not_found, token_1_mint_not_found,
}
use jupiter_amm_implementati.Amms.External.{External, AccountMap}
use jupiter_amm_implementati.Amms.SegaAmm.{SegaAmm, TokenMints}

module _ (ext : External) where
  open ext use {
    Mint, try_get_account_data, unpack_mint, unpack_token_account, deserialize_pool_state,
    deserialize_amm_config,
  }

  -- The mint at a key; a missing account and one that is no mint look the same.
  unfoldable pub get_mint : AccountMap ext → Pubkey → Option Mint
  get_mint account_map key = and_then (try_get_account_data account_map key) unpack_mint

  abbrev unfrozen_amount : TokenAccount → Option ℕ
  unfrozen_amount token_account =
      if token_account.is_frozen then none else some token_account.amount

  -- The closure `get_unfrozen_token_amount`.
  unfoldable pub get_unfrozen_token_amount : AccountMap ext → Pubkey → Option ℕ
  get_unfrozen_token_amount account_map token_vault =
      and_then (and_then (try_get_account_data account_map token_vault) unpack_token_account)
        unfrozen_amount

  unfoldable pub update : AccountMap ext → Method Error (SegaAmm ext) (Unit {0})
  update account_map = do
    key ← gets (λ self. self.key)
    pool_state_data ← lift (context (try_get_account_data account_map key) account_not_found)
    pool_state ← lift (context (deserialize_pool_state pool_state_data) bad_account_data)
    modify (λ self. record self { pool_state = pool_state })
    token0_mint ←
        lift (context (get_mint account_map pool_state.token_0_mint) token_0_mint_not_found)
    token1_mint ←
        lift (context (get_mint account_map pool_state.token_1_mint) token_1_mint_not_found)
    modify (λ self. record self {
      token_mints_and_token_programs = some (record {
        token0 = pool_state.token_0_mint;
        token1 = pool_state.token_1_mint;
        token0_mint = token0_mint;
        token1_mint = token1_mint;
        token0_program = pool_state.token_0_program;
        token1_program = pool_state.token_1_program;
      });
    })
    amm_config_data ←
        lift (context (try_get_account_data account_map pool_state.amm_config) account_not_found)
    amm_config ← lift (context (deserialize_amm_config amm_config_data) bad_account_data)
    modify (λ self. record self { amm_config = some amm_config })
    modify (λ self. record self {
      vault_0_amount = get_unfrozen_token_amount account_map pool_state.token_0_vault;
    })
    modify (λ self. record self {
      vault_1_amount = get_unfrozen_token_amount account_map pool_state.token_1_vault;
    })
