-- ===== src/Amms/SegaAmm/Update/Effect.antt =====
-- Lemmas on what `SegaAmm::update` reads and writes (jupiter-core/src/amms/sega_amm.rs).
use jupiter_amm_implementati.Base.{◌≡◌, ◌⊎◌, none, some, ◌≢◌, ok, err, panic, and_then, arith}
use jupiter_amm_implementati.Chain.{Pubkey}
use jupiter_amm_implementati.CpSwap.Pool.{PoolState}
use jupiter_amm_implementati.Amms.Error.{Error}
use jupiter_amm_implementati.Amms.External.{External, AccountMap, ReadsOneKey}
use jupiter_amm_implementati.Amms.SegaAmm.{SegaAmm}
use jupiter_amm_implementati.Amms.SegaAmm.Update.{get_mint, get_unfrozen_token_amount, update}

module _ (ext : External) (account_map : AccountMap ext) (self : SegaAmm ext) where
  open ext use {try_get_account_data, deserialize_pool_state, deserialize_amm_config}

  -- Every part of the state is what the map holds, at the keys of the pool state that it holds.
  pub record IsFresh (new : SegaAmm ext) : Type 0 where
    pub pool :
        and_then (try_get_account_data account_map self.key) deserialize_pool_state
        ≡ some new.pool_state
    pub configured : new.amm_config ≢ none
    pub config :
        and_then (try_get_account_data account_map new.pool_state.amm_config) deserialize_amm_config
        ≡ new.amm_config
    pub mint_0 :
        get_mint ext account_map new.pool_state.token_0_mint
        ≡ and_then new.token_mints_and_token_programs (λ t. some t.token0_mint)
    pub mint_1 :
        get_mint ext account_map new.pool_state.token_1_mint
        ≡ and_then new.token_mints_and_token_programs (λ t. some t.token1_mint)
    pub minted : new.token_mints_and_token_programs ≢ none
    pub vault_0 :
        new.vault_0_amount ≡ get_unfrozen_token_amount ext account_map new.pool_state.token_0_vault
    pub vault_1 :
        new.vault_1_amount ≡ get_unfrozen_token_amount ext account_map new.pool_state.token_1_vault

  -- A successful update leaves every part of the state as the map has it.
  pub update-IsFresh :
      (update ext account_map self).0 ≡ ok tt → IsFresh (update ext account_map self).1
  unfolding update
  update-IsFresh h = ground arith

  -- A failed update leaves the config and the vault amounts as they were; either the pool state and
  -- the mints are as before too, or the pool state is the map's.
  pub update_failed :
      (e : Error)
      → (update ext account_map self).0 ≡ err e
      → ((update ext account_map self).1.amm_config ≡ self.amm_config)
        × ((update ext account_map self).1.vault_0_amount ≡ self.vault_0_amount)
        × ((update ext account_map self).1.vault_1_amount ≡ self.vault_1_amount)
        × (((update ext account_map self).1.pool_state ≡ self.pool_state)
              × ((update ext account_map self).1.token_mints_and_token_programs
                  ≡ self.token_mints_and_token_programs)
            ⊎ (and_then (try_get_account_data account_map self.key) deserialize_pool_state
                ≡ some (update ext account_map self).1.pool_state))
  unfolding update
  update_failed e h = ground arith

  pub update-ne-panic : (update ext account_map self).0 ≢ panic
  unfolding update
  update-ne-panic h = ground arith

-- The keys of the map that an update reads, for the pool state that it finds there.
pub record Agree (ext : External) (account_map account_map' : AccountMap ext) (key : Pubkey)
    (pool : PoolState) : Type 0 where
  pub own : account_map key ≡ account_map' key
  pub mint_0 : account_map pool.token_0_mint ≡ account_map' pool.token_0_mint
  pub mint_1 : account_map pool.token_1_mint ≡ account_map' pool.token_1_mint
  pub config : account_map pool.amm_config ≡ account_map' pool.amm_config
  pub vault_0 : account_map pool.token_0_vault ≡ account_map' pool.token_0_vault
  pub vault_1 : account_map pool.token_1_vault ≡ account_map' pool.token_1_vault

module _ (ext : External) (reads : ReadsOneKey ext)
    (account_map account_map' : AccountMap ext) where
  get_mint_congr :
      (key : Pubkey)
      → account_map key ≡ account_map' key
      → get_mint ext account_map key ≡ get_mint ext account_map' key
  unfolding get_mint
  get_mint_congr key same = rw (reads account_map account_map' key same)

  get_unfrozen_token_amount_congr :
      (key : Pubkey)
      → account_map key ≡ account_map' key
      → get_unfrozen_token_amount ext account_map key
        ≡ get_unfrozen_token_amount ext account_map' key
  unfolding get_unfrozen_token_amount
  get_unfrozen_token_amount_congr key same = rw (reads account_map account_map' key same)

  -- Where `try_get_account_data` reads one key, and the map has a pool state at the own key, an update
  -- is the same from any map that agrees at the own key and at the five keys of that pool state.
  pub update_congr :
      (self : SegaAmm ext) (pool : PoolState)
      → and_then (ext.try_get_account_data account_map self.key) ext.deserialize_pool_state
        ≡ some pool
      → Agree ext account_map account_map' self.key pool
      → update ext account_map self ≡ update ext account_map' self
  unfolding update
  update_congr self pool found agree =
      let own = reads account_map account_map' self.key agree.own in
      let mint_0 = get_mint_congr pool.token_0_mint agree.mint_0 in
      let mint_1 = get_mint_congr pool.token_1_mint agree.mint_1 in
      let config = reads account_map account_map' pool.amm_config agree.config in
      let vault_0 = get_unfrozen_token_amount_congr pool.token_0_vault agree.vault_0 in
      let vault_1 = get_unfrozen_token_amount_congr pool.token_1_vault agree.vault_1 in ground arith
