-- ===== src/Amms/SegaAmm/Update/Typed.antt =====
-- The machine types of the state of a `SegaAmm` (jupiter-core/src/amms/sega_amm.rs): numbers are
-- naturals in the model, and lie in the range of their type wherever the accounts' readers give such.
use jupiter_amm_implementati.Base.{
  ℕ, ◌≤◌, ◌<◌, ◌≡◌, inl, inr, some, ok, Outcome-cases, u64_max, and_then, and_then-eq-some, context,
  context-eq-ok, >>=_elim, arith,
}
use jupiter_amm_implementati.Chain.{Pubkey, Bytes, TokenAccount}
use jupiter_amm_implementati.CpSwap.AmmConfig.{AmmConfig}
use jupiter_amm_implementati.CpSwap.Pool.{PoolState}
use jupiter_amm_implementati.Amms.Error.{bad_account_data}
use jupiter_amm_implementati.Amms.External.{External, AccountMap, KeyedAccount}
use jupiter_amm_implementati.Amms.SegaAmm.{SegaAmm, from_keyed_account}
use jupiter_amm_implementati.Amms.SegaAmm.Update.{
  update, get_unfrozen_token_amount, unfrozen_amount,
}
use jupiter_amm_implementati.Amms.SegaAmm.Update.Effect.{
  IsFresh, update-IsFresh, update_failed, update-ne-panic,
}
use jupiter_amm_implementati.Amms.SegaAmm.Update.Reached.{Reached, created, updated}

-- The u8 and u64 fields that the AMM computes with.
pub record IsTypedPool (pool : PoolState) : Type 0 where
  pub auth_bump : pool.auth_bump < 256
  pub status : pool.status < 256
  pub protocol_fees_token_0 : pool.protocol_fees_token_0 ≤ u64_max
  pub protocol_fees_token_1 : pool.protocol_fees_token_1 ≤ u64_max
  pub fund_fees_token_0 : pool.fund_fees_token_0 ≤ u64_max
  pub fund_fees_token_1 : pool.fund_fees_token_1 ≤ u64_max
  pub open_time : pool.open_time ≤ u64_max

pub record IsTypedConfig (config : AmmConfig) : Type 0 where
  pub trade_fee_rate : config.trade_fee_rate ≤ u64_max
  pub protocol_fee_rate : config.protocol_fee_rate ≤ u64_max
  pub fund_fee_rate : config.fund_fee_rate ≤ u64_max

-- What the readers of accounts give lies in the range of its type.
pub record ReadsTyped (ext : External) : Type 0 where
  pub pool :
      (bytes : Bytes) (pool : PoolState)
      → ext.deserialize_pool_state bytes ≡ some pool
      → IsTypedPool pool
  pub config :
      (bytes : Bytes) (config : AmmConfig)
      → ext.deserialize_amm_config bytes ≡ some config
      → IsTypedConfig config
  pub token_account :
      (bytes : Bytes) (account : TokenAccount)
      → ext.unpack_token_account bytes ≡ some account
      → account.amount ≤ u64_max

module _ (ext : External) where
  pub record IsTyped (self : SegaAmm ext) : Type 0 where
    pub pool : IsTypedPool self.pool_state
    pub config : (config : AmmConfig) → self.amm_config ≡ some config → IsTypedConfig config
    pub vault_0 : (amount : ℕ) → self.vault_0_amount ≡ some amount → amount ≤ u64_max
    pub vault_1 : (amount : ℕ) → self.vault_1_amount ≡ some amount → amount ≤ u64_max

module _ (ext : External) (typed : ReadsTyped ext) where
  get_unfrozen_token_amount-le :
      (account_map : AccountMap ext) (key : Pubkey) (amount : ℕ)
      → get_unfrozen_token_amount ext account_map key ≡ some amount
      → amount ≤ u64_max
  unfolding get_unfrozen_token_amount
  get_unfrozen_token_amount-le account_map key amount h =
      let (account, read, unfrozen) =
        and_then-eq-some
          (and_then (ext.try_get_account_data account_map key) ext.unpack_token_account)
          (unfrozen_amount ext) h in
      let (bytes, _, unpacked) =
        and_then-eq-some (ext.try_get_account_data account_map key) ext.unpack_token_account read in
      let fits = typed.token_account bytes account unpacked in ground arith

  map_pool-IsTypedPool :
      (account_map : AccountMap ext) (key : Pubkey) (pool : PoolState)
      → and_then (ext.try_get_account_data account_map key) ext.deserialize_pool_state ≡ some pool
      → IsTypedPool pool
  map_pool-IsTypedPool account_map key pool h =
      let (bytes, _, read) =
        and_then-eq-some (ext.try_get_account_data account_map key) ext.deserialize_pool_state h in
      typed.pool bytes pool read

  map_config-IsTypedConfig :
      (account_map : AccountMap ext) (key : Pubkey) (config : AmmConfig)
      → and_then (ext.try_get_account_data account_map key) ext.deserialize_amm_config ≡ some config
      → IsTypedConfig config
  map_config-IsTypedConfig account_map key config h =
      let (bytes, _, read) =
        and_then-eq-some (ext.try_get_account_data account_map key) ext.deserialize_amm_config h in
      typed.config bytes config read

  IsFresh-IsTyped :
      (account_map : AccountMap ext) (self new : SegaAmm ext)
      → IsFresh ext account_map self new
      → IsTyped ext new
  IsFresh-IsTyped account_map self new fresh = record {
    pool = map_pool-IsTypedPool account_map self.key new.pool_state fresh.pool;
    config = λ config e.
        map_config-IsTypedConfig account_map new.pool_state.amm_config config
          (rw e at fresh.config);
    vault_0 = λ amount e.
        get_unfrozen_token_amount-le account_map new.pool_state.token_0_vault amount
          (cc (e, fresh.vault_0));
    vault_1 = λ amount e.
        get_unfrozen_token_amount-le account_map new.pool_state.token_1_vault amount
          (cc (e, fresh.vault_1));
  }

  update-IsTyped :
      (account_map : AccountMap ext) (self : SegaAmm ext)
      → IsTyped ext self
      → IsTyped ext (update ext account_map self).1
  update-IsTyped account_map self t = elim (Outcome-cases (update ext account_map self).0) [
    | inl (done, e) ↦
        IsFresh-IsTyped account_map self _ (update-IsFresh ext account_map self (cc e))
    | inr (inl (problem, e)) ↦
        let (config, vault_0, vault_1, pools) = update_failed ext account_map self problem e in
        record {
          pool = elim pools [
            | inl (same, _) ↦ rw same t.pool
            | inr found ↦ map_pool-IsTypedPool account_map self.key _ found
          ];
          config = λ c e. t.config c (cc (e, config));
          vault_0 = λ amount e. t.vault_0 amount (cc (e, vault_0));
          vault_1 = λ amount e. t.vault_1 amount (cc (e, vault_1));
        }
    | inr (inr e) ↦ absurd (update-ne-panic ext account_map self e)
  ]

  from_keyed_account-IsTyped :
      (keyed_account : KeyedAccount ext) (self : SegaAmm ext)
      → from_keyed_account ext keyed_account ≡ ok self
      → IsTyped ext self
  unfolding from_keyed_account
  from_keyed_account-IsTyped keyed_account self h =
      >>=_elim
        (context (ext.deserialize_pool_state (ext.account_data keyed_account.account))
          bad_account_data)
        _ h
        λ pool e h_0.
          let typed_pool = typed.pool _ pool (context-eq-ok _ _ e) in
          record {
            pool = ground arith;
            config = λ c e. absurd (ground arith);
            vault_0 = λ amount e. absurd (ground arith);
            vault_1 = λ amount e. absurd (ground arith);
          }

  -- Where the readers of accounts give pool states, configs and token accounts in the range of their
  -- types, so are those of every reached state: its pool state's status, bump, fees and opening time,
  -- the rates of its config, and the amounts of its vaults.
  pub Reached-IsTyped :
      (keyed_account : KeyedAccount ext) {self : SegaAmm ext}
      → Reached ext keyed_account self
      → IsTyped ext self
  Reached-IsTyped keyed_account (created self h) = from_keyed_account-IsTyped keyed_account self h
  Reached-IsTyped keyed_account (updated self new account_map before h) =
      rw (← h) (update-IsTyped account_map self (Reached-IsTyped keyed_account before))
