-- ===== src/Amms/SegaAmm/Update/Precise.antt =====
-- `update_amm_precise` (jupiter-core/src/amms/test_harness.rs): an update from no more than the
-- accounts that the AMM asks for; and lemmas on it for the Sega AMM.
use jupiter_amm_implementati.Base.{
  ◌≡◌, Bool, true, false, ◌||◌, none, some, List, [], ◌∷◌, and_then, ◌==◌, if◌then◌else◌, arith,
  sym,
}
use jupiter_amm_implementati.Base.Method.{Method}
use jupiter_amm_implementati.Chain.{Pubkey}
use jupiter_amm_implementati.CpSwap.Pool.{PoolState}
use jupiter_amm_implementati.Amms.External.{External, AccountMap, ReadsOneKey}
use jupiter_amm_implementati.Amms.SegaAmm.{SegaAmm, get_accounts_to_update}
use jupiter_amm_implementati.Amms.SegaAmm.Update.{update}
use jupiter_amm_implementati.Amms.SegaAmm.Update.Effect.{Agree, update_congr}

abbrev pub contains : Pubkey → List Pubkey → Bool
contains key [] = false
contains key (k ∷ keys) = key == k || contains key keys

-- The map of the accounts at the given addresses.
abbrev pub requested : (ext : External) → AccountMap ext → List Pubkey → AccountMap ext
requested ext account_map addresses key = if contains key addresses then account_map key else none

-- An AMM is given by its two methods.
unfoldable pub update_amm_precise :
    {E S : Type 0} (ext : External)
    → (S → List Pubkey)
    → (AccountMap ext → Method E S (Unit {0}))
    → AccountMap ext
    → Method E S (Unit {0})
update_amm_precise ext accounts_to_update update_amm account_map amm =
    update_amm (requested ext account_map (accounts_to_update amm)) amm

-- The two pool states name the same accounts.
pub record HasSameAccounts (pool pool' : PoolState) : Type 0 where
  pub mint_0 : pool.token_0_mint ≡ pool'.token_0_mint
  pub mint_1 : pool.token_1_mint ≡ pool'.token_1_mint
  pub config : pool.amm_config ≡ pool'.amm_config
  pub vault_0 : pool.token_0_vault ≡ pool'.token_0_vault
  pub vault_1 : pool.token_1_vault ≡ pool'.token_1_vault

module _ (ext : External) (reads : ReadsOneKey ext) (account_map : AccountMap ext) where
  requested_there :
      (addresses : List Pubkey) (key : Pubkey)
      → contains key addresses ≡ true
      → account_map key ≡ requested ext account_map addresses key
  requested_there addresses key there = rw there

  -- Where `try_get_account_data` reads one key, and the map's pool state names the accounts that the
  -- AMM's pool state names, an update from the requested accounts does what one from all does.
  pub update_amm_precise-update :
      (self : SegaAmm ext) (pool : PoolState)
      → and_then (ext.try_get_account_data account_map self.key) ext.deserialize_pool_state
        ≡ some pool
      → HasSameAccounts pool self.pool_state
      → update_amm_precise ext (get_accounts_to_update ext) (update ext) account_map self
        ≡ update ext account_map self
  unfolding update_amm_precise get_accounts_to_update
  update_amm_precise-update self pool found same =
      let there = requested_there (get_accounts_to_update ext self) in
      let agree : Agree ext account_map
          (requested ext account_map (get_accounts_to_update ext self)) self.key pool =
        record {
          own = there self.key (ground arith);
          mint_0 = there pool.token_0_mint (ground arith);
          mint_1 = there pool.token_1_mint (ground arith);
          config = there pool.amm_config (ground arith);
          vault_0 = there pool.token_0_vault (ground arith);
          vault_1 = there pool.token_1_vault (ground arith);
        } in
      sym (update_congr ext reads account_map _ self pool found agree)
