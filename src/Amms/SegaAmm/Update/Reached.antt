-- ===== src/Amms/SegaAmm/Update/Reached.antt =====
-- The states that a `SegaAmm` reaches (jupiter-core/src/amms/sega_amm.rs): set up from an
-- account, and then updated any number of times, by updates that succeed or fail.
use jupiter_amm_implementati.Base.{◌≡◌, ◌≢◌, ◌⊎◌, none, ok, err, Profile, arith}
use jupiter_amm_implementati.Chain.{ClockRef, QuoteParams}
use jupiter_amm_implementati.Amms.Error.{missing_token_mints}
use jupiter_amm_implementati.Amms.External.{External, AccountMap, KeyedAccount}
use jupiter_amm_implementati.Amms.SegaAmm.{SegaAmm, from_keyed_account}
use jupiter_amm_implementati.Amms.SegaAmm.Update.{update}
use jupiter_amm_implementati.Amms.SegaAmm.Quote.{quote}
use jupiter_amm_implementati.Amms.SegaAmm.Quote.Guards.{quote-ne-missing_token_mints}

module _ (ext : External) (keyed_account : KeyedAccount ext) where
  pub data Reached : SegaAmm ext → Type 0 where
    created : (self : SegaAmm ext) → from_keyed_account ext keyed_account ≡ ok self → Reached self
    updated :
        (self new : SegaAmm ext) (account_map : AccountMap ext)
        → Reached self
        → (update ext account_map self).1 ≡ new
        → Reached new

  -- The parts of the state are filled in this order: mints, config, vault amounts; and the key and
  -- the program stay those of the account.
  pub record IsStaged (self : SegaAmm ext) : Type 0 where
    pub key : self.key ≡ keyed_account.key
    pub program_id : self.program_id ≡ ext.owner keyed_account.account
    pub config_after_mints : (self.amm_config ≡ none) ⊎ (self.token_mints_and_token_programs ≢ none)
    pub vault_0_after_config : (self.vault_0_amount ≡ none) ⊎ (self.amm_config ≢ none)
    pub vault_1_after_config : (self.vault_1_amount ≡ none) ⊎ (self.amm_config ≢ none)

  created-IsStaged :
      (self : SegaAmm ext) → from_keyed_account ext keyed_account ≡ ok self → IsStaged self
  unfolding from_keyed_account
  created-IsStaged self h = ground arith

  update-IsStaged :
      (self : SegaAmm ext) (account_map : AccountMap ext)
      → IsStaged self
      → IsStaged (update ext account_map self).1
  unfolding update
  update-IsStaged self account_map s = ground arith

  -- Every reached state is staged.
  pub Reached-IsStaged : {self : SegaAmm ext} → Reached self → IsStaged self
  Reached-IsStaged (created self h) = created-IsStaged self h
  Reached-IsStaged (updated self new account_map before h) =
      rw (← h) (update-IsStaged self account_map (Reached-IsStaged before))

  -- In a reached state a quote never fails for want of the mints.
  pub Reached-quote :
      (profile : Profile) (clock : ClockRef) {self : SegaAmm ext} (params : QuoteParams)
      → Reached self
      → quote ext profile clock self params ≢ err missing_token_mints
  Reached-quote profile clock {self} params reached =
      quote-ne-missing_token_mints ext profile clock self params
        (Reached-IsStaged reached).config_after_mints
