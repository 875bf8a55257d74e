-- ===== src/Amms/Host.antt =====
-- The calls of a host in order: `amm_factory` (jupiter-core/src/amms/loader.rs) makes an AMM of an
-- account, `update` and `quote` (jupiter-core/src/amms/sega_amm.rs) follow. Lemmas on the whole.
pub mod Panics
use jupiter_amm_implementati.Base.{
  not, ◌==◌, ℕ, ◌+◌, ◌-◌, ◌≤◌, ◌<◌, ◌≡◌, true, false, some, ok, is_ok, Profile, debug, release,
  u64_max, ap, ◌∙◌, arith,
}
use jupiter_amm_implementati.Chain
use jupiter_amm_implementati.Chain.{ClockRef, QuoteParams}
use jupiter_amm_implementati.CpSwap.Fees.{fee_rate_denominator_value}
use jupiter_amm_implementati.CpSwap.AmmConfig.{AmmConfig}
use jupiter_amm_implementati.CpSwap.Pool.{PoolState}
use jupiter_amm_implementati.Amms.External.{External, AccountMap, KeyedAccount}
use jupiter_amm_implementati.Amms.SegaAmm.{SegaAmm, TokenMints}
use jupiter_amm_implementati.Amms.SegaAmm.Update.{update, get_unfrozen_token_amount}
use jupiter_amm_implementati.Amms.SegaAmm.Update.Effect.{update-IsFresh}
use jupiter_amm_implementati.Amms.SegaAmm.Update.Reached.{Reached, updated}
use jupiter_amm_implementati.Amms.SegaAmm.Update.Typed.{ReadsTyped, Reached-IsTyped}
use jupiter_amm_implementati.Amms.SegaAmm.Quote.{
  vault_amount_without_fee, is_closed, fee_pct, reserves, quote,
}
use jupiter_amm_implementati.Amms.SegaAmm.Quote.TransferFee.{
  is_open_iff, IsTransferFee, source_mint,
}
use jupiter_amm_implementati.Amms.SegaAmm.Quote.Charged.{HasFees, quote_charged_total}
use jupiter_amm_implementati.Amms.SegaAmm.Quote.Direction.{HasNoTransferFee}

-- The pool can pay the fees that it owes out of its vaults, and has token 0 left.
pub record IsSolvent (pool : PoolState) (vault_0 vault_1 : ℕ) : Type 0 where
  pub owed_0 : pool.protocol_fees_token_0 + pool.fund_fees_token_0 < vault_0
  pub owed_1 : pool.protocol_fees_token_1 + pool.fund_fees_token_1 ≤ vault_1

module _ (ext : External) where
  pub reserves_of_vaults :
      (profile : Profile) (self : SegaAmm ext) (vault_0 vault_1 : ℕ)
      → self.vault_0_amount ≡ some vault_0
      → self.vault_1_amount ≡ some vault_1
      → IsSolvent self.pool_state vault_0 vault_1
      → vault_0 ≤ u64_max
      → vault_1 ≤ u64_max
      → reserves ext profile self
        ≡ ok (
          vault_0 - (self.pool_state.protocol_fees_token_0 + self.pool_state.fund_fees_token_0),
          vault_1 - (self.pool_state.protocol_fees_token_1 + self.pool_state.fund_fees_token_1),
        )
  unfolding reserves vault_amount_without_fee
  reserves_of_vaults debug self vault_0 vault_1 e_0 e_1 s h_0 h_1 = ground arith
  reserves_of_vaults release self vault_0 vault_1 e_0 e_1 s h_0 h_1 = ground arith

  -- Where accounts are read in the range of their types, a reached AMM that an update from a map went
  -- through on, whose vaults are not frozen in the map and cover the fees that the pool owes with some
  -- of token 0 left, quotes every amount of 64 bits that the source mint's transfer fee does not take
  -- whole: for a pool state that is open, a config whose trade fee rate is up to the denominator, and
  -- amounts of 64 bits of which the destination mint's transfer fee and the quotient of decimals are
  -- defined.
  pub update-quote_total :
      (keyed_account : KeyedAccount ext) (profile : Profile) (clock : ClockRef)
      (account_map : AccountMap ext) (self : SegaAmm ext) (new : SegaAmm ext) (config : AmmConfig)
      (mints : TokenMints ext) (vault_0 vault_1 fee_in : ℕ) (params : QuoteParams)
      → ReadsTyped ext
      → ((n : ℕ) → n ≤ u64_max → is_ok (fee_pct ext n) ≡ true)
      → Reached ext keyed_account self
      → update ext account_map self ≡ (ok tt, new)
      → get_unfrozen_token_amount ext account_map new.pool_state.token_0_vault ≡ some vault_0
      → get_unfrozen_token_amount ext account_map new.pool_state.token_1_vault ≡ some vault_1
      → IsSolvent new.pool_state vault_0 vault_1
      → is_closed new.pool_state clock ≡ false
      → new.amm_config ≡ some config
      → config.trade_fee_rate ≤ fee_rate_denominator_value
      → new.token_mints_and_token_programs ≡ some mints
      → HasFees ext
          (ext.get_transfer_fee_config
            (source_mint ext (not (params.input_mint == new.pool_state.token_0_mint)) mints))
          clock.epoch
      → IsTransferFee ext
          (ext.get_transfer_fee_config
            (source_mint ext (params.input_mint == new.pool_state.token_0_mint) mints))
          clock.epoch
          params.amount
          fee_in
      → fee_in < params.amount
      → params.amount ≤ u64_max
      → (q : Chain.Quote ext.decimals.D) × (quote ext profile clock new params ≡ ok q)
  update-quote_total keyed_account profile clock account_map self new config mints vault_0 vault_1
        fee_in params typed pct reached done v_0 v_1 solvent open_ hc ht hm fees charged below
        small =
      let same : (update ext account_map self).1 ≡ new = ap (λ r. r.1) done in
      let fresh = rw same at (update-IsFresh ext account_map self (ap (λ r. r.0) done)) in
      let amount_0 : new.vault_0_amount ≡ some vault_0 = fresh.vault_0 ∙ v_0 in
      let amount_1 : new.vault_1_amount ≡ some vault_1 = fresh.vault_1 ∙ v_1 in
      let t = Reached-IsTyped ext typed keyed_account (updated self new account_map reached same) in
      let fits = t.config config hc in
      let fits_0 = t.vault_0 vault_0 amount_0 in
      let fits_1 = t.vault_1 vault_1 amount_1 in
      let owed_0 = solvent.owed_0 in
      let (on, past) = (is_open_iff new.pool_state clock t.pool.status).0 open_ in
      quote_charged_total ext profile clock new config mints _ _ fee_in params pct fees hc hm
        t.pool.status on past
        (reserves_of_vaults profile new vault_0 vault_1 amount_0 amount_1 solvent fits_0 fits_1)
        (omega arith) (omega arith) (omega arith) ht fits.protocol_fee_rate fits.fund_fee_rate small
        charged below
