-- ===== src/Amms/Host/Panics.antt =====
-- That a quote of the Sega AMM (jupiter-core/src/amms/sega_amm.rs) does not panic.
use jupiter_amm_implementati.Base.{
  no_panic, ℕ, ◌-◌, ◌≤◌, ◌<◌, ◌≡◌, ◌≢◌, true, ap, Option, some, ok, panic, >>=_elim, Bool, false,
  ◌+◌, is_ok, >>=-ne-panic, context-ne-panic, context_partial-ne-panic, context_partial, context,
  context-eq-ok, try_into_u64, ◌==◌, Profile, u64_max, arith,
}
use jupiter_amm_implementati.Chain.{ClockRef, QuoteParams}
use jupiter_amm_implementati.CpSwap.Calculator.{SwapResult, swap_base_input}
use jupiter_amm_implementati.CpSwap.Calculator.NoPanic.{swap_base_input-ne-panic}
use jupiter_amm_implementati.CpSwap.AmmConfig.{AmmConfig}
use jupiter_amm_implementati.Amms.Error.{
  Error, missing_amm_config, missing_token_mints, int_out_of_range, swap_failed,
  pool_is_not_trading, vault_0_missing_or_frozen, vault_1_missing_or_frozen,
}
use jupiter_amm_implementati.Amms.External.{External, KeyedAccount}
use jupiter_amm_implementati.Amms.SegaAmm.{SegaAmm, TokenMints}
use jupiter_amm_implementati.Amms.SegaAmm.Update.Reached.{Reached}
use jupiter_amm_implementati.Amms.SegaAmm.Update.Typed.{ReadsTyped, IsTyped, Reached-IsTyped}
use jupiter_amm_implementati.Amms.SegaAmm.Quote.{
  reject_if, is_closed, rates_of, after_transfer_fee, mint_transfer_fee_configs, fee_pct, reserves,
  finish, quote_swap, quote,
}
use jupiter_amm_implementati.Amms.Host.{IsSolvent, reserves_of_vaults}

module _ (ext : External) where
  after_transfer_fee-ne-panic :
      (config : Option ext.TransferFeeConfig) (epoch amount : ℕ)
      → after_transfer_fee ext config epoch amount ≢ panic
  unfolding after_transfer_fee
  after_transfer_fee-ne-panic config epoch amount h = ground arith

  after_transfer_fee-le :
      (config : Option ext.TransferFeeConfig) (epoch amount : ℕ) {rest : ℕ}
      → after_transfer_fee ext config epoch amount ≡ ok rest
      → rest ≤ amount
  unfolding after_transfer_fee
  after_transfer_fee-le config epoch amount h = ground arith

  reject_if-ne-panic : (test : Bool) (e : Error) → reject_if test e ≢ panic
  reject_if-ne-panic true e h = cc
  reject_if-ne-panic false e h = cc

  -- Reserves come of vault amounts that are known.
  vaults_of :
      (profile : Profile) (self : SegaAmm ext) {amounts : ℕ × ℕ}
      → reserves ext profile self ≡ ok amounts
      → (vault_0 : ℕ) × (vault_1 : ℕ) × (self.vault_0_amount ≡ some vault_0)
        × (self.vault_1_amount ≡ some vault_1)
  unfolding reserves
  vaults_of profile self h =
      >>=_elim (context self.vault_0_amount vault_0_missing_or_frozen) _ h λ vault_0 e_0 h_0.
        >>=_elim (context self.vault_1_amount vault_1_missing_or_frozen) _ h_0
          λ vault_1 e_1 h_1. (vault_0, vault_1, context-eq-ok _ _ e_0, context-eq-ok _ _ e_1)

  -- The pool can pay what it owes out of both vaults, once they are known.
  abbrev pub IsCovered : SegaAmm ext → Type 0
  IsCovered self =
      (vault_0 vault_1 : ℕ)
      → self.vault_0_amount ≡ some vault_0
      → self.vault_1_amount ≡ some vault_1
      → IsSolvent self.pool_state vault_0 vault_1

  module _ (pct : (n : ℕ) → n ≤ u64_max → is_ok (fee_pct ext n) ≡ true) where
    fee_pct-ne-panic : (n : ℕ) → n ≤ u64_max → fee_pct ext n ≢ panic
    fee_pct-ne-panic n small h =
        let defined = pct n small in
        let stuck : is_ok (fee_pct ext n) ≡ is_ok {E = Error} {A = ext.decimals.D} panic =
          ap is_ok h in
        cc (defined, stuck)

    fee_pct_returns :
        (n : ℕ) {fee : ℕ}
        → context (try_into_u64 n) int_out_of_range ≡ ok fee
        → fee_pct ext n ≢ panic
    fee_pct_returns n h = fee_pct-ne-panic n (ground arith)

    finish-ne-panic :
        (config : Option ext.TransferFeeConfig) (epoch : ℕ) (params : QuoteParams) (r : SwapResult)
        → finish ext config epoch params r ≢ panic
    unfolding finish
    finish-ne-panic config epoch params r =
        search (no_panic, after_transfer_fee-ne-panic, fee_pct_returns r.trade_fee) depth 12

    -- What `reserves` gives then: 64 bits, and some of token 0; and it does not panic.
    reserves_bounds :
        (profile : Profile) (self : SegaAmm ext) {amounts : ℕ × ℕ}
        → IsTyped ext self
        → IsCovered self
        → reserves ext profile self ≡ ok amounts
        → (0 < amounts.0) × (amounts.0 ≤ u64_max) × (amounts.1 ≤ u64_max)
    reserves_bounds profile self {amounts} typed covered h =
        let (vault_0, vault_1, e_0, e_1) = vaults_of profile self h in
        let fits_0 = typed.vault_0 vault_0 e_0 in
        let fits_1 = typed.vault_1 vault_1 e_1 in
        let solvent = covered vault_0 vault_1 e_0 e_1 in
        let owed = solvent.owed_0 in
        let pool = self.pool_state in
        let found =
          reserves_of_vaults ext profile self vault_0 vault_1 e_0 e_1 solvent fits_0 fits_1 in
        let first : amounts.0 ≡ vault_0 - (pool.protocol_fees_token_0 + pool.fund_fees_token_0) =
          cc (found, h) in
        let second : amounts.1 ≡ vault_1 - (pool.protocol_fees_token_1 + pool.fund_fees_token_1) =
          cc (found, h) in
        (omega arith, omega arith, omega arith)

    reserves-ne-panic :
        (profile : Profile) (self : SegaAmm ext)
        → IsTyped ext self
        → IsCovered self
        → reserves ext profile self ≢ panic
    unfolding reserves
    reserves-ne-panic profile self typed covered h =
        >>=-ne-panic (context self.vault_0_amount vault_0_missing_or_frozen) _
          (context-ne-panic _ _)
          (λ vault_0 e_0.
            >>=-ne-panic (context self.vault_1_amount vault_1_missing_or_frozen) _
              (context-ne-panic _ _)
              λ vault_1 e_1 stuck.
                let is_0 = context-eq-ok _ _ e_0 in
                let is_1 = context-eq-ok _ _ e_1 in
                let found =
                  reserves_of_vaults ext profile self vault_0 vault_1 is_0 is_1
                    (covered vault_0 vault_1 is_0 is_1) (typed.vault_0 vault_0 is_0)
                    (typed.vault_1 vault_1 is_1) in
                cc (found, h))
          h

    -- The swap of `quote`, on what the steps before it gave.
    swap_step-ne-panic :
        (profile : Profile) (self : SegaAmm ext) (config : Option ext.TransferFeeConfig)
        (epoch amount : ℕ) {amm_config : AmmConfig} {actual : ℕ} {amounts : ℕ × ℕ}
        → IsTyped ext self
        → IsCovered self
        → amount ≤ u64_max
        → self.amm_config ≡ some amm_config
        → after_transfer_fee ext config epoch amount ≡ ok actual
        → reserves ext profile self ≡ ok amounts
        → context_partial
            (swap_base_input actual amounts.0 amounts.1 (rates_of amm_config))
            swap_failed
          ≢ panic
    swap_step-ne-panic profile self config epoch amount {amm_config} {actual} {amounts} typed
          covered small configured received reserved =
        let taken = after_transfer_fee-le config epoch amount received in
        let (pos, fits_0, fits_1) = reserves_bounds profile self typed covered reserved in
        let rates = typed.config amm_config configured in
        context_partial-ne-panic _ _ (
          swap_base_input-ne-panic actual amounts.0 amounts.1 (rates_of amm_config) (omega arith)
            fits_0 fits_1 rates.trade_fee_rate pos)

    quote_swap-ne-panic :
        (profile : Profile) (clock : ClockRef) (self : SegaAmm ext) (params : QuoteParams)
        (amm_config : AmmConfig) (mints : TokenMints ext)
        → IsTyped ext self
        → IsCovered self
        → params.amount ≤ u64_max
        → self.amm_config ≡ some amm_config
        → quote_swap ext profile clock self params amm_config mints ≢ panic
    unfolding quote_swap
    quote_swap-ne-panic profile clock self params amm_config mints typed covered small configured =
        let configs =
          mint_transfer_fee_configs ext (params.input_mint == self.pool_state.token_0_mint) mints in
        search
          (
            no_panic,
            reject_if-ne-panic,
            after_transfer_fee-ne-panic,
            reserves-ne-panic profile self typed covered,
            finish-ne-panic,
            swap_step-ne-panic profile self configs.0 clock.epoch params.amount typed covered small
                configured,
          )
          depth 12

    -- A reached AMM, where accounts are read in the range of their types and the vaults cover the fees
    -- that the pool owes with some of token 0 left, never panics on a quote of an amount of 64 bits, in
    -- either build, for fees of 64 bits whose quotient of decimals is defined.
    pub Reached-quote-ne-panic :
        (keyed_account : KeyedAccount ext) (profile : Profile) (clock : ClockRef)
        {self : SegaAmm ext} (params : QuoteParams)
        → ReadsTyped ext
        → Reached ext keyed_account self
        → IsCovered self
        → params.amount ≤ u64_max
        → quote ext profile clock self params ≢ panic
    unfolding quote
    Reached-quote-ne-panic keyed_account profile clock {self} params reads reached covered small =
        let typed = Reached-IsTyped ext reads keyed_account reached in
        >>=-ne-panic (reject_if (is_closed self.pool_state clock) pool_is_not_trading) _
          (reject_if-ne-panic _ _)
          λ _ _.
            >>=-ne-panic (context self.amm_config missing_amm_config) _ (context-ne-panic _ _)
              λ config configured.
                >>=-ne-panic (context self.token_mints_and_token_programs missing_token_mints) _
                  (context-ne-panic _ _)
                  λ mints _.
                    quote_swap-ne-panic profile clock self params config mints typed covered small
                      (context-eq-ok _ _ configured)
