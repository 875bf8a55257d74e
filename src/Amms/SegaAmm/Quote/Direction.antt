-- ===== src/Amms/SegaAmm/Quote/Direction.antt =====
-- Lemmas on the sides of the pool that `SegaAmm::quote` takes
-- (jupiter-core/src/amms/sega_amm.rs).
use jupiter_amm_implementati.Base.{
  ℕ, ◌≡◌, Bool, true, false, none, some, ok, Profile, sym, ap, ◌==◌,
}
use jupiter_amm_implementati.Chain
use jupiter_amm_implementati.Chain.{ClockRef, QuoteParams}
use jupiter_amm_implementati.CpSwap.AmmConfig.{AmmConfig}
use jupiter_amm_implementati.CpSwap.Calculator.{SwapResult, swap_base_input}
use jupiter_amm_implementati.Amms.External.{External}
use jupiter_amm_implementati.Amms.SegaAmm.{SegaAmm, TokenMints}
use jupiter_amm_implementati.Amms.SegaAmm.Quote.{
  rates_of, after_transfer_fee, mint_transfer_fee_configs, reserves, quote,
}
use jupiter_amm_implementati.Amms.SegaAmm.Quote.Outcomes.{quote-QuoteSteps, finish_value}

-- Neither mint has the transfer fee extension.
abbrev pub HasNoTransferFee : (ext : External) → TokenMints ext → Type 0
HasNoTransferFee ext mints =
    (ext.get_transfer_fee_config mints.token0_mint ≡ none)
    × (ext.get_transfer_fee_config mints.token1_mint ≡ none)

module _ (ext : External) where
  pub configs_none :
      (zero_for_one : Bool) (mints : TokenMints ext)
      → HasNoTransferFee ext mints
      → mint_transfer_fee_configs ext zero_for_one mints ≡ (none, none)
  unfolding mint_transfer_fee_configs
  configs_none true mints (e_0, e_1) = rw (e_0, e_1)
  configs_none false mints (e_0, e_1) = rw (e_0, e_1)

  after_none :
      (epoch amount : ℕ) {rest : ℕ}
      → after_transfer_fee ext none epoch amount ≡ ok rest
      → amount ≡ rest
  unfolding after_transfer_fee
  after_none epoch amount h = cc

  -- Without transfer fees a quote is the swap with token 0 as the source and token 1 as the
  -- destination, whichever mint the quote is asked for.
  pub quote_source_is_token_0 :
      (profile : Profile) (clock : ClockRef) (self : SegaAmm ext) (mints : TokenMints ext)
      (config : AmmConfig) (token_0 token_1 : ℕ) (params : QuoteParams)
      {q : Chain.Quote ext.decimals.D}
      → self.token_mints_and_token_programs ≡ some mints
      → HasNoTransferFee ext mints
      → self.amm_config ≡ some config
      → reserves ext profile self ≡ ok (token_0, token_1)
      → quote ext profile clock self params ≡ ok q
      → (r : SwapResult) × (swap_base_input params.amount token_0 token_1 (rates_of config) ≡ ok r)
        × (q.in_amount ≡ r.source_amount_swapped)
        × (q.out_amount ≡ r.destination_amount_swapped)
        × (q.fee_amount ≡ r.trade_fee)
  quote_source_is_token_0 profile clock self mints config token_0 token_1 params hm free hc hr h =
      let s = quote-QuoteSteps ext profile clock self params h in
      let zero_for_one = params.input_mint == self.pool_state.token_0_mint in
      let same_mints : s.mints ≡ mints = cc (s.minted) in
      let same_config : s.amm_config ≡ config = cc (s.configured) in
      let same_amounts : s.amounts ≡ (token_0, token_1) = cc (s.reserved) in
      let none_ = configs_none zero_for_one mints free in
      let received = after_none clock.epoch params.amount (rw (same_mints, none_) at s.received) in
      let (source, fee, _, _, out, _) =
        finish_value ext none clock.epoch params s.swap_result
          (rw (same_mints, none_) at s.finished) in
      let swapped = rw (same_config, same_amounts, ← received) at s.swapped in
      (s.swap_result, swapped, source, sym (after_none clock.epoch _ out), fee)

  -- Without transfer fees, two quotes of one amount in the same state promise the same amounts and
  -- the same fee, whatever their input mints are.
  pub quote_ignores_direction :
      (profile : Profile) (clock : ClockRef) (self : SegaAmm ext) (mints : TokenMints ext)
      (params params' : QuoteParams) {q q' : Chain.Quote ext.decimals.D}
      → self.token_mints_and_token_programs ≡ some mints
      → HasNoTransferFee ext mints
      → params.amount ≡ params'.amount
      → quote ext profile clock self params ≡ ok q
      → quote ext profile clock self params' ≡ ok q'
      → (q.in_amount ≡ q'.in_amount)
        × (q.out_amount ≡ q'.out_amount)
        × (q.fee_amount ≡ q'.fee_amount)
  quote_ignores_direction profile clock self mints params params' hm free same h h' =
      let s = quote-QuoteSteps ext profile clock self params h in
      let one =
        quote_source_is_token_0 profile clock self mints s.amm_config s.amounts.0 s.amounts.1 params
          hm free s.configured s.reserved h in
      let other =
        quote_source_is_token_0 profile clock self mints s.amm_config s.amounts.0 s.amounts.1
          params' hm free s.configured s.reserved h' in
      let swaps =
        λ (amount : ℕ). swap_base_input amount s.amounts.0 s.amounts.1 (rates_of s.amm_config) in
      let equal : one.0 ≡ other.0 = cc (one.1, other.1, ap swaps same) in
      (cc (one.2, other.2, equal), cc (one.3, other.3, equal), cc (one.4, other.4, equal))
