-- ===== src/Amms/SegaAmm/Quote/Spec.antt =====
-- What a quote of the Sega AMM promises, transfer fees included, and that `SegaAmm::quote`
-- (jupiter-core/src/amms/sega_amm.rs) is that promise.
use jupiter_amm_implementati.Base.{
  ℕ, ◌-◌, ◌/◌, ◌%◌, ◌≤◌, ◌<◌, ◌≡◌, ◌↔◌, sym, ap, ◌∙◌, false, not, Option, some, ok, Profile,
  u64_max, ◌==◌, arith,
}
use jupiter_amm_implementati.Chain
use jupiter_amm_implementati.Chain.{ClockRef, Pubkey, QuoteParams, as_u64}
use jupiter_amm_implementati.CpSwap.AmmConfig.{AmmConfig}
use jupiter_amm_implementati.CpSwap.Fees.{fee_rate_denominator_value}
use jupiter_amm_implementati.CpSwap.Calculator.{SwapResult}
use jupiter_amm_implementati.CpSwap.Calculator.Spec.{
  IsSwapOf, swap_base_input-IsSwapOf, swap_base_input-IsSwapOf_iff,
}
use jupiter_amm_implementati.Amms.External.{External}
use jupiter_amm_implementati.Amms.SegaAmm.{SegaAmm, TokenMints}
use jupiter_amm_implementati.Amms.SegaAmm.Quote.{
  rates_of, after_transfer_fee, fee_pct, reserves, finish, quote_swap, quote,
}
use jupiter_amm_implementati.Amms.SegaAmm.Quote.Outcomes.{quote-QuoteSteps, finish_value}
use jupiter_amm_implementati.Amms.SegaAmm.Quote.TransferFee.{
  is_open_iff, IsTransferFee, after_transfer_fee-IsTransferFee, IsTransferFee-after, source_mint,
  configs_of_mints,
}

module _ (ext : External) (clock : ClockRef) (self : SegaAmm ext) (config : AmmConfig)
    (mints : TokenMints ext) (token_0 token_1 : ℕ) (params : QuoteParams) where
  open ext use {get_transfer_fee_config, decimals.{D}}

  -- A quote in terms of a swap: the pool trades, the swap is the one of what is left of the amount
  -- after the source mint's fee, with token 0 as its source, and the quote pays what is left of its
  -- proceeds after the destination mint's fee.
  pub record IsQuoteOf (r : SwapResult) (q : Chain.Quote D) : Type 0 where
    pub fee_in : ℕ
    pub fee_out : ℕ
    pub enabled : self.pool_state.status / 4 % 2 ≡ 0
    pub opened : self.pool_state.open_time ≤ as_u64 clock.unix_timestamp
    pub charged :
        IsTransferFee ext
          (get_transfer_fee_config
            (source_mint ext (params.input_mint == self.pool_state.token_0_mint) mints))
          clock.epoch
          params.amount
          fee_in
    pub below : fee_in < params.amount
    pub swapped : IsSwapOf (params.amount - fee_in) token_0 token_1 (rates_of config) r
    pub withheld :
        IsTransferFee ext
          (get_transfer_fee_config
            (source_mint ext (not (params.input_mint == self.pool_state.token_0_mint)) mints))
          clock.epoch
          r.destination_amount_swapped
          fee_out
    pub in_amount : q.in_amount ≡ params.amount - fee_in
    pub out_amount : q.out_amount ≡ r.destination_amount_swapped - fee_out
    pub fee_amount : q.fee_amount ≡ r.trade_fee
    pub fee_mint : q.fee_mint ≡ params.input_mint
    pub pct : fee_pct ext q.fee_amount ≡ ok q.fee_pct

  -- The end of `quote`, put together.
  finish_lem :
      (fee_config : Option ext.TransferFeeConfig) (r : SwapResult) (q : Chain.Quote D)
      → r.destination_amount_swapped ≤ u64_max
      → r.source_amount_swapped ≤ u64_max
      → r.trade_fee ≤ u64_max
      → after_transfer_fee ext fee_config clock.epoch r.destination_amount_swapped ≡ ok q.out_amount
      → q.in_amount ≡ r.source_amount_swapped
      → q.fee_amount ≡ r.trade_fee
      → q.fee_mint ≡ params.input_mint
      → fee_pct ext q.fee_amount ≡ ok q.fee_pct
      → finish ext fee_config clock.epoch params r ≡ ok q
  unfolding finish
  finish_lem fee_config r q out source fee e_0 e_1 e_2 e_3 e_4 = ground arith

  module _ (configured : self.amm_config ≡ some config)
      (minted : self.token_mints_and_token_programs ≡ some mints)
      (status : self.pool_state.status < 256) where
    quote-IsQuoteOf :
        (profile : Profile) {q : Chain.Quote D}
        → reserves ext profile self ≡ ok (token_0, token_1)
        → quote ext profile clock self params ≡ ok q
        → (r : SwapResult) × IsQuoteOf r q
    quote-IsQuoteOf profile {q} reserved h =
        let s = quote-QuoteSteps ext profile clock self params h in
        let zero_for_one = params.input_mint == self.pool_state.token_0_mint in
        let same_mints : s.mints ≡ mints = cc (s.minted) in
        let same_config : s.amm_config ≡ config = cc (s.configured) in
        let same_amounts : s.amounts ≡ (token_0, token_1) = cc (s.reserved) in
        let sides = configs_of_mints ext zero_for_one mints in
        let (fee_in, charged, rest) =
          after_transfer_fee-IsTransferFee ext _ clock.epoch params.amount
            (rw (same_mints, sides) at s.received) in
        let (source, fee, mint, _, out, pct) =
          finish_value ext _ clock.epoch params s.swap_result
            (rw (same_mints, sides) at s.finished) in
        let (fee_out, withheld, paid) =
          after_transfer_fee-IsTransferFee ext _ clock.epoch
            s.swap_result.destination_amount_swapped out in
        let swapped = rw (same_config, same_amounts, rest) at s.swapped in
        let spec =
          swap_base_input-IsSwapOf (params.amount - fee_in) token_0 token_1 (rates_of config)
            swapped in
        let (is_on, is_past) = (is_open_iff self.pool_state clock status).0 s.open_ in
        let positive = s.positive in
        let taken = spec.source in
        (
          s.swap_result,
          record {
            fee_in = fee_in;
            fee_out = fee_out;
            enabled = is_on;
            opened = is_past;
            charged = charged;
            below = omega arith;
            swapped = spec;
            withheld = withheld;
            in_amount = source ∙ taken;
            out_amount = paid;
            fee_amount = fee;
            fee_mint = mint;
            pct = pct;
          },
        )

    pub IsQuoteOf-quote :
        (profile : Profile) (r : SwapResult) (q : Chain.Quote D)
        → reserves ext profile self ≡ ok (token_0, token_1)
        → params.amount ≤ u64_max
        → token_0 ≤ u64_max
        → token_1 ≤ u64_max
        → config.trade_fee_rate ≤ fee_rate_denominator_value
        → config.protocol_fee_rate ≤ u64_max
        → config.fund_fee_rate ≤ u64_max
        → 0 < token_0
        → IsQuoteOf r q
        → quote ext profile clock self params ≡ ok q
    unfolding quote quote_swap
    IsQuoteOf-quote profile r q reserved small x_small y_small trade protocol fund pos s =
        let swapped =
          (swap_base_input-IsSwapOf_iff (params.amount - s.fee_in) token_0 token_1 (rates_of config)
              r (omega arith) x_small y_small trade protocol fund pos).1
            s.swapped in
        let received = IsTransferFee-after ext _ clock.epoch params.amount s.fee_in s.charged in
        let paid =
          IsTransferFee-after ext _ clock.epoch r.destination_amount_swapped s.fee_out s.withheld in
        let sides =
          configs_of_mints ext (params.input_mint == self.pool_state.token_0_mint) mints in
        let below = s.below in
        let nonzero : (params.amount - s.fee_in == 0) ≡ false = ground arith in
        let open_ = (is_open_iff self.pool_state clock status).1 (s.enabled, s.opened) in
        let bounded = s.swapped.paid.0.0 in
        let covered = s.swapped.covered in
        let source = s.swapped.source in
        let finished =
          finish_lem _ r q (omega arith) (omega arith) (omega arith)
            (paid ∙ ap ok (sym s.out_amount)) (s.in_amount ∙ sym source) s.fee_amount s.fee_mint
            s.pct in
        rw (reserved, open_, configured, minted, sides, received, nonzero, swapped) finished

-- An AMM with its config and mints, a status of one byte and reserves of 64 bits, the one of token 0
-- positive, asked for an amount of 64 bits at a trade fee rate up to the denominator and part rates
-- of 64 bits, answers with exactly the quote that its promise describes: the pool trades, the swap
-- of what the source mint's transfer fee leaves is the one promised of `swap_base_input`, with
-- token 0 as its source, and the destination mint's transfer fee is taken off what it pays.
pub quote-IsQuoteOf_iff :
    (ext : External) (profile : Profile) (clock : ClockRef) (self : SegaAmm ext)
    (config : AmmConfig) (mints : TokenMints ext) (token_0 token_1 : ℕ) (params : QuoteParams)
    (q : Chain.Quote ext.decimals.D)
    → self.amm_config ≡ some config
    → self.token_mints_and_token_programs ≡ some mints
    → self.pool_state.status < 256
    → reserves ext profile self ≡ ok (token_0, token_1)
    → params.amount ≤ u64_max
    → token_0 ≤ u64_max
    → token_1 ≤ u64_max
    → config.trade_fee_rate ≤ fee_rate_denominator_value
    → config.protocol_fee_rate ≤ u64_max
    → config.fund_fee_rate ≤ u64_max
    → 0 < token_0
    → (quote ext profile clock self params ≡ ok q)
      ↔ ((r : SwapResult) × IsQuoteOf ext clock self config mints token_0 token_1 params r q)
quote-IsQuoteOf_iff ext profile clock self config mints x y params q hc hm status reserved small hx
      hy ht hp hf pos =
    (
      quote-IsQuoteOf ext clock self config mints x y params hc hm status profile reserved,
      λ (r, s).
          IsQuoteOf-quote ext clock self config mints x y params hc hm status profile r q reserved
            small hx hy ht hp hf pos s,
    )
