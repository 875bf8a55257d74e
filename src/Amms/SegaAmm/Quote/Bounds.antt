-- ===== src/Amms/SegaAmm/Quote/Bounds.antt =====
-- Lemmas on the amounts of `SegaAmm::quote` and on when it ends in a quote
-- (jupiter-core/src/amms/sega_amm.rs).
use jupiter_amm_implementati.Base.{
  ℕ, ◌≤◌, ◌<◌, ◌≡◌, refl, false, Option, none, some, ok, panic, Profile, u64_max, ◌==◌, arith,
}
use jupiter_amm_implementati.Chain
use jupiter_amm_implementati.Chain.{ClockRef, QuoteParams}
use jupiter_amm_implementati.CpSwap.AmmConfig.{AmmConfig}
use jupiter_amm_implementati.CpSwap.Fees.{fee_rate_denominator_value, trading_fee}
use jupiter_amm_implementati.CpSwap.Calculator.Input.{
  swap_base_input-InputSteps, swap_base_input_panic,
}
use jupiter_amm_implementati.Amms.External.{External}
use jupiter_amm_implementati.Amms.SegaAmm.{SegaAmm, TokenMints}
use jupiter_amm_implementati.Amms.SegaAmm.Quote.{
  is_closed, rates_of, after_transfer_fee, reserves, quote_swap, quote,
}
use jupiter_amm_implementati.Amms.SegaAmm.Quote.Outcomes.{quote-QuoteSteps, finish_value}
use jupiter_amm_implementati.Amms.SegaAmm.Quote.Direction.{HasNoTransferFee, configs_none}

module _ (ext : External) where
  pub after_transfer_fee-le :
      (config : Option ext.TransferFeeConfig) (epoch amount : ℕ) {rest : ℕ}
      → after_transfer_fee ext config epoch amount ≡ ok rest
      → rest ≤ amount
  unfolding after_transfer_fee
  after_transfer_fee-le none epoch amount h = ground arith
  after_transfer_fee-le (some config) epoch amount h = ground arith

  -- For an amount of 64 bits and a trade fee rate up to the denominator, a quote takes in a positive
  -- amount and no more than was offered, has its fee within that, pays out no more than the reserve
  -- of token 1 and than 64 bits, and names the input mint as the mint of the fee.
  pub quote_bounds :
      (profile : Profile) (clock : ClockRef) (self : SegaAmm ext) (config : AmmConfig)
      (token_0 token_1 : ℕ) (params : QuoteParams) {q : Chain.Quote ext.decimals.D}
      → params.amount ≤ u64_max
      → self.amm_config ≡ some config
      → config.trade_fee_rate ≤ fee_rate_denominator_value
      → reserves ext profile self ≡ ok (token_0, token_1)
      → quote ext profile clock self params ≡ ok q
      → (0 < q.in_amount)
        × (q.in_amount ≤ params.amount)
        × (q.fee_amount ≤ q.in_amount)
        × (q.out_amount ≤ token_1)
        × (q.out_amount ≤ u64_max)
        × (q.fee_mint ≡ params.input_mint)
  quote_bounds profile clock self config token_0 token_1 params small hc ht hr h =
      let s = quote-QuoteSteps ext profile clock self params h in
      let taken = after_transfer_fee-le _ clock.epoch params.amount s.received in
      let (source, fee, mint, fits, out, _) =
        finish_value ext _ clock.epoch params s.swap_result s.finished in
      let paid = after_transfer_fee-le _ clock.epoch s.swap_result.destination_amount_swapped out in
      let steps =
        swap_base_input-InputSteps s.actual_amount_in s.amounts.0 s.amounts.1
          (rates_of s.amm_config) s.swapped in
      let same : s.amounts.1 ≡ token_1 = cc (s.reserved) in
      let positive = s.positive in
      let covered = steps.covered in
      let swapped = steps.source in
      let below = steps.paid in
      (omega arith, omega arith, omega arith, omega arith, omega arith, mint)

  after_none_ok : (epoch amount : ℕ) → after_transfer_fee ext none epoch amount ≡ ok amount
  unfolding after_transfer_fee
  after_none_ok epoch amount = refl

  -- An open pool with a config and mints without transfer fees whose reserve of token 0 is 0 makes
  -- the quote panic on a positive amount of 64 bits that the trade fee takes whole, for part rates
  -- of 64 bits.
  pub quote_panic :
      (profile : Profile) (clock : ClockRef) (self : SegaAmm ext) (config : AmmConfig)
      (mints : TokenMints ext) (token_1 : ℕ) (params : QuoteParams)
      → is_closed self.pool_state clock ≡ false
      → self.amm_config ≡ some config
      → config.protocol_fee_rate ≤ u64_max
      → config.fund_fee_rate ≤ u64_max
      → self.token_mints_and_token_programs ≡ some mints
      → HasNoTransferFee ext mints
      → reserves ext profile self ≡ ok (0, token_1)
      → 0 < params.amount
      → params.amount ≤ u64_max
      → trading_fee params.amount config.trade_fee_rate ≡ ok params.amount
      → quote ext profile clock self params ≡ panic
  unfolding quote quote_swap
  quote_panic profile clock self config mints y params open_ hc hp hf hm free hr some_ small all =
      let a = params.amount in
      let stuck = swap_base_input_panic a y (rates_of config) small hp hf all in
      let none_ = configs_none ext (params.input_mint == self.pool_state.token_0_mint) mints free in
      let nonzero : (a == 0) ≡ false = ground arith in
      rw (hr, open_, hc, hm, none_, after_none_ok clock.epoch a, nonzero, stuck)
