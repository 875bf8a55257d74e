-- ===== src/Amms/SegaAmm/Quote/Charged.antt =====
-- That `SegaAmm::quote` (jupiter-core/src/amms/sega_amm.rs) answers, whatever transfer fees the mints
-- take.
use jupiter_amm_implementati.Base.{
  ℕ, ◌-◌, ◌/◌, ◌%◌, ◌≤◌, ◌<◌, ◌≡◌, refl, not, Option, some, true, ok, is_ok, is_ok→value, Profile,
  u64_max, ◌==◌, arith,
}
use jupiter_amm_implementati.Chain
use jupiter_amm_implementati.Chain.{ClockRef, QuoteParams, as_u64}
use jupiter_amm_implementati.CpSwap.AmmConfig.{AmmConfig}
use jupiter_amm_implementati.CpSwap.Fees.{fee_rate_denominator_value}
use jupiter_amm_implementati.CpSwap.Calculator.Input.{swap_base_input_total}
use jupiter_amm_implementati.CpSwap.Calculator.Spec.{swap_base_input-IsSwapOf}
use jupiter_amm_implementati.Amms.External.{External}
use jupiter_amm_implementati.Amms.SegaAmm.{SegaAmm, TokenMints}
use jupiter_amm_implementati.Amms.SegaAmm.Quote.{rates_of, fee_pct, reserves, quote}
use jupiter_amm_implementati.Amms.SegaAmm.Quote.TransferFee.{IsTransferFee, source_mint}
use jupiter_amm_implementati.Amms.SegaAmm.Quote.Spec.{IsQuoteOf-quote}

module _ (ext : External) where
  open ext use {TransferFeeConfig, get_transfer_fee_config, calculate_epoch_fee}

  -- The fee of a transfer is defined, in an epoch, for amounts of 64 bits.
  abbrev pub HasFees : Option TransferFeeConfig → ℕ → Type 0
  HasFees config epoch =
      (amount : ℕ) → amount ≤ u64_max → (fee : ℕ) × IsTransferFee ext config epoch amount fee

  -- A pool that trades, with its config, its mints and reserves of 64 bits, the one of token 0
  -- positive, quotes every amount of 64 bits that the source mint's transfer fee does not take whole,
  -- for a trade fee rate up to the denominator and part rates of 64 bits, if the transfer fees of
  -- the destination mint and the quotient of decimals are defined for amounts of 64 bits.
  pub quote_charged_total :
      (profile : Profile) (clock : ClockRef) (self : SegaAmm ext) (config : AmmConfig)
      (mints : TokenMints ext) (token_0 token_1 fee_in : ℕ) (params : QuoteParams)
      → ((n : ℕ) → n ≤ u64_max → is_ok (fee_pct ext n) ≡ true)
      → HasFees
          (get_transfer_fee_config
            (source_mint ext (not (params.input_mint == self.pool_state.token_0_mint)) mints))
          clock.epoch
      → self.amm_config ≡ some config
      → self.token_mints_and_token_programs ≡ some mints
      → self.pool_state.status < 256
      → self.pool_state.status / 4 % 2 ≡ 0
      → self.pool_state.open_time ≤ as_u64 clock.unix_timestamp
      → reserves ext profile self ≡ ok (token_0, token_1)
      → token_0 ≤ u64_max
      → token_1 ≤ u64_max
      → 0 < token_0
      → config.trade_fee_rate ≤ fee_rate_denominator_value
      → config.protocol_fee_rate ≤ u64_max
      → config.fund_fee_rate ≤ u64_max
      → params.amount ≤ u64_max
      → IsTransferFee ext
          (get_transfer_fee_config
            (source_mint ext (params.input_mint == self.pool_state.token_0_mint) mints))
          clock.epoch
          params.amount
          fee_in
      → fee_in < params.amount
      → (q : Chain.Quote ext.decimals.D) × (quote ext profile clock self params ≡ ok q)
  quote_charged_total profile clock self config mints x y fee_in params pct fees hc hm status on
        past hr hx hy pos ht hp hf small charged below =
      let net = params.amount - fee_in in
      let rates = rates_of config in
      let (r, swapped) = swap_base_input_total net x y rates (omega arith) hx hy ht hp hf pos in
      let spec = swap_base_input-IsSwapOf net x y rates swapped in
      let bounded = spec.paid.0.0 in
      let covered = spec.covered in
      let (fee_out, withheld) = fees r.destination_amount_swapped (omega arith) in
      let (rate, rated) = is_ok→value (fee_pct ext r.trade_fee) (pct r.trade_fee (omega arith)) in
      let q : Chain.Quote ext.decimals.D = record {
        in_amount = net;
        out_amount = r.destination_amount_swapped - fee_out;
        fee_amount = r.trade_fee;
        fee_mint = params.input_mint;
        fee_pct = rate;
      } in
      (
        q,
        IsQuoteOf-quote ext clock self config mints x y params hc hm status profile r q hr small hx
            hy ht hp hf pos
            (record {
              fee_in = fee_in;
              fee_out = fee_out;
              enabled = on;
              opened = past;
              charged = charged;
              below = below;
              swapped = spec;
              withheld = withheld;
              in_amount = refl;
              out_amount = refl;
              fee_amount = refl;
              fee_mint = refl;
              pct = rated;
            }),
      )
