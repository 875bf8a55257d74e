-- ===== src/Tests/Quotes.antt =====
-- Quotes of a pool whose mints take transfer fees, and quotes while the shared clock changes.
use jupiter_amm_implementati.Base.{ℕ, ◌≡◌, ◌↔◌, refl, false, inr, some, ok, debug, arith}
use jupiter_amm_implementati.Chain
use jupiter_amm_implementati.Chain.{ClockRef}
use jupiter_amm_implementati.CpSwap.Pool.{get_status_by_bit}
use jupiter_amm_implementati.CpSwap.Fees.{trading_fee, protocol_fee, fund_fee}
use jupiter_amm_implementati.CpSwap.ConstantProduct.{swap_base_input_without_fees}
use jupiter_amm_implementati.CpSwap.Calculator.{SwapResult, swap_base_input}
use jupiter_amm_implementati.Amms.SegaAmm.{SegaAmm, TokenMints}
use jupiter_amm_implementati.Amms.SegaAmm.Quote.{
  quote, quote_swap, vault_amount_without_fee, is_closed, after_transfer_fee,
  mint_transfer_fee_configs, fee_pct, reserves, finish,
}
use jupiter_amm_implementati.Amms.SegaAmm.Quote.Spec.{IsQuoteOf, quote-IsQuoteOf_iff}
use jupiter_amm_implementati.Amms.SegaAmm.Quote.Charged.{HasFees, quote_charged_total}
use jupiter_amm_implementati.Amms.Clock.{Run, done, timestamp_loaded, epoch_loaded, quote_thread}
use jupiter_amm_implementati.Amms.Clock.Moment.{Run-moment}
use jupiter_amm_implementati.Tests.World.{pct_ok, ext, amm, mints, config, clock, asked}

-- The mint of token 0 takes 100 of every transfer, the other 50.
abbrev taxed_mints : TokenMints ext
taxed_mints = record mints { token0_mint = 100; token1_mint = 50 }

abbrev taxed : SegaAmm ext
taxed = record amm { token_mints_and_token_programs = some taxed_mints }

abbrev taxed_quote : Chain.Quote ℕ
taxed_quote = record {
  in_amount = 10_000;
  out_amount = 19_702;
  fee_amount = 25;
  fee_mint = 5;
  fee_pct = 25;
}

taxed_reserves : reserves ext debug taxed ≡ ok (1_000_000, 2_000_000)
unfolding reserves vault_amount_without_fee
taxed_reserves = refl

taxed_ok : quote ext debug clock taxed (asked 5 10_100) ≡ ok taxed_quote
unfolding quote quote_swap swap_base_input trading_fee protocol_fee fund_fee
    swap_base_input_without_fees vault_amount_without_fee get_status_by_bit is_closed
    after_transfer_fee mint_transfer_fee_configs fee_pct reserves finish
taxed_ok = refl

quote-IsQuoteOf_iff_example : (quote ext debug clock taxed (asked 5 10_100) ≡ ok taxed_quote) ↔ (
    (r : SwapResult) × IsQuoteOf ext clock taxed config taxed_mints 1_000_000 2_000_000
      (asked 5 10_100)
      r
      taxed_quote)
quote-IsQuoteOf_iff_example =
    quote-IsQuoteOf_iff ext debug clock taxed config taxed_mints 1_000_000 2_000_000
      (asked 5 10_100) taxed_quote refl refl (omega arith) taxed_reserves (omega arith)
      (omega arith) (omega arith) (omega arith) (omega arith) (omega arith) (omega arith)

has_fees : HasFees ext (some 50) clock.epoch
has_fees amount small = (50, refl)

quote_charged_total_example :
    (q : Chain.Quote ℕ) × (quote ext debug clock taxed (asked 5 101) ≡ ok q)
quote_charged_total_example =
    quote_charged_total ext debug clock taxed config taxed_mints 1_000_000 2_000_000 100
      (asked 5 101) pct_ok has_fees refl refl (omega arith) (omega arith) (omega arith)
      taxed_reserves (omega arith) (omega arith) (omega arith) (omega arith) (omega arith)
      (omega arith) (omega arith) refl (omega arith)

-- The clocks before and after the epoch has turned.
data Turning : ClockRef → Type 0 where
  before : Turning clock
  turned : Turning (record clock { epoch = 501 })

-- The epoch is read from the first, the timestamp from the second.
turning : Run Turning (ok taxed_quote) (quote_thread ext debug taxed (asked 5 10_100))
unfolding quote_thread quote_swap swap_base_input trading_fee protocol_fee fund_fee
    swap_base_input_without_fees vault_amount_without_fee get_status_by_bit is_closed
    after_transfer_fee mint_transfer_fee_configs fee_pct reserves finish
turning =
    timestamp_loaded (record clock { epoch = 501 }) _ turned (epoch_loaded clock _ before done)

open_ : (moment : ClockRef) → Turning moment → is_closed taxed.pool_state moment ≡ false
unfolding is_closed get_status_by_bit
open_ _ before = refl
open_ _ turned = refl

Run-moment_example :
    (moment : ClockRef) × Turning moment
    × (quote ext debug moment taxed (asked 5 10_100) ≡ ok taxed_quote)
Run-moment_example = Run-moment ext debug taxed (asked 5 10_100) clock before (inr open_) turning
