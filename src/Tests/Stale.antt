-- ===== src/Tests/Stale.antt =====
-- A quote of the concrete Sega pool, and what its swap pays after the swaps of others.
use jupiter_amm_implementati.Base.{ℕ, ◌≤◌, ◌≡◌, refl, true, ok, debug, arith}
use jupiter_amm_implementati.Chain
use jupiter_amm_implementati.CpSwap.Pool.{get_status_by_bit}
use jupiter_amm_implementati.CpSwap.Fees.{trading_fee, protocol_fee, fund_fee}
use jupiter_amm_implementati.CpSwap.ConstantProduct.{swap_base_input_without_fees}
use jupiter_amm_implementati.CpSwap.Calculator.{SwapResult, swap_base_input}
use jupiter_amm_implementati.Amms.SegaAmm.Quote.{
  quote, quote_swap, vault_amount_without_fee, is_closed, after_transfer_fee,
  mint_transfer_fee_configs, fee_pct, reserves, finish,
}
use jupiter_amm_implementati.Amms.SegaAmm.Quote.Stale.{quote-IsMoved}
use jupiter_amm_implementati.Tests.World.{ext, amm, mints, config, rates, clock, asked}
use jupiter_amm_implementati.Tests.Session.{orders, run_ok}

abbrev quoted : Chain.Quote ℕ
quoted = record {
  in_amount = 10_000;
  out_amount = 19_752;
  fee_amount = 25;
  fee_mint = 5;
  fee_pct = 25;
}

reserves_ok : reserves ext debug amm ≡ ok (1_000_000, 2_000_000)
unfolding reserves vault_amount_without_fee
reserves_ok = refl

quote_ok : quote ext debug clock amm (asked 5 10_000) ≡ ok quoted
unfolding quote quote_swap swap_base_input trading_fee protocol_fee fund_fee
    swap_base_input_without_fees vault_amount_without_fee get_status_by_bit is_closed
    after_transfer_fee mint_transfer_fee_configs fee_pct reserves finish
quote_ok = refl

abbrev swapped_later : SwapResult
swapped_later = record {
  new_swap_source_amount = 1_022_560;
  new_swap_destination_amount = 1_955_980;
  source_amount_swapped = 10_000;
  destination_amount_swapped = 19_268;
  trade_fee = 25;
  protocol_fee = 3;
  fund_fee = 1;
}

swap_later : swap_base_input 10_000 1_012_560 1_975_248 rates ≡ ok swapped_later
unfolding swap_base_input trading_fee protocol_fee fund_fee swap_base_input_without_fees
swap_later = refl

quote-IsMoved_example : 19_268 ≤ 19_752
quote-IsMoved_example =
    quote-IsMoved ext debug clock amm mints config 1_000_000 2_000_000 1_012_560 1_975_248
      (asked 5 10_000) true orders {q = quoted} {r = swapped_later} (omega arith) (omega arith) refl
      (refl, refl) refl reserves_ok quote_ok (refl, (refl, tt)) run_ok swap_later
