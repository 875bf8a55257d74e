-- ===== src/Amms/SegaAmm/Quote/Stale.antt =====
-- Lemmas on a quote of the Sega pool (jupiter-core/src/amms/sega_amm.rs) against what the curve
-- (sega-cp-swap/src/calculator.rs) pays after the swaps of others.
use jupiter_amm_implementati.Base.{
  ℕ, ◌+◌, ◌≤◌, ◌≡◌, Bool, true, false, List, some, ok, Profile, arith,
}
use jupiter_amm_implementati.Chain
use jupiter_amm_implementati.Chain.{ClockRef, QuoteParams}
use jupiter_amm_implementati.CpSwap.AmmConfig.{AmmConfig}
use jupiter_amm_implementati.CpSwap.Fees.{fee_rate_denominator_value}
use jupiter_amm_implementati.CpSwap.Calculator.{SwapResult, FeeRates, swap_base_input}
use jupiter_amm_implementati.CpSwap.Session.{Order, run}
use jupiter_amm_implementati.CpSwap.Session.Impact.{
  AllOn, swap_base_input_monotone, run_dearer, run-HasMoved,
}
use jupiter_amm_implementati.Amms.External.{External}
use jupiter_amm_implementati.Amms.SegaAmm.{SegaAmm, TokenMints}
use jupiter_amm_implementati.Amms.SegaAmm.Quote.{rates_of, reserves, quote}
use jupiter_amm_implementati.Amms.SegaAmm.Quote.Direction.{
  HasNoTransferFee, quote_source_is_token_0,
}

-- What is paid after swaps that sell token 0, or that sell token 1, against what was promised.
abbrev pub IsMoved : Bool → ℕ → ℕ → Type 0
IsMoved true promised paid = paid ≤ promised
IsMoved false promised paid = promised ≤ paid

module _ (rates : FeeRates)
    (parts : rates.protocol_fee_rate + rates.fund_fee_rate ≤ fee_rate_denominator_value)
    (small : rates.trade_fee_rate ≤ fee_rate_denominator_value) where
  run-IsMoved :
      (sells_0 : Bool) (orders : List Order) (a x y x' y' : ℕ) {r r' : SwapResult}
      → AllOn rates sells_0 orders
      → run rates orders (x, y) ≡ ok (x', y')
      → swap_base_input a x y rates ≡ ok r
      → swap_base_input a x' y' rates ≡ ok r'
      → IsMoved sells_0 r.destination_amount_swapped r'.destination_amount_swapped
  run-IsMoved true orders a x y x' y' on h before after =
      run_dearer rates parts true orders (x, y) a a small on h (omega arith) before after
  run-IsMoved false orders a x y x' y' on h before after =
      let (shallower, deeper) = run-HasMoved rates parts orders false (x, y) on h in
      swap_base_input_monotone rates small a a x x' y y' (omega arith) deeper shallower before after

module _ (ext : External) where
  -- For a pool without transfer fees, with a protocol rate and a fund rate that together are at most
  -- the denominator and a trade fee rate up to it: when others have swapped since a quote, the swap of
  -- the quoted amount of token 0 pays no more than the quote says if they all sold token 0, and no
  -- less if they all sold token 1.
  pub quote-IsMoved :
      (profile : Profile) (clock : ClockRef) (self : SegaAmm ext) (mints : TokenMints ext)
      (config : AmmConfig) (x y x' y' : ℕ) (params : QuoteParams) (sells_0 : Bool)
      (orders : List Order) {q : Chain.Quote ext.decimals.D} {r : SwapResult}
      → config.protocol_fee_rate + config.fund_fee_rate ≤ fee_rate_denominator_value
      → config.trade_fee_rate ≤ fee_rate_denominator_value
      → self.token_mints_and_token_programs ≡ some mints
      → HasNoTransferFee ext mints
      → self.amm_config ≡ some config
      → reserves ext profile self ≡ ok (x, y)
      → quote ext profile clock self params ≡ ok q
      → AllOn (rates_of config) sells_0 orders
      → run (rates_of config) orders (x, y) ≡ ok (x', y')
      → swap_base_input params.amount x' y' (rates_of config) ≡ ok r
      → IsMoved sells_0 q.out_amount r.destination_amount_swapped
  quote-IsMoved profile clock self mints config x y x' y' params sells_0 orders {q} {r} parts small
        hm free hc hr h on ran after =
      let (promised, before, _, out, _) =
        quote_source_is_token_0 ext profile clock self mints config x y params hm free hc hr h in
      rw out (
        run-IsMoved (rates_of config) parts small sells_0 orders params.amount x y x' y' on ran
          before after)
