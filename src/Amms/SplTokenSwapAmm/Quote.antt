-- ===== src/Amms/SplTokenSwapAmm/Quote.antt =====
-- `SplTokenSwapAmm::quote` (jupiter-core/src/amms/spl_token_swap_amm.rs).
pub mod Reserves
pub mod Panics
use jupiter_amm_implementati.Base.{
  ℕ, true, false, Outcome, ok, context, ◌>>=◌, Profile, try_into_u64, ◌==◌, if◌then◌else◌,
}
use jupiter_amm_implementati.Chain
use jupiter_amm_implementati.Chain.{Pubkey, QuoteParams}
use jupiter_amm_implementati.Amms.Error.{Error, int_out_of_range}
use jupiter_amm_implementati.Amms.External.{External}
use jupiter_amm_implementati.Amms.SplTokenSwapAmm.{SplTokenSwapAmm}
use jupiter_amm_implementati.Amms.SplTokenSwapAmm.Curve.{
  TokenSwapLib, TradeDirection, a_to_b, b_to_a, get_swap_curve_result,
}

module _ (ext : External) (lib : TokenSwapLib) where
  open ext use {decimals.{D}}

  -- The direction of a quote with its source and its destination reserve.
  unfoldable pub trade_sides : SplTokenSwapAmm ext lib → Pubkey → TradeDirection × ℕ × ℕ
  trade_sides self input_mint =
      if input_mint == self.reserve_mints.0
      then (a_to_b, self.reserves.0, self.reserves.1)
      else (b_to_a, self.reserves.1, self.reserves.0)

  unfoldable pub quote :
      Profile → SplTokenSwapAmm ext lib → QuoteParams → Outcome Error (Chain.Quote D)
  unfolding trade_sides
  quote profile self quote_params = do
    let sides = trade_sides self quote_params.input_mint
    swap_result ←
        get_swap_curve_result ext.decimals lib profile self.state.swap_curve quote_params.amount
          sides.1 sides.2 sides.0 self.state.fees
    in_amount ← context (try_into_u64 swap_result.input_amount) int_out_of_range
    out_amount ← context (try_into_u64 swap_result.expected_output_amount) int_out_of_range
    fee_amount ← context (try_into_u64 swap_result.fees) int_out_of_range
    ok (record {
      in_amount = in_amount;
      out_amount = out_amount;
      fee_amount = fee_amount;
      fee_mint = quote_params.input_mint;
      fee_pct = swap_result.fee_pct;
    })
