-- ===== src/Amms/SplTokenSwapAmm/Quote/Reserves.antt =====
-- Lemmas on `SplTokenSwapAmm::quote` and what it makes of the reserves of an update
-- (jupiter-core/src/amms/spl_token_swap_amm.rs).
use jupiter_amm_implementati.Base.{
  ℕ, ◌≡◌, Bool-cases, inl, inr, if◌then◌else◌, false, some, ok, context, context-eq-ok,
  context_partial, >>=_elim, Profile, plain_add, u128_max, try_into_u64, ◌==◌, arith,
}
use jupiter_amm_implementati.Chain
use jupiter_amm_implementati.Chain.{QuoteParams}
use jupiter_amm_implementati.Amms.Error.{Error, quote_failed, fee_pct_failed, int_out_of_range}
use jupiter_amm_implementati.Amms.External.{External, AccountMap}
use jupiter_amm_implementati.Amms.SplTokenSwapAmm.{SplTokenSwapAmm, get_amount, update}
use jupiter_amm_implementati.Amms.SplTokenSwapAmm.Curve.{
  CurveOf, TokenSwapLib, TokenSwapFees, TradeDirection, a_to_b, b_to_a, CurveResult, SwapResult,
  new, fee_pct, get_swap_curve_result,
}
use jupiter_amm_implementati.Amms.SplTokenSwapAmm.Quote.{trade_sides, quote}

abbrev kept : TokenSwapFees → TokenSwapFees
unfolding new
kept fees =
    new fees.trade_fee_numerator fees.trade_fee_denominator fees.owner_trade_fee_numerator
      fees.owner_trade_fee_denominator

module _ (ext : External) (lib : TokenSwapLib) (profile : Profile) where
  curve_result :
      (curve : CurveOf lib) (amount x y : ℕ) (direction : TradeDirection) (fees : TokenSwapFees)
      {r : SwapResult ext.decimals.D}
      → get_swap_curve_result ext.decimals lib profile curve amount x y direction fees ≡ ok r
      → (c : CurveResult) × (lib.swap curve amount x y direction fees ≡ some c)
        × (r.input_amount ≡ c.source_amount_swapped)
        × (r.expected_output_amount ≡ c.destination_amount_swapped)
  unfolding get_swap_curve_result
  curve_result curve amount x y direction fees h =
      >>=_elim (context (lib.swap curve amount x y direction fees) quote_failed) _ h λ c e_0 h_0.
        >>=_elim (context_partial {E = Error} (fee_pct ext.decimals (kept fees)) fee_pct_failed) _
          h_0
          λ pct e_1 h_1.
            >>=_elim (plain_add {E = Error} profile u128_max c.trade_fee c.owner_fee) _ h_1
              λ total e_2 h_2. (c, context-eq-ok _ _ e_0, ground arith, ground arith)

  -- A quote is the curve's swap on the two sides of its input mint.
  quote_swaps :
      (self : SplTokenSwapAmm ext lib) (p : QuoteParams) {q : Chain.Quote ext.decimals.D}
      → quote ext lib profile self p ≡ ok q
      → (c : CurveResult) × (lib.swap self.state.swap_curve p.amount
            (trade_sides ext lib self p.input_mint).1
            (trade_sides ext lib self p.input_mint).2
            (trade_sides ext lib self p.input_mint).0
            self.state.fees
          ≡ some c)
        × (q.in_amount ≡ c.source_amount_swapped)
        × (q.out_amount ≡ c.destination_amount_swapped)
  unfolding quote
  quote_swaps self p h =
      let sides = trade_sides ext lib self p.input_mint in
      let call =
        get_swap_curve_result ext.decimals lib profile self.state.swap_curve p.amount sides.1
          sides.2 sides.0 self.state.fees in
      >>=_elim call _ h λ r e_0 h_0.
        >>=_elim (context {E = Error} (try_into_u64 r.input_amount) int_out_of_range) _ h_0
          λ i e_1 h_1.
            >>=_elim (context {E = Error} (try_into_u64 r.expected_output_amount) int_out_of_range)
              _ h_1
              λ o e_2 h_2.
                >>=_elim (context {E = Error} (try_into_u64 r.fees) int_out_of_range) _ h_2
                  λ f e_3 h_3.
                    let done =
                      curve_result self.state.swap_curve p.amount sides.1 sides.2 sides.0
                        self.state.fees e_0 in
                    let in_eq = context-eq-ok _ _ e_1 in
                    let out_eq = context-eq-ok _ _ e_2 in
                    let c = done.0 in (c, done.1, ground arith, ground arith)

  -- When an update reads the amounts `a` and `b`, a quote after it is the curve's swap of the amount
  -- from `a` to `b` if its input is the first mint, and from `b` to `a` if it is any other.
  pub update-quote_sides :
      (account_map : AccountMap ext) (self : SplTokenSwapAmm ext lib) (p : QuoteParams) {a b : ℕ}
      {q : Chain.Quote ext.decimals.D}
      → get_amount ext lib account_map self.state.token_a ≡ ok a
      → get_amount ext lib account_map self.state.token_b ≡ ok b
      → quote ext lib profile (update ext lib account_map self).1 p ≡ ok q
      → (c : CurveResult) × (lib.swap self.state.swap_curve p.amount
            (if p.input_mint == self.reserve_mints.0 then a else b)
            (if p.input_mint == self.reserve_mints.0 then b else a)
            (if p.input_mint == self.reserve_mints.0 then a_to_b else b_to_a)
            self.state.fees
          ≡ some c)
        × (q.in_amount ≡ c.source_amount_swapped)
        × (q.out_amount ≡ c.destination_amount_swapped)
  unfolding update trade_sides
  update-quote_sides account_map self p {a} {b} a_eq b_eq h =
      let updated : (update ext lib account_map self).1 ≡ record self { reserves = (a, b) } =
        ground arith in
      let found = quote_swaps (record self { reserves = (a, b) }) p (rw updated at h) in
      elim (Bool-cases (p.input_mint == self.reserve_mints.0)) [
        | inl first ↦ rw first (rw first at found)
        | inr other ↦ rw other (rw other at found)
      ]

  -- When an update reads the amounts `a` and `b`, a quote after it whose input is not the pool's
  -- first mint swaps out of `b` into `a`: each direction has its own reserves in order.
  pub update-quote_b_to_a :
      (account_map : AccountMap ext) (self : SplTokenSwapAmm ext lib) (p : QuoteParams) {a b : ℕ}
      {q : Chain.Quote ext.decimals.D}
      → get_amount ext lib account_map self.state.token_a ≡ ok a
      → get_amount ext lib account_map self.state.token_b ≡ ok b
      → (p.input_mint == self.reserve_mints.0) ≡ false
      → quote ext lib profile (update ext lib account_map self).1 p ≡ ok q
      → (c : CurveResult) × (lib.swap self.state.swap_curve p.amount b a b_to_a self.state.fees
          ≡ some c)
        × (q.in_amount ≡ c.source_amount_swapped)
        × (q.out_amount ≡ c.destination_amount_swapped)
  update-quote_b_to_a account_map self p a_eq b_eq other h =
      rw other at (update-quote_sides account_map self p a_eq b_eq h)
