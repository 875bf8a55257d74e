-- ===== src/Amms/SplTokenSwapAmm/Quote/Panics.antt =====
-- When `SplTokenSwapAmm::quote` panics (jupiter-core/src/amms/spl_token_swap_amm.rs and the fees of
-- jupiter-core/src/math).
use jupiter_amm_implementati.Base.{
  no_panic, ℕ, ◌+◌, ◌<◌, ◌≡◌, ◌≢◌, ◌↔◌, true, refl, some, ok, panic, is_ok, Profile, debug, release,
  plain_add, u128_max, arith, context_partial, ◌>>=◌, Outcome-cases, inl, inr, ap, context,
  context-ne-panic, context_partial-ne-panic, context-eq-ok, context_partial-eq-ok, >>=-panics,
  >>=-ne-panic,
}
use jupiter_amm_implementati.Chain.{QuoteParams}
use jupiter_amm_implementati.Amms.Error.{Error, quote_failed, fee_pct_failed}
use jupiter_amm_implementati.Amms.External.{External}
use jupiter_amm_implementati.Amms.SplTokenSwapAmm.{SplTokenSwapAmm}
use jupiter_amm_implementati.Amms.SplTokenSwapAmm.Curve.{
  CurveOf, TokenSwapLib, TokenSwapFees, TradeDirection, CurveResult, new, fee_pct,
  get_swap_curve_result,
}
use jupiter_amm_implementati.Amms.SplTokenSwapAmm.Quote.{trade_sides, quote}

plain_add_panics :
    {A : Type 0} (profile : Profile) (a b : ℕ) (f : ℕ → A)
    → (plain_add {E = Error} profile u128_max a b >>= λ total. ok (f total)) ≡ panic
    → (profile ≡ debug) × (u128_max < a + b)
plain_add_panics debug a b f h = (refl, ground arith)
plain_add_panics release a b f h = absurd (cc (h))

module _ (ext : External) where
  fee_pct-ne-panic : (fees : TokenSwapFees) → fee_pct ext.decimals fees ≢ panic
  unfolding fee_pct
  fee_pct-ne-panic fees h = ground arith

  -- The two fees of a curve's swap do not fit together, in a build that checks.
  pub record Overflows (lib : TokenSwapLib) (profile : Profile) (curve : CurveOf lib)
      (amount x y : ℕ) (direction : TradeDirection) (fees : TokenSwapFees) : Type 0 where
    pub checked : profile ≡ debug
    pub result : CurveResult
    pub swapped : lib.swap curve amount x y direction fees ≡ some result
    pub defined : is_ok (fee_pct ext.decimals fees) ≡ true
    pub beyond : u128_max < result.trade_fee + result.owner_fee

  module _ (lib : TokenSwapLib) (profile : Profile) where
    curve_panics :
        (curve : CurveOf lib) (amount x y : ℕ) (direction : TradeDirection) (fees : TokenSwapFees)
        → get_swap_curve_result ext.decimals lib profile curve amount x y direction fees ≡ panic
        → Overflows lib profile curve amount x y direction fees
    unfolding get_swap_curve_result new
    curve_panics curve amount x y direction fees h =
        let (c, e_0, h_0) =
          >>=-panics (context (lib.swap curve amount x y direction fees) quote_failed) _
            (context-ne-panic _ _) h in
        let (pct, e_1, h_1) =
          >>=-panics (context_partial {E = Error} (fee_pct ext.decimals fees) fee_pct_failed) _
            (context_partial-ne-panic _ _ (fee_pct-ne-panic fees)) h_0 in
        let defined = context_partial-eq-ok _ _ e_1 in
        let (checked, beyond) = plain_add_panics profile c.trade_fee c.owner_fee _ h_1 in
        record {
          checked = checked;
          result = c;
          swapped = context-eq-ok _ _ e_0;
          defined = ap is_ok defined;
          beyond = beyond;
        }

    overflow_panics :
        (curve : CurveOf lib) (amount x y : ℕ) (direction : TradeDirection) (fees : TokenSwapFees)
        → Overflows lib profile curve amount x y direction fees
        → get_swap_curve_result ext.decimals lib profile curve amount x y direction fees ≡ panic
    unfolding get_swap_curve_result new
    overflow_panics curve amount x y direction fees o =
        let checked = o.checked in
        let swapped = o.swapped in let defined = o.defined in let beyond = o.beyond in ground arith

    -- A quote panics exactly in a debug build whose `+` finds that the two fees of the curve's swap do
    -- not fit 128 bits together, where their rate of decimals is defined; so never in a release build.
    pub quote_panic_iff :
        (self : SplTokenSwapAmm ext lib) (params : QuoteParams)
        → (quote ext lib profile self params ≡ panic)
          ↔ Overflows lib profile self.state.swap_curve params.amount
              (trade_sides ext lib self params.input_mint).1
              (trade_sides ext lib self params.input_mint).2
              (trade_sides ext lib self params.input_mint).0
              self.state.fees
    unfolding quote
    quote_panic_iff self params =
        let sides = trade_sides ext lib self params.input_mint in
        let call =
          get_swap_curve_result ext.decimals lib profile self.state.swap_curve params.amount sides.1
            sides.2 sides.0 self.state.fees in
        let panics =
          curve_panics self.state.swap_curve params.amount sides.1 sides.2 sides.0
            self.state.fees in
        let returns = λ (h : quote ext lib profile self params ≡ panic) (returned : call ≢ panic).
          >>=-ne-panic call _ returned (λ r e. search no_panic depth 12) h in
        (
          λ h. elim (Outcome-cases call) [
            | inl (r, e) ↦ absurd (returns h (λ stuck. cc (e, stuck)))
            | inr (inl (problem, e)) ↦ absurd (returns h (λ stuck. cc (e, stuck)))
            | inr (inr stuck) ↦ panics stuck
          ],
          λ o. rw (
              overflow_panics self.state.swap_curve params.amount sides.1 sides.2 sides.0
                self.state.fees o),
        )
