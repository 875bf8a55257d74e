-- ===== src/Amms/SegaAmm/Quote/Outcomes.antt =====
-- The steps of a run of `SegaAmm::quote` that ends in a quote
-- (jupiter-core/src/amms/sega_amm.rs).
use jupiter_amm_implementati.Base.{
  ℕ, refl, Bool, context-eq-ok, context_partial-eq-ok, ◌≤◌, ◌<◌, ◌≡◌, true, false, Option, some, ok,
  context, context_partial, >>=_elim, try_into_u64, Profile, u64_max, ◌==◌, arith,
}
use jupiter_amm_implementati.Chain
use jupiter_amm_implementati.Chain.{ClockRef, QuoteParams}
use jupiter_amm_implementati.CpSwap.AmmConfig.{AmmConfig}
use jupiter_amm_implementati.CpSwap.Calculator.{SwapResult, swap_base_input}
use jupiter_amm_implementati.Amms.Error.{
  Error, pool_is_not_trading, missing_amm_config, missing_token_mints, amount_too_low, swap_failed,
  int_out_of_range,
}
use jupiter_amm_implementati.Amms.External.{External}
use jupiter_amm_implementati.Amms.SegaAmm.{SegaAmm, TokenMints}
use jupiter_amm_implementati.Amms.SegaAmm.Quote.{
  reject_if, is_closed, rates_of, after_transfer_fee, mint_transfer_fee_configs, fee_pct, reserves,
  finish, quote_swap, quote,
}

reject_if-eq-ok : (b : Bool) (e : Error) {u : Unit {0}} → reject_if b e ≡ ok u → b ≡ false
reject_if-eq-ok false e h = refl
reject_if-eq-ok true e h = cc

not_zero : (n : ℕ) → (n == 0) ≡ false → 0 < n
not_zero n h = ground arith

module _ (ext : External) where
  open ext use {decimals.{D}}

  -- What the end of `quote` takes over from the swap.
  pub finish_value :
      (config : Option ext.TransferFeeConfig) (epoch : ℕ) (params : QuoteParams) (r : SwapResult)
      {q : Chain.Quote D}
      → finish ext config epoch params r ≡ ok q
      → (q.in_amount ≡ r.source_amount_swapped)
        × (q.fee_amount ≡ r.trade_fee)
        × (q.fee_mint ≡ params.input_mint)
        × (r.destination_amount_swapped ≤ u64_max)
        × (after_transfer_fee ext config epoch r.destination_amount_swapped ≡ ok q.out_amount)
        × (fee_pct ext q.fee_amount ≡ ok q.fee_pct)
  unfolding finish
  finish_value config epoch params r h =
      >>=_elim (context (try_into_u64 r.destination_amount_swapped) int_out_of_range) _ h
        λ out e_0 h_0. >>=_elim (after_transfer_fee ext config epoch out) _ h_0 λ actual e_1 h_1.
          >>=_elim (context (try_into_u64 r.source_amount_swapped) int_out_of_range) _ h_1
            λ ins e_2 h_2.
              >>=_elim (context (try_into_u64 r.trade_fee) int_out_of_range) _ h_2
                λ fee e_3 h_3. >>=_elim (fee_pct ext r.trade_fee) _ h_3 λ pct e_4 h_4. ground arith

module _ (ext : External) (profile : Profile) (clock : ClockRef) (self : SegaAmm ext) where
  open ext use {decimals.{D}}

  -- What a run that ends in a quote went through.
  pub record QuoteSteps (quote_params : QuoteParams) (q : Chain.Quote D) : Type 0 where
    pub amm_config : AmmConfig
    pub mints : TokenMints ext
    pub actual_amount_in : ℕ
    pub amounts : ℕ × ℕ
    pub swap_result : SwapResult
    pub open_ : is_closed self.pool_state clock ≡ false
    pub configured : self.amm_config ≡ some amm_config
    pub minted : self.token_mints_and_token_programs ≡ some mints
    pub received :
        after_transfer_fee ext
          (mint_transfer_fee_configs ext
            (quote_params.input_mint == self.pool_state.token_0_mint)
            mints).0
          clock.epoch
          quote_params.amount
        ≡ ok actual_amount_in
    pub positive : 0 < actual_amount_in
    pub reserved : reserves ext profile self ≡ ok amounts
    pub swapped :
        swap_base_input actual_amount_in amounts.0 amounts.1 (rates_of amm_config) ≡ ok swap_result
    pub finished :
        finish ext
          (mint_transfer_fee_configs ext
            (quote_params.input_mint == self.pool_state.token_0_mint)
            mints).1
          clock.epoch
          quote_params
          swap_result
        ≡ ok q

  pub quote-QuoteSteps :
      (quote_params : QuoteParams) {q : Chain.Quote D}
      → quote ext profile clock self quote_params ≡ ok q
      → QuoteSteps quote_params q
  unfolding quote quote_swap
  quote-QuoteSteps quote_params h =
      >>=_elim (reject_if (is_closed self.pool_state clock) pool_is_not_trading) _ h λ u_0 e_0 h_0.
        >>=_elim (context self.amm_config missing_amm_config) _ h_0 λ amm_config e_1 h_1.
          >>=_elim (context self.token_mints_and_token_programs missing_token_mints) _ h_1
            λ mints e_2 h_2.
              let configs =
                mint_transfer_fee_configs ext
                  (quote_params.input_mint == self.pool_state.token_0_mint) mints in
              >>=_elim (after_transfer_fee ext configs.0 clock.epoch quote_params.amount) _ h_2
                λ actual e_3 h_3.
                  >>=_elim (reject_if (actual == 0) amount_too_low) _ h_3 λ u_4 e_4 h_4.
                    >>=_elim (reserves ext profile self) _ h_4 λ amounts e_5 h_5.
                      >>=_elim
                        (context_partial
                          (swap_base_input actual amounts.0 amounts.1 (rates_of amm_config))
                          swap_failed)
                        _ h_5
                        λ swap_result e_6 h_6. record {
                          amm_config = amm_config;
                          mints = mints;
                          actual_amount_in = actual;
                          amounts = amounts;
                          swap_result = swap_result;
                          open_ = reject_if-eq-ok _ _ e_0;
                          configured = context-eq-ok _ _ e_1;
                          minted = context-eq-ok _ _ e_2;
                          received = e_3;
                          positive = not_zero _ (reject_if-eq-ok _ _ e_4);
                          reserved = e_5;
                          swapped = context_partial-eq-ok _ _ e_6;
                          finished = h_6;
                        }
