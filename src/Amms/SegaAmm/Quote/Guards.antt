-- ===== src/Amms/SegaAmm/Quote/Guards.antt =====
-- Lemmas on the guards of `SegaAmm::quote` and on its errors
-- (jupiter-core/src/amms/sega_amm.rs).
use jupiter_amm_implementati.Base.{
  ℕ, ◌/◌, ◌%◌, ◌<◌, ◌≡◌, ◌≢◌, ◌⊎◌, ◌↔◌, Bool, true, false, Option, none, some, >>=-ne-err, ok, err,
  refl, context, context_partial, unwrap, ◌>>=◌, Profile, debug, release, Bool-cases, inl, inr,
  arith,
}
use jupiter_amm_implementati.Chain.{ClockRef, QuoteParams, as_u64}
use jupiter_amm_implementati.CpSwap.AmmConfig.{AmmConfig}
use jupiter_amm_implementati.CpSwap.Pool
use jupiter_amm_implementati.CpSwap.Pool.{PoolState, PoolStatusBitIndex, get_status_by_bit}
use jupiter_amm_implementati.CpSwap.Pool.Status.{get_status_by_bit_iff}
use jupiter_amm_implementati.CpSwap.Calculator.{SwapResult, FeeRates, swap_base_input}
use jupiter_amm_implementati.Amms.Error.{
  Error, pool_is_not_trading, missing_amm_config, missing_token_mints, swap_failed,
}
use jupiter_amm_implementati.Amms.External.{External}
use jupiter_amm_implementati.Amms.SegaAmm.{SegaAmm, TokenMints}
use jupiter_amm_implementati.Amms.SegaAmm.Quote.{
  rates_of, vault_amount_without_fee, is_closed, after_transfer_fee, reserves, finish, fee_pct,
  quote_swap, quote,
}

-- The copy of `vault_amount_without_fee` in sega_amm.rs, its two results unwrapped, is the method
-- of the pool, in a debug build and in a release build.
pub vault_amount_without_fee-eq-method :
    (profile : Profile) (pool : PoolState) (vault_0 vault_1 : ℕ)
    → (vault_amount_without_fee profile pool vault_0 vault_1 >>= λ amounts.
        unwrap amounts.0 >>= λ a. unwrap amounts.1 >>= λ b. ok (a, b))
      ≡ Pool.vault_amount_without_fee profile pool vault_0 vault_1
unfolding vault_amount_without_fee Pool.vault_amount_without_fee
vault_amount_without_fee-eq-method debug pool vault_0 vault_1 = ground arith
vault_amount_without_fee-eq-method release pool vault_0 vault_1 = ground arith

-- The pool is closed exactly when digit 2 of its status is 1 or its opening time is still ahead.
is_closed_iff :
    (pool : PoolState) (clock : ClockRef)
    → pool.status < 256
    → (is_closed pool clock ≡ true)
      ↔ ((pool.status / 4 % 2 ≡ 1) ⊎ (as_u64 clock.unix_timestamp < pool.open_time))
unfolding is_closed
is_closed_iff pool clock h =
    let digit = get_status_by_bit_iff pool PoolStatusBitIndex.swap h in
    (λ c. ground arith, λ c. ground arith)

-- The three errors of the guards, which no later step gives.
abbrev is_guard_error : Error → Bool
is_guard_error pool_is_not_trading = true
is_guard_error missing_amm_config = true
is_guard_error missing_token_mints = true
is_guard_error _ = false

module _ (ext : External) (e : Error) (guard : is_guard_error e ≡ true) where
  after_transfer_fee-ne-err :
      (config : Option ext.TransferFeeConfig) (epoch amount : ℕ)
      → after_transfer_fee ext config epoch amount ≢ err e
  unfolding after_transfer_fee
  after_transfer_fee-ne-err none epoch amount h = ground arith
  after_transfer_fee-ne-err (some config) epoch amount h = ground arith

  reserves-ne-err : (profile : Profile) (self : SegaAmm ext) → reserves ext profile self ≢ err e
  unfolding reserves vault_amount_without_fee
  reserves-ne-err debug self h = ground arith
  reserves-ne-err release self h = ground arith

  finish-ne-err :
      (config : Option ext.TransferFeeConfig) (epoch : ℕ) (params : QuoteParams) (r : SwapResult)
      → finish ext config epoch params r ≢ err e
  unfolding finish fee_pct
  finish-ne-err config epoch params r h =
      ground (arith, after_transfer_fee-ne-err config epoch r.destination_amount_swapped)

  swap-ne-err :
      (a x y : ℕ) (rates : FeeRates)
      → context_partial (swap_base_input a x y rates) swap_failed ≢ err e
  swap-ne-err a x y rates h = ground arith

  quote_swap-ne-err :
      (profile : Profile) (clock : ClockRef) (self : SegaAmm ext) (params : QuoteParams)
      (config : AmmConfig) (mints : TokenMints ext)
      → quote_swap ext profile clock self params config mints ≢ err e
  unfolding quote_swap
  quote_swap-ne-err profile clock self params config mints =
      >>=-ne-err _ _ (after_transfer_fee-ne-err _ _ _) λ actual.
        >>=-ne-err _ _ (λ h. ground arith)
          λ _. >>=-ne-err _ _ (reserves-ne-err profile self) λ amounts.
            >>=-ne-err _ _ (swap-ne-err actual amounts.0 amounts.1 (rates_of config))
              λ r. finish-ne-err _ _ params r

module _ (ext : External) (profile : Profile) (clock : ClockRef) (self : SegaAmm ext) where
  open_-ne-err :
      (params : QuoteParams)
      → is_closed self.pool_state clock ≡ false
      → quote ext profile clock self params ≢ err pool_is_not_trading
  unfolding quote
  open_-ne-err params open_ =
      >>=-ne-err _ _ (λ h. ground arith)
        λ _.
          >>=-ne-err (context self.amm_config missing_amm_config) _ (λ h. ground arith)
            λ config.
              >>=-ne-err (context self.token_mints_and_token_programs missing_token_mints) _
                (λ h. ground arith)
                λ mints.
                  quote_swap-ne-err ext pool_is_not_trading refl profile clock self params config
                    mints

  -- A state that has its mints wherever it has a config never reports them missing.
  pub quote-ne-missing_token_mints :
      (params : QuoteParams)
      → (self.amm_config ≡ none) ⊎ (self.token_mints_and_token_programs ≢ none)
      → quote ext profile clock self params ≢ err missing_token_mints
  unfolding quote
  quote-ne-missing_token_mints params (inl bare) = λ h. ground arith
  quote-ne-missing_token_mints params (inr minted) =
      >>=-ne-err _ _ (λ h. ground arith)
        λ _.
          >>=-ne-err (context self.amm_config missing_amm_config) _ (λ h. ground arith)
            λ config.
              >>=-ne-err (context self.token_mints_and_token_programs missing_token_mints) _
                (λ h. ground arith)
                λ mints.
                  quote_swap-ne-err ext missing_token_mints refl profile clock self params config
                    mints

  -- For a status of one byte, a quote is refused because the pool is not trading exactly when bit 2
  -- of the status is set or the clock, cast to u64, is before the opening time.
  pub quote_closed_iff :
      (params : QuoteParams)
      → self.pool_state.status < 256
      → (quote ext profile clock self params ≡ err pool_is_not_trading) ↔ (
          (self.pool_state.status / 4 % 2 ≡ 1)
          ⊎ (as_u64 clock.unix_timestamp < self.pool_state.open_time))
  unfolding quote
  quote_closed_iff params h =
      let closed = is_closed_iff self.pool_state clock h in
      (
        λ refused. elim (Bool-cases (is_closed self.pool_state clock)) [
          | inl c ↦ closed.0 c
          | inr open_ ↦ absurd (open_-ne-err params open_ refused)
        ],
        λ c. ground arith,
      )
