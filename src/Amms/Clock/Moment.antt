-- ===== src/Amms/Clock/Moment.antt =====
-- Quotes whose relaxed loads of the shared clock do not matter (jupiter-core/src/amms/sega_amm.rs).
use jupiter_amm_implementati.Base.{
  ◌≡◌, ◌∙◌, sym, ◌⊎◌, inl, inr, false, some, Outcome, Profile, Option, none, refl, Bool-cases, ◌==◌,
}
use jupiter_amm_implementati.Chain
use jupiter_amm_implementati.Chain.{ClockRef, QuoteParams}
use jupiter_amm_implementati.CpSwap.AmmConfig.{AmmConfig}
use jupiter_amm_implementati.Amms.Error.{Error}
use jupiter_amm_implementati.Amms.External.{External}
use jupiter_amm_implementati.Amms.SegaAmm.{SegaAmm, TokenMints}
use jupiter_amm_implementati.Amms.SegaAmm.Quote.{
  is_closed, quote_swap, reserves, quote, after_transfer_fee, finish,
}
use jupiter_amm_implementati.Amms.SegaAmm.Quote.Direction.{HasNoTransferFee, configs_none}
use jupiter_amm_implementati.Amms.Clock.{Run, quote_thread}
use jupiter_amm_implementati.Amms.Clock.Torn.{torn, rest_of, quote_opened, quote_closed, Run-torn}

module _ (ext : External) (profile : Profile) (self : SegaAmm ext) (params : QuoteParams) where
  -- Where both clocks find the pool open, the time does not matter.
  quote-torn_open :
      (first second : ClockRef)
      → is_closed self.pool_state first ≡ false
      → is_closed self.pool_state second ≡ false
      → quote ext profile (torn first second) self params ≡ quote ext profile second self params
  unfolding quote quote_swap is_closed
  quote-torn_open first second h h' = rw (h, h')

  swap-torn_free :
      (first second : ClockRef) (config : AmmConfig) (mints : TokenMints ext)
      → HasNoTransferFee ext mints
      → quote_swap ext profile (torn first second) self params config mints
        ≡ quote_swap ext profile first self params config mints
  unfolding quote_swap after_transfer_fee finish
  swap-torn_free first second config mints free =
      rw (configs_none ext (params.input_mint == self.pool_state.token_0_mint) mints free)

  rest-torn_free :
      (first second : ClockRef) (amm_config : Option AmmConfig) (mints : TokenMints ext)
      → HasNoTransferFee ext mints
      → rest_of ext profile self params (torn first second) amm_config (some mints)
        ≡ rest_of ext profile self params first amm_config (some mints)
  rest-torn_free first second none mints free = refl
  rest-torn_free first second (some config) mints free =
      swap-torn_free first second config mints free

  -- Where no mint takes a fee, the epoch does not matter.
  quote-torn_free :
      (first second : ClockRef) (mints : TokenMints ext)
      → self.token_mints_and_token_programs ≡ some mints
      → HasNoTransferFee ext mints
      → quote ext profile (torn first second) self params ≡ quote ext profile first self params
  unfolding is_closed quote_swap reserves
  quote-torn_free first second mints hm free = elim (Bool-cases (is_closed self.pool_state first)) [
    | inl closed ↦
        quote_closed ext profile self params (torn first second) closed
        ∙ sym (quote_closed ext profile self params first closed)
    | inr open_ ↦
        let same = rest-torn_free first second self.amm_config mints free in
        quote_opened ext profile self params (torn first second) open_
        ∙ (rw hm same)
        ∙ sym (quote_opened ext profile self params first open_)
  ]

  -- Each of the two relaxed loads may return its part of any clock that the host makes. If neither mint
  -- takes a transfer fee, or every clock that the host makes finds the pool open, a quote is still the
  -- one that `quote` gives at one of these clocks.
  pub Run-moment :
      {Held : ClockRef → Type 0} {result : Outcome Error (Chain.Quote ext.decimals.D)}
      (start : ClockRef)
      → Held start
      → ((mints : TokenMints ext) × (self.token_mints_and_token_programs ≡ some mints)
          × HasNoTransferFee ext mints)
        ⊎ ((clock : ClockRef) → Held clock → is_closed self.pool_state clock ≡ false)
      → Run Held result (quote_thread ext profile self params)
      → (moment : ClockRef) × Held moment × (quote ext profile moment self params ≡ result)
  Run-moment start held (inl (mints, hm, free)) run =
      let (first, second, held', _, found) = Run-torn ext profile self params start held run in
      (first, held', sym (quote-torn_free first second mints hm free) ∙ found)
  Run-moment start held (inr open_) run =
      let (first, second, held', held'', found) = Run-torn ext profile self params start held run in
      let same = quote-torn_open first second (open_ first held') (open_ second held'') in
      (second, held'', sym same ∙ found)
